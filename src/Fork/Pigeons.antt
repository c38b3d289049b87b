-- ===== src/Fork/Pigeons.antt =====
-- Of more numbers than there are tasks, one is free (kernel/fork.c, the search for `last_pid`).
use liha_linux.Base.{
  ◌++◌, Bool, Bool-cases, List, Option, [], ap, arith, eq_ℤ, false, inl, inr, length, negsuc, none,
  pos, refl, some, suc, sym, true, true_is_not_false, zero, ◌||◌, ℕ, ℤ, ◌∙◌, ◌∷◌, ◌≡◌, ◌≢◌, ◌≤◌,
}
use liha_linux.Task.{Task, TaskTable}
use liha_linux.Cache.Links.{IsIn, Out, Distinct, Distinct-without, Out-middle}
use liha_linux.Fork.{is_pid, pid_taken}

abbrev pub AllTaken : ℕ → TaskTable → List ℕ → Type 0
AllTaken m t [] = Unit {0}
AllTaken m t (c ∷ cs) = (pid_taken m t c ≡ true) × AllTaken m t cs

-- The task has at most one of the numbers.
data Split (o : Option Task) : List ℕ → Type 0 where
  not_here : {cs : List ℕ} → ((c : ℕ) → IsIn c cs → is_pid c o ≡ false) → Split o cs
  here : (ls : List ℕ) (c : ℕ) (rs : List ℕ) → is_pid c o ≡ true → Split o (ls ++ c ∷ rs)

longer :
    (o : Option Task) (c : ℕ) (cs : List ℕ) → is_pid c o ≡ false → Split o cs → Split o (c ∷ cs)
longer o c cs e (not_here h) =
    not_here λ x p. elim p [ inl q ↦ ap (λ y. is_pid y o) q ∙ e | inr r ↦ h x r ]
longer o c cs e (here ls d rs h) = here (c ∷ ls) d rs h

split : (o : Option Task) (cs : List ℕ) → Split o cs
split o [] = not_here λ c e. absurd e
split o (c ∷ cs) = elim (Bool-cases (is_pid c o)) [
  | inl e ↦ here [] c cs e
  | inr e ↦ longer o c cs e (split o cs)
]

same_number : (p : ℤ) (a b : ℕ) → eq_ℤ p (pos a) ≡ true → eq_ℤ p (pos b) ≡ true → a ≡ b
same_number (pos n) a b e f = ground arith
same_number (negsuc n) a b e f = ground arith

or_left : (a b : Bool) → (a || b) ≡ true → b ≡ false → a ≡ true
or_left true b e f = refl
or_left false b e f = true_is_not_false (sym e ∙ f)

apart : (b : Bool) → (b ≡ true → ⊥) → b ≡ false
apart true h = absurd (h refl)
apart false h = refl

le_suc : {a m : ℕ} → a ≤ m → a ≤ suc m
le_suc h = omega arith

one_pid : (o : Option Task) (a b : ℕ) → is_pid a o ≡ true → is_pid b o ≡ true → a ≡ b
one_pid none a b e f = true_is_not_false (sym e)
one_pid (some t) a b e f = same_number t.pid a b e f

Out-IsIn : (c x : ℕ) (xs : List ℕ) → Out c xs → IsIn x xs → c ≢ x
Out-IsIn c x [] out p = absurd p
Out-IsIn c x (y ∷ ys) out (inl e) = λ q. out.0 (q ∙ e)
Out-IsIn c x (y ∷ ys) out (inr p) = Out-IsIn c x ys out.1 p

-- The other numbers are taken by the other tasks.
others :
    (m : ℕ) (t : TaskTable) (cs : List ℕ)
    → AllTaken (suc m) t cs
    → ((c : ℕ) → IsIn c cs → is_pid c (t m) ≡ false)
    → AllTaken m t cs
unfolding pid_taken
others m t [] all h = tt
others m t (c ∷ cs) all h = (
  or_left (pid_taken m t c) (is_pid c (t m)) all.0 (h c (inl refl)),
  others m t cs all.1 (λ x p. h x (inr p)),
)

AllTaken-without :
    (m : ℕ) (t : TaskTable) (ls : List ℕ) (c : ℕ) (rs : List ℕ)
    → AllTaken m t (ls ++ c ∷ rs)
    → AllTaken m t (ls ++ rs)
AllTaken-without m t [] c rs h = h.1
AllTaken-without m t (x ∷ ls) c rs h = (h.0, AllTaken-without m t ls c rs h.1)

length-middle :
    (ls : List ℕ) (c : ℕ) (rs : List ℕ) → length (ls ++ c ∷ rs) ≡ suc (length (ls ++ rs))
length-middle [] c rs = refl
length-middle (x ∷ ls) c rs = ap suc (length-middle ls c rs)

-- Distinct numbers that are all taken are no more than the tasks.
module _ (m : ℕ) (t : TaskTable) where
  fewer_taken :
      (cs : List ℕ)
      → ((ds : List ℕ) → Distinct ds → AllTaken m t ds → length ds ≤ m)
      → Distinct cs
      → AllTaken (suc m) t cs
      → Split (t m) cs
      → length cs ≤ suc m
  fewer_taken cs fewer d all (not_here h) = le_suc (fewer cs d (others m t cs all h))
  fewer_taken cs fewer d all (here ls c rs e) =
      let rest = AllTaken-without (suc m) t ls c rs all in
      let none_here = λ (x : ℕ) (p : IsIn x (ls ++ rs)).
        apart (is_pid x (t m))
          λ f. Out-IsIn c x (ls ++ rs) (Out-middle ls c rs d) p (one_pid (t m) c x e f) in
      omega (
        arith,
        length-middle ls c rs,
        fewer (ls ++ rs) (Distinct-without ls c rs d) (others m t (ls ++ rs) rest none_here),
      )

pub pigeons : (m : ℕ) (t : TaskTable) (cs : List ℕ) → Distinct cs → AllTaken m t cs → length cs ≤ m
unfolding pid_taken
pigeons zero t [] d all = omega arith
pigeons zero t (c ∷ cs) d all = true_is_not_false (sym all.0)
pigeons (suc m) t cs d all = fewer_taken m t cs (λ ds. pigeons m t ds) d all (split (t m) cs)
