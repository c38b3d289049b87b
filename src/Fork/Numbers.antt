-- ===== src/Fork/Numbers.antt =====
-- The number and the slot that `find_empty_process` (kernel/fork.c) finds.
use liha_linux.Base.{
  ◌+◌, ◌-◌, ◌<◌, ◌==◌, ==_iff, Bool-cases, List, Option, Option-cases, [], ◌^◌, ap, arith, false,
  if◌then◌else◌, inl, inr, length, ltb, none, refl, some, subst, suc, sym, zero, ℕ, ◌∙◌, ◌∷◌, ◌≡◌,
  ◌≢◌, ◌≤◌, ◌⊎◌,
}
use liha_linux.Task.{Task, TaskTable, nr_tasks}
use liha_linux.Cache.Links.{Out, Distinct}
use liha_linux.Fork.{find_empty_process, find_pid, find_slot, next_pid, pid_taken}
use liha_linux.Fork.Pigeons.{AllTaken, pigeons}

-- The numbers behind `p` in the order of the search.
abbrev tries : ℕ → ℕ → List ℕ
tries zero p = []
tries (suc n) p = next_pid p ∷ tries n (next_pid p)

length-tries : (n p : ℕ) → length (tries n p) ≡ n
length-tries zero p = refl
length-tries (suc n) p = ap suc (length-tries n (next_pid p))

-- The number `j` steps behind `x`, for less than a turn.
abbrev nth : ℕ → ℕ → ℕ
nth j x = if ltb (x + j) (2 ^ 31) then x + j else x + j - (2 ^ 31 - 1)

next-nth : (j x : ℕ) → x < 2 ^ 31 → j < 100 → next_pid (nth j x) ≡ nth (j + 1) x
next-nth j x h g = ground arith

nth_apart : (j x : ℕ) → x < 2 ^ 31 → 0 < j → j < 100 → x ≢ nth j x
nth_apart j x h p g = ground arith

below_top : (x : ℕ) → next_pid x < 2 ^ 31
below_top x = ground arith

no_step : (q : ℕ) → q < 2 ^ 31 → nth 0 q ≡ q
no_step q h = ground arith

too_many : {n : ℕ} → n ≡ 65 → n ≤ 64 → ⊥
too_many e h = omega arith

Out-tries : (n j x : ℕ) → x < 2 ^ 31 → j + n < 100 → Out x (tries n (nth j x))
Out-tries zero j x h g = tt
Out-tries (suc n) j x h g =
    let e = next-nth j x h (omega arith) in
    (
      (λ q. nth_apart (j + 1) x h (omega arith) (omega arith) (q ∙ e)),
      subst (λ p. Out x (tries n p)) (sym e) (Out-tries n (j + 1) x h (omega arith)),
    )

tries-Distinct : (n p : ℕ) → n < 100 → Distinct (tries n p)
tries-Distinct zero p h = tt
tries-Distinct (suc n) p h =
    let q = next_pid p in
    (
      subst (λ r. Out q (tries n r)) (no_step q (below_top p))
          (Out-tries n 0 q (below_top p) (omega arith)),
      tries-Distinct n q (omega arith),
    )

find_pid-taken :
    (n : ℕ) (t : TaskTable) (p : ℕ)
    → (pid_taken nr_tasks t (find_pid n t p) ≡ false) ⊎ AllTaken nr_tasks t (tries n p)
unfolding find_pid
find_pid-taken zero t p = inr tt
find_pid-taken (suc n) t p =
    let q = next_pid p in
    elim (Bool-cases (pid_taken nr_tasks t q)) [
      | inr e ↦ inl (ap (λ b. pid_taken nr_tasks t (if b then find_pid n t q else q)) e ∙ e)
      | inl e ↦ elim (find_pid-taken n t q) [
        | inl f ↦ inl (ap (λ b. pid_taken nr_tasks t (if b then find_pid n t q else q)) e ∙ f)
        | inr f ↦ inr (e, f)
      ]
    ]

-- A slot that is free, or none of those from `i` on.
pub data FreeSlot (n i : ℕ) (t : TaskTable) : Option ℕ → Type 0 where
  no_slot : ((j : ℕ) → i ≤ j → j < i + n → t j ≢ none) → FreeSlot n i t none
  slot : {k : ℕ} → i ≤ k → k < i + n → t k ≡ none → FreeSlot n i t (some k)

some_is_none : {a : Task} → some a ≡ none → ⊥
some_is_none e = ground arith

slot_here : (n i : ℕ) (t : TaskTable) → t i ≡ none → find_slot (suc n) i t ≡ some i
unfolding find_slot
slot_here n i t e = rw (e, find_slot) refl

slot_later :
    (n i : ℕ) (t : TaskTable) (a : Task)
    → t i ≡ some a
    → find_slot (suc n) i t ≡ find_slot n (i + 1) t
unfolding find_slot
slot_later n i t a e = rw (e, find_slot) refl

from_next : {i j : ℕ} → i ≤ j → (j == i) ≡ false → i + 1 ≤ j
from_next h e = ground arith

one_earlier :
    (n i : ℕ) (t : TaskTable)
    → t i ≢ none
    → (o : Option ℕ) → FreeSlot n (i + 1) t o
    → FreeSlot (suc n) i t o
one_earlier n i t full o (no_slot h) = no_slot λ j low high. elim (Bool-cases (j == i)) [
  | inl e ↦ λ q. full (ap t (sym ((==_iff j i).0 e)) ∙ q)
  | inr e ↦ h j (from_next low e) (omega arith)
]
one_earlier n i t full o (slot low high e) = slot (omega arith) (omega arith) e

find_slot-FreeSlot : (n i : ℕ) (t : TaskTable) → FreeSlot n i t (find_slot n i t)
unfolding find_slot
find_slot-FreeSlot zero i t = no_slot λ j low high. absurd (omega arith)
find_slot-FreeSlot (suc n) i t = elim (Option-cases (t i)) [
  | inl e ↦
      subst (FreeSlot (suc n) i t) (sym (slot_here n i t e)) (slot (omega arith) (omega arith) e)
  | inr e ↦ subst (FreeSlot (suc n) i t) (sym (slot_later n i t e.0 e.1)) (
      one_earlier n i t (λ q. some_is_none (sym e.1 ∙ q)) (find_slot n (i + 1) t)
        (find_slot-FreeSlot n (i + 1) t))
]

-- Whatever the tasks are, the search for a number ends with one that no task has, and the slot is
-- a free one other than that of task 0, or there is none.
pub find_empty_process_lem :
    (t : TaskTable) (last : ℕ)
    → (pid_taken nr_tasks t (find_empty_process t last).0 ≡ false)
      × FreeSlot 63 1 t (find_empty_process t last).1
unfolding find_empty_process
find_empty_process_lem t last = (
  elim (find_pid-taken 65 t last) [
    | inl e ↦ e
    | inr all ↦ absurd (
        too_many (length-tries 65 last)
          (pigeons nr_tasks t (tries 65 last) (tries-Distinct 65 last (omega arith)) all))
  ],
  find_slot-FreeSlot 63 1 t,
)
