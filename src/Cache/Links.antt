-- ===== src/Cache/Links.antt =====
-- Lists of buffers without repeats, for the queues of fs/buffer.c.
use liha_linux.Base.{◌++◌, List, [], sym, ℕ, ◌∷◌, ◌≡◌, ◌≢◌, ◌⊎◌}

-- `p` is not in the list.
abbrev pub Out : ℕ → List ℕ → Type 0
Out p [] = Unit {0}
Out p (x ∷ xs) = (p ≢ x) × Out p xs

abbrev pub Distinct : List ℕ → Type 0
Distinct [] = Unit {0}
Distinct (x ∷ xs) = Out x xs × Distinct xs

pub Out-append : (p : ℕ) (xs ys : List ℕ) → Out p xs → Out p ys → Out p (xs ++ ys)
Out-append p [] ys h g = g
Out-append p (x ∷ xs) ys h g = (h.0, Out-append p xs ys h.1 g)

pub Out-left : (p : ℕ) (xs ys : List ℕ) → Out p (xs ++ ys) → Out p xs
Out-left p [] ys h = tt
Out-left p (x ∷ xs) ys h = (h.0, Out-left p xs ys h.1)

pub Out-right : (p : ℕ) (xs ys : List ℕ) → Out p (xs ++ ys) → Out p ys
Out-right p [] ys h = h
Out-right p (x ∷ xs) ys h = Out-right p xs ys h.1

-- One buffer taken out, or put at the end.
pub Out-without :
    (p : ℕ) (ls : List ℕ) (b : ℕ) (rs : List ℕ) → Out p (ls ++ b ∷ rs) → Out p (ls ++ rs)
Out-without p ls b rs h =
    Out-append p ls rs (Out-left p ls (b ∷ rs) h) (Out-right p ls (b ∷ rs) h).1

pub Distinct-without :
    (ls : List ℕ) (b : ℕ) (rs : List ℕ) → Distinct (ls ++ b ∷ rs) → Distinct (ls ++ rs)
Distinct-without [] b rs d = d.1
Distinct-without (x ∷ ls) b rs d = (Out-without x ls b rs d.0, Distinct-without ls b rs d.1)

pub Distinct-snoc : (xs : List ℕ) (b : ℕ) → Distinct xs → Out b xs → Distinct (xs ++ b ∷ [])
Distinct-snoc [] b d out = (tt, tt)
Distinct-snoc (x ∷ xs) b d out =
    (Out-append x xs (b ∷ []) d.0 ((λ e. out.0 (sym e)), tt), Distinct-snoc xs b d.1 out.1)

-- The buffer in the middle is none of the others.
pub Out-middle : (ls : List ℕ) (b : ℕ) (rs : List ℕ) → Distinct (ls ++ b ∷ rs) → Out b (ls ++ rs)
Out-middle [] b rs d = d.0
Out-middle (x ∷ ls) b rs d =
    ((λ e. (Out-right x ls (b ∷ rs) d.0).0 (sym e)), Out-middle ls b rs d.1)

abbrev pub IsIn : ℕ → List ℕ → Type 0
IsIn c [] = ⊥
IsIn c (x ∷ xs) = (c ≡ x) ⊎ IsIn c xs
