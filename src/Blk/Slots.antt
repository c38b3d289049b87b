-- ===== src/Blk/Slots.antt =====
-- The search of `make_request` (kernel/blk_drv/ll_rw_blk.c) for a free request.
use liha_linux.Base.{
  ◌+◌, ◌<◌, ◌==◌, Bool, Bool-cases, Option, ap, arith, false, if◌then◌else◌, inl, inr, ltb_ℤ, none,
  pos, some, subst, suc, sym, true, zero, ℕ, ◌∙◌, ◌≡◌, ◌≤◌,
}
use liha_linux.Blk.{Request, find_request}

abbrev pub is_free : Request → Bool
is_free r = ltb_ℤ r.dev (pos 0)

-- The slots from `i` to `n - 1` are in use.
abbrev pub NoneFree : (ℕ → Request) → ℕ → ℕ → Type 0
NoneFree request i n = (j : ℕ) → i ≤ j → j < n → is_free (request j) ≡ false

abbrev pub Search : (ℕ → Request) → ℕ → Option ℕ → Type 0
Search request n none = NoneFree request 0 n
Search request n (some i) = (i < n) × (is_free (request i) ≡ true) × NoneFree request (i + 1) n

one_more :
    (request : ℕ → Request) (i n : ℕ)
    → is_free (request n) ≡ false
    → NoneFree request i n
    → NoneFree request i (suc n)
one_more request i n used none_free j low high = elim (Bool-cases (j == n)) [
  | inl last ↦ let e : j ≡ n = ground arith in ap (λ x. is_free (request x)) e ∙ used
  | inr other ↦ none_free j low (let h : j < n = ground arith in h)
]

more :
    (request : ℕ → Request) (n : ℕ) (o : Option ℕ)
    → is_free (request n) ≡ false
    → Search request n o
    → Search request (suc n) o
more request n none used h = one_more request 0 n used h
more request n (some i) used (low, free, above) =
    (omega arith, free, one_more request (i + 1) n used above)

pub find_request-Search :
    (n : ℕ) (request : ℕ → Request) → Search request n (find_request n request)
unfolding find_request
find_request-Search zero request = λ j low high. absurd (omega arith)
find_request-Search (suc n) request = elim (Bool-cases (is_free (request n))) [
  | inl free ↦
      subst (λ b. Search request (suc n) (if b then some n else find_request n request)) (sym free)
        (omega arith, free, λ j low high. absurd (omega arith))
  | inr used ↦
      subst (λ b. Search request (suc n) (if b then some n else find_request n request)) (sym used)
        (more request n (find_request n request) used (find_request-Search n request))
]
