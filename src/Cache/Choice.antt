-- ===== src/Cache/Choice.antt =====
-- The buffer that `getblk` picks among the free ones (fs/buffer.c): the search over the ring.
use liha_linux.Base.{
  ◌&&◌, ◌<◌, ◌==◌, ==_iff, ==_≢, Bool, Bool-cases, List, Option, [], ap, arith, false,
  if◌then◌else◌, inl, inr, length, ltb, refl, some, suc, sym, true, true_is_not_false, zero, ℕ, ◌∙◌,
  ◌∷◌, ◌≡◌, ◌≢◌,
}
use liha_linux.Cache.{Cache, badness, is_better, consider, search_free}
use liha_linux.Cache.Links.{Out}
use liha_linux.Cache.Ring.{Linked, step, done}

-- The search over a list of buffers, without the early end at badness 0.
abbrev pub pick : Cache → Option ℕ → ℕ → Option ℕ
pick k best x = (consider k x best).0

abbrev pub best_of : Cache → Option ℕ → List ℕ → Option ℕ
best_of k best [] = best
best_of k best (x ∷ xs) = best_of k (pick k best x) xs

pub consider_takes :
    (k : Cache) (x : ℕ) (best : Option ℕ)
    → ((k.count x == 0) && is_better k x best) ≡ true
    → consider k x best ≡ (some x, badness k x == 0)
unfolding consider
consider_takes k x best e = ap (λ t. if t then (some x, badness k x == 0) else (best, false)) e

pub consider_keeps :
    (k : Cache) (x : ℕ) (best : Option ℕ)
    → ((k.count x == 0) && is_better k x best) ≡ false
    → consider k x best ≡ (best, false)
unfolding consider
consider_keeps k x best e = ap (λ t. if t then (some x, badness k x == 0) else (best, false)) e

not_below_zero : (a : ℕ) → ltb a 0 ≡ false
not_below_zero a = ground arith

and_false : (a : Bool) → (a && false) ≡ false
and_false true = refl
and_false false = refl

-- No buffer is better than one of badness 0.
best_of_zero : (k : Cache) (b : ℕ) (xs : List ℕ) → badness k b ≡ 0 → best_of k (some b) xs ≡ some b
best_of_zero k b [] e = refl
best_of_zero k b (x ∷ xs) e =
    let no_better = ap (ltb (badness k x)) e ∙ not_below_zero (badness k x) in
    let no_test = ap (λ t. (k.count x == 0) && t) no_better ∙ and_false (k.count x == 0) in
    ap (λ c. best_of k c.0 xs) (consider_keeps k x (some b) no_test) ∙ best_of_zero k b xs e

break_at_zero :
    (k : Cache) (x : ℕ) (best : Option ℕ)
    → (consider k x best).1 ≡ true
    → (pick k best x ≡ some x) × (badness k x ≡ 0)
break_at_zero k x best e = elim (Bool-cases ((k.count x == 0) && is_better k x best)) [
  | inl f ↦ (
    ap (λ c. c.0) (consider_takes k x best f),
    (==_iff (badness k x) 0).0 (sym (ap (λ c. c.1) (consider_takes k x best f)) ∙ e),
  )
  | inr f ↦ true_is_not_false (sym e ∙ ap (λ c. c.1) (consider_keeps k x best f))
]

-- One round of the loop.
search_breaks :
    (k : Cache) (n x : ℕ) (best : Option ℕ)
    → (consider k x best).1 ≡ true
    → search_free (suc n) k x best ≡ pick k best x
unfolding search_free
search_breaks k n x best e = rw (e, search_free) refl

search_ends :
    (k : Cache) (n x : ℕ) (best : Option ℕ)
    → (consider k x best).1 ≡ false
    → k.next_free x ≡ some k.free_list
    → search_free (suc n) k x best ≡ pick k best x
unfolding search_free
search_ends k n x best e f = rw (e, search_free, f, (==_iff k.free_list k.free_list).1 refl) refl

search_goes_on :
    (k : Cache) (n x y : ℕ) (best : Option ℕ)
    → (consider k x best).1 ≡ false
    → k.next_free x ≡ some y
    → y ≢ k.free_list
    → search_free (suc n) k x best ≡ search_free n k y (pick k best x)
unfolding search_free
search_goes_on k n x y best e f ne = rw (e, search_free, f, ==_≢ y k.free_list ne) refl

broken :
    (k : Cache) (n x : ℕ) (xs : List ℕ) (best : Option ℕ)
    → (consider k x best).1 ≡ true
    → search_free (suc n) k x best ≡ best_of k best (x ∷ xs)
broken k n x xs best e =
    let z = break_at_zero k x best e in
    search_breaks k n x best e ∙ z.0 ∙ sym (ap (λ p. best_of k p xs) z.0 ∙ best_of_zero k x xs z.1)

-- The loop ends within as many rounds as there are buffers, early or not.
pub search_free_list :
    (k : Cache) (n x : ℕ) (xs : List ℕ) (best : Option ℕ)
    → Linked k.next_free k.prev_free x xs k.free_list
    → Out k.free_list xs
    → length xs < n
    → search_free n k x best ≡ best_of k best (x ∷ xs)
search_free_list k zero x xs best l out h = elim h [ ]
search_free_list k (suc n) x [] best (done f g) out h = elim (Bool-cases (consider k x best).1) [
  | inl e ↦ broken k n x [] best e
  | inr e ↦ search_ends k n x best e f
]
search_free_list k (suc n) x (y ∷ ys) best (step f g l) out h =
    elim (Bool-cases (consider k x best).1) [
      | inl e ↦ broken k n x (y ∷ ys) best e
      | inr e ↦
          search_goes_on k n x y best e f (λ q. out.0 (sym q))
          ∙ search_free_list k n y ys (pick k best x) l out.1 (omega arith)
    ]
