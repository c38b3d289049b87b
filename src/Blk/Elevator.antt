-- ===== src/Blk/Elevator.antt =====
-- The elevator (`add_request` of kernel/blk_drv/ll_rw_blk.c): the requests of a device are served in
-- one sweep upwards and one more from the start.
use liha_linux.Base.{
  ◌&&◌, ◌+◌, ◌==◌, Bool, Bool-cases, List, [], ap, arith, false, if◌then◌else◌, inl, inr, not, refl,
  subst, sym, true, update_ne, update_self, ◌||◌, ℕ, ◌∙◌, ◌∷◌, ◌≡◌, ◌≢◌, ◌⊎◌,
}
use liha_linux.Blk.Order.{in_order_trans, in_order_asym}
use liha_linux.Blk.{Blk, Request, add_request, insert_behind, enqueue, in_order}

module _ (order : ℕ → ℕ → Bool)
    (trans : (a b c : ℕ) → order a b ≡ true → order b c ≡ true → order a c ≡ true)
    (asym : (a b : ℕ) → order a b ≡ true → order b a ≡ false) where
  -- The list behind `a` goes up from it.
  pub data Rising : ℕ → List ℕ → Type 0 where
    last : {a : ℕ} → Rising a []
    up : {a b : ℕ} {xs : List ℕ} → order a b ≡ true → Rising b xs → Rising a (b ∷ xs)

  -- The list behind `a` goes up from it and turns back at most once.
  pub data Sweep : ℕ → List ℕ → Type 0 where
    one_way : {a : ℕ} → Sweep a []
    onwards : {a b : ℕ} {xs : List ℕ} → order a b ≡ true → Sweep b xs → Sweep a (b ∷ xs)
    turn : {a b : ℕ} {xs : List ℕ} → order b a ≡ true → Rising b xs → Sweep a (b ∷ xs)

  -- A request is before or behind each one of the list: no two are for the same sector.
  pub data Apart (req : ℕ) : List ℕ → Type 0 where
    nothing : Apart req []
    also :
        {a : ℕ} {xs : List ℕ}
        → (order req a ≡ true) ⊎ (order a req ≡ true)
        → Apart req xs
        → Apart req (a ∷ xs)

  Rising-insert :
      (req a : ℕ) (xs : List ℕ)
      → order a req ≡ true
      → Rising a xs
      → Apart req xs
      → Rising a (insert_behind order req a xs)
  unfolding insert_behind
  Rising-insert req a [] h last apart = up h last
  Rising-insert req a (b ∷ xs) h (up ab rest) (also (inl req_b) apart) =
      rw (h, req_b) (up h (up req_b rest))
  Rising-insert req a (b ∷ xs) h (up ab rest) (also (inr b_req) apart) =
      let no_req_b = asym b req b_req in
      rw (h, no_req_b) (up ab (Rising-insert req b xs b_req rest apart))

  Sweep-insert :
      (req a : ℕ) (xs : List ℕ)
      → Sweep a xs
      → Apart req (a ∷ xs)
      → Sweep a (insert_behind order req a xs)
  unfolding insert_behind
  Sweep-insert req a [] one_way (also (inl req_a) nothing) = turn req_a last
  Sweep-insert req a [] one_way (also (inr a_req) nothing) = onwards a_req one_way
  Sweep-insert req a (b ∷ xs) (onwards ab rest) (also (inl req_a) apart) =
      let no_a_req = asym req a req_a in
      rw (no_a_req, ab) (onwards ab (Sweep-insert req b xs rest apart))
  Sweep-insert req a (b ∷ xs) (onwards ab rest) (also (inr a_req) (also (inl req_b) apart)) =
      rw (a_req, req_b) (onwards a_req (onwards req_b rest))
  Sweep-insert req a (b ∷ xs) (onwards ab rest) (also (inr a_req) (also (inr b_req) apart)) =
      let no_req_b = asym b req b_req in
      rw (a_req, no_req_b) (onwards ab (Sweep-insert req b xs rest (also (inr b_req) apart)))
  Sweep-insert req a (b ∷ xs) (turn ba rest) (also _ (also (inl req_b) apart)) =
      let no_a_b = asym b a ba in
      let here : ((order a req || not (order a b)) && order req b) ≡ true = ground arith in
      rw here (turn (trans req b a req_b ba) (up req_b rest))
  Sweep-insert req a (b ∷ xs) (turn ba rest) (also _ (also (inr b_req) apart)) =
      let no_req_b = asym b req b_req in
      let further : ((order a req || not (order a b)) && order req b) ≡ false = ground arith in
      rw further (turn ba (Rising-insert req b xs b_req rest apart))

-- How often a request is in a list.
abbrev pub count : ℕ → List ℕ → ℕ
count x [] = 0
count x (y ∷ ys) = (if x == y then 1 else 0) + count x ys

count-insert :
    (order : ℕ → ℕ → Bool) (x req a : ℕ) (xs : List ℕ)
    → count x (insert_behind order req a xs) ≡ count x (req ∷ xs)
unfolding insert_behind
count-insert order x req a [] = refl
count-insert order x req a (b ∷ xs) =
    elim (Bool-cases ((order a req || not (order a b)) && order req b)) [
      | inl here ↦ rw here refl
      | inr further ↦
          let ih = count-insert order x req b xs in
          rw further (ap (λ n. (if x == b then 1 else 0) + n) ih ∙ omega arith)
    ]

-- The order of the requests in the table, by their indices.
abbrev pub order_of : (ℕ → Request) → ℕ → ℕ → Bool
order_of request a b = in_order (request a) (request b)

abbrev trans_of :
    (request : ℕ → Request) (a b c : ℕ)
    → order_of request a b ≡ true
    → order_of request b c ≡ true
    → order_of request a c ≡ true
trans_of request a b c = in_order_trans (request a) (request b) (request c)

abbrev asym_of :
    (request : ℕ → Request) (a b : ℕ) → order_of request a b ≡ true → order_of request b a ≡ false
asym_of request a b = in_order_asym (request a) (request b)

-- A device's queue goes up and turns back at most once.
abbrev pub IsSwept : (ℕ → Request) → List ℕ → Type 0
IsSwept request [] = Unit
IsSwept request (a ∷ xs) = Sweep (order_of request) (trans_of request) (asym_of request) a xs

abbrev pub AllApart : (ℕ → Request) → ℕ → List ℕ → Type 0
AllApart request = Apart (order_of request) (trans_of request) (asym_of request)

enqueue-IsSwept :
    (request : ℕ → Request) (req : ℕ) (xs : List ℕ)
    → IsSwept request xs
    → AllApart request req xs
    → IsSwept request (enqueue (order_of request) req xs).0
unfolding enqueue
enqueue-IsSwept request req [] swept apart = one_way
enqueue-IsSwept request req (a ∷ xs) swept apart =
    Sweep-insert (order_of request) (trans_of request) (asym_of request) req a xs swept apart

count-enqueue :
    (order : ℕ → ℕ → Bool) (x req : ℕ) (xs : List ℕ)
    → count x (enqueue order req xs).0 ≡ count x (req ∷ xs)
unfolding enqueue
count-enqueue order x req [] = refl
count-enqueue order x req (a ∷ xs) =
    ap (λ n. (if x == a then 1 else 0) + n) (count-insert order x req a xs) ∙ omega arith

-- When the queue of a device goes up and turns back at most once, and the new request is ordered
-- before or behind each one in it, the queue after `add_request` is of that form again, it holds the
-- old requests and the new one, and the queues of other devices are as they were.
pub add_request-IsSwept :
    (major req : ℕ) (s : Blk)
    → IsSwept s.request (s.queue major)
    → AllApart s.request req (s.queue major)
    → IsSwept s.request ((add_request major req s).0.queue major)
      × ((x : ℕ)
          → count x ((add_request major req s).0.queue major) ≡ count x (req ∷ s.queue major))
      × ((other : ℕ) → other ≢ major → (add_request major req s).0.queue other ≡ s.queue other)
unfolding add_request
add_request-IsSwept major req s swept apart =
    let new = (enqueue (order_of s.request) req (s.queue major)).0 in
    let there = update_self s.queue major new in
    (
      subst (IsSwept s.request) (sym there)
          (enqueue-IsSwept s.request req (s.queue major) swept apart),
      λ x. ap (count x) there ∙ count-enqueue (order_of s.request) x req (s.queue major),
      λ other ne. update_ne s.queue major other new ne,
    )
