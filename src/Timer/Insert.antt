-- ===== src/Timer/Insert.antt =====
-- `add_timer` (kernel/sched.c) on the list of timers.
use mathlib.Core.Path.{ap₂}
use liha_linux.Base.{
  ◌+◌, ◌-◌, ◌<◌, ◌==◌, ==_pos, Bool, Bool-cases, List, Option, [], ap, arith, false, if◌then◌else◌,
  inl, inr, length, ltb, map, none, refl, some, subst, suc, sym, true, update, update_self,
  update_two_first, update_two_other, zero, ◌||◌, ℕ, ◌∙◌, ◌∷◌, ◌≡◌, ◌≢◌, ◌≤◌,
}
use liha_linux.Timer.{
  Timers, time_requests, free_slot, put_first, add_timer, earlier_of, later_of, Slot, exchange,
  sift, added,
}
use liha_linux.Timer.Chain.{Entry, uses, Chain, nil, cons, frame-update}

abbrev pub entry : ℕ → ℕ → ℕ → Entry
entry p j f = record { at = p; delay = j; fn = f }

-- The list with a new timer of slot `p` moved to its place: the times and functions move, the slots
-- stay in order.
unfoldable pub inserted : ℕ → ℕ → ℕ → List Entry → List Entry
inserted p j f [] = entry p j f ∷ []
inserted p j f (e ∷ es) =
    if ltb e.delay j
    then entry p e.delay e.fn ∷ inserted e.at (j - e.delay) f es
    else entry p j f ∷ (e ∷ es)

uses-inserted :
    (r p j f : ℕ) (es : List Entry) → uses r (inserted p j f es) ≡ ((r == p) || uses r es)
unfolding inserted
uses-inserted r p j f [] = refl
uses-inserted r p j f (e ∷ es) = elim (Bool-cases (ltb e.delay j)) [
  | inl later ↦ rw later (ap (λ b. (r == p) || b) (uses-inserted r e.at (j - e.delay) f es))
  | inr here ↦ rw here
]

abbrev Sifted : (ℕ → Slot) → (ℕ → Slot) → ℕ → ℕ → ℕ → List Entry → Type 0
Sifted slot slot' p j f es =
    Chain slot' (some p) (inserted p j f es)
    × ((r : ℕ) → uses r (entry p j f ∷ es) ≡ false → slot' r ≡ slot r)

-- One round of the loop.
module _ (fuel p : ℕ) (slot : ℕ → Slot) where
  sift_end : (slot p).next ≡ none → sift (suc fuel) p slot ≡ slot
  unfolding sift
  sift_end e = rw (e, sift) refl

  sift_stay :
      (q : ℕ)
      → (slot p).next ≡ some q
      → ltb (slot q).jiffies (slot p).jiffies ≡ false
      → sift (suc fuel) p slot ≡ slot
  unfolding sift
  sift_stay q e t = rw (e, t, sift) refl

  sift_go :
      (q : ℕ)
      → (slot p).next ≡ some q
      → ltb (slot q).jiffies (slot p).jiffies ≡ true
      → sift (suc fuel) p slot ≡ sift fuel q (exchange slot p q)
  unfolding sift
  sift_go q e t = rw (e, t, sift) refl

abbrev slot_of : ℕ → ℕ → Option ℕ → Slot
slot_of j f n = record { jiffies = j; fn = some f; next = n }

-- The two slots of an exchange.
module _ (slot : ℕ → Slot) {p q j f k g : ℕ} {n : Option ℕ} (e : slot p ≡ slot_of j f (some q))
    (e' : slot q ≡ slot_of k g n) (ne : p ≢ q) where
  exchange_first : exchange slot p q p ≡ slot_of k g (some q)
  unfolding exchange
  exchange_first =
      update_two_first slot p q (earlier_of (slot p) (slot q)) (later_of (slot p) (slot q)) ne
      ∙ ap₂ earlier_of e e'

  exchange_second : exchange slot p q q ≡ slot_of (j - k) f n
  unfolding exchange
  exchange_second =
      update_self (update slot p (earlier_of (slot p) (slot q))) q (later_of (slot p) (slot q))
      ∙ ap₂ later_of e e'

  exchange_other : (r : ℕ) → r ≢ p → r ≢ q → exchange slot p q r ≡ slot r
  unfolding exchange
  exchange_other r u v =
      update_two_other slot p q (earlier_of (slot p) (slot q)) (later_of (slot p) (slot q)) r u v

exchange-Chain :
    {slot : ℕ → Slot} (p q : ℕ) {n : Option ℕ} {es : List Entry}
    → Chain slot n es
    → uses p es ≡ false
    → uses q es ≡ false
    → Chain (exchange slot p q) n es
unfolding exchange
exchange-Chain {slot} p q c u v =
    frame-update q (later_of (slot p) (slot q)) (frame-update p (earlier_of (slot p) (slot q)) c u)
      v

not_first : (p q : ℕ) (b : Bool) → ((p == q) || b) ≡ false → (p ≢ q) × (b ≡ false)
not_first p q b h = ground arith

sift-Sifted :
    (fuel p j f : ℕ) (slot : ℕ → Slot) {n : Option ℕ} {es : List Entry}
    → slot p ≡ slot_of j f n
    → uses p es ≡ false
    → Chain slot n es
    → length es < fuel
    → Sifted slot (sift fuel p slot) p j f es
unfolding inserted
sift-Sifted zero p j f slot e out c h = absurd (omega arith)
sift-Sifted (suc fuel) p j f slot e out nil h =
    rw (sift_end fuel p slot (ap (λ s. s.next) e)) (cons e refl nil, λ r u. refl)
sift-Sifted (suc fuel) p j f slot e out (cons {p = q} {j = k} {f = g} {n = n} {es = rest} e' out' c)
      h =
    elim (Bool-cases (ltb k j)) [
      | inr here ↦
          rw (sift_stay fuel p slot q (ap (λ s. s.next) e) (rw (e, e') here), here)
            (cons e out (cons e' out' c), λ r u. refl)
      | inl later ↦
          let (ne, p_out) = not_first p q (uses p rest) out in
          let (chain, same) =
            sift-Sifted fuel q (j - k) f (exchange slot p q) (exchange_second slot e e' ne) out'
              (exchange-Chain p q c p_out out')
              (let enough : length rest < fuel = omega arith in enough) in
          rw (sift_go fuel p slot q (ap (λ s. s.next) e) (rw (e, e') later), later)
            (
              cons (same p out ∙ exchange_first slot e e' ne)
                  (uses-inserted p q (j - k) f rest ∙ out) chain,
              λ r u.
                  let (rp, v) = not_first r p (uses r (entry q k g ∷ rest)) u in
                  same r v ∙ exchange_other slot e e' ne r rp (not_first r q (uses r rest) v).0,
            )
    ]

unused :
    (slot : ℕ → Slot) (p : ℕ) {n : Option ℕ} {es : List Entry}
    → Chain slot n es
    → (slot p).fn ≡ none
    → uses p es ≡ false
unused slot p nil free = refl
unused slot p (cons {p = q} {es} e out c) free = elim (Bool-cases (p == q)) [
  | inr other ↦ rw other (unused slot p c free)
  | inl this ↦
      let same : p ≡ q = ground arith in
      let clash : none ≡ some _ = sym free ∙ ap (λ r. (slot r).fn) same ∙ ap (λ s. s.fn) e in
      cc clash
]

free_slot_step :
    (slot : ℕ → Slot) (n p : ℕ) {q : ℕ}
    → (free_slot slot n (p + 1) ≡ some q → (slot q).fn ≡ none)
    → (o : Option ℕ) → (slot p).fn ≡ o
    → (elim o as (λ _. Option ℕ) [ none ↦ some p | some _ ↦ free_slot slot n (p + 1) ]) ≡ some q
    → (slot q).fn ≡ none
free_slot_step slot n p {q} rest none at f =
    let same : p ≡ q = cc in subst (λ r. (slot r).fn ≡ none) same at
free_slot_step slot n p rest (some _) at f = rest f

free_slot_lem :
    (slot : ℕ → Slot) (n p : ℕ) {q : ℕ} → free_slot slot n p ≡ some q → (slot q).fn ≡ none
unfolding free_slot
free_slot_lem slot zero p e = cc
free_slot_lem slot (suc n) p e =
    free_slot_step slot n p (free_slot_lem slot n (p + 1)) (slot p).fn refl e

-- A timer of `j` ticks, with a free slot `p` for it, is put into the list of timers: the list holds
-- the old timers and the new one, each with the slots linked in order, as `inserted` says.
pub add_timer-Chain :
    (j f p : ℕ) (t : Timers) {es : List Entry}
    → Chain t.slot t.next_timer es
    → length es < time_requests
    → 0 < j
    → free_slot t.slot time_requests 0 ≡ some p
    → (u : Timers) × (add_timer j (some f) t ≡ added u)
      × Chain u.slot u.next_timer (inserted p j f es)
unfolding add_timer put_first
add_timer-Chain j f p t {es} c few later found =
    let out = unused t.slot p c (free_slot_lem t.slot time_requests 0 found) in
    let first = slot_of j f t.next_timer in
    (
      _,
      rw (==_pos j later, found) refl,
      (sift-Sifted time_requests p j f (update t.slot p first) (update_self t.slot p first) out
          (frame-update p first c out) few).0,
    )

-- When the timers run, counted in ticks from now; `b` is the time of the one before.
unfoldable pub expiries : ℕ → List Entry → List (ℕ × ℕ)
expiries b [] = []
expiries b (e ∷ es) = (b + e.delay, e.fn) ∷ expiries (b + e.delay) es

-- What `add_timer` makes of these times: the timers that run before the new one keep theirs, and
-- those after it run later by the time between the new one and the one before it.
unfoldable pub delayed : ℕ → ℕ → ℕ → List (ℕ × ℕ) → List (ℕ × ℕ)
delayed b j f [] = (j, f) ∷ []
delayed b j f ((t, g) ∷ ts) =
    if ltb t j
    then (t, g) ∷ delayed t j f ts
    else (j, f) ∷ map (λ (u, h). (u + (j - b), h)) ((t, g) ∷ ts)

expiries_shift :
    (b d : ℕ) (es : List Entry) → expiries (b + d) es ≡ map (λ (u, h). (u + d, h)) (expiries b es)
unfolding expiries
expiries_shift b d [] = refl
expiries_shift b d (e ∷ es) =
    let swap : b + d + e.delay ≡ b + e.delay + d = omega arith in
    ap (λ x. (x, e.fn) ∷ expiries x es) swap
    ∙ ap (λ r. (b + e.delay + d, e.fn) ∷ r) (expiries_shift (b + e.delay) d es)

-- The timers after a new one are delayed by it: `add_timer` does not take the new timer's time off
-- the next one's.
pub expiries-inserted :
    (p b j f : ℕ) (es : List Entry)
    → b ≤ j
    → expiries b (inserted p (j - b) f es) ≡ delayed b j f (expiries b es)
unfolding expiries delayed inserted
expiries-inserted p b j f [] h =
    let whole : b + (j - b) ≡ j = omega arith in ap (λ x. (x, f) ∷ []) whole
expiries-inserted p b j f (e ∷ es) h = elim (Bool-cases (ltb e.delay (j - b))) [
  | inl later ↦
      let after : ltb (b + e.delay) j ≡ true = ground arith in
      let rest : j - b - e.delay ≡ j - (b + e.delay) = omega arith in
      let inside : b + e.delay ≤ j = ground arith in
      rw (later, after, rest)
        (ap (λ r. (b + e.delay, e.fn) ∷ r) (expiries-inserted e.at (b + e.delay) j f es inside))
  | inr here ↦
      let before : ltb (b + e.delay) j ≡ false = ground arith in
      let whole : b + (j - b) ≡ j = omega arith in
      rw (here, before) (ap₂ (λ x r. (x, f) ∷ r) whole (expiries_shift b (j - b) (e ∷ es)))
]

-- A timer of `j > 0` ticks, with a free slot and fewer than 64 timers in the list, is added: the
-- slots form a list again, and its timers run at the times that `delayed` gives: those before the
-- new timer at their old times, the new one after `j` ticks, and those behind it later than they
-- were to run, by the time from the timer before the new one to the new one.
pub add_timer_lem :
    (j f p : ℕ) (t : Timers) {es : List Entry}
    → Chain t.slot t.next_timer es
    → length es < time_requests
    → 0 < j
    → free_slot t.slot time_requests 0 ≡ some p
    → (u : Timers) × (es' : List Entry) × (add_timer j (some f) t ≡ added u)
      × Chain u.slot u.next_timer es'
      × (expiries 0 es' ≡ delayed 0 j f (expiries 0 es))
add_timer_lem j f p t {es} c few later found =
    let (u, e, chain) = add_timer-Chain j f p t c few later found in
    let whole : j - 0 ≡ j = omega arith in
    (
      u,
      inserted p j f es,
      e,
      chain,
      ap (λ d. expiries 0 (inserted p d f es)) (sym whole)
          ∙ expiries-inserted p 0 j f es (omega arith),
    )
