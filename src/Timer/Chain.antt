-- ===== src/Timer/Chain.antt =====
-- The linked list of the timers (kernel/sched.c) as a list of delays and functions.
use liha_linux.Base.{
  ◌==◌, Bool, List, Option, [], arith, false, none, some, subst, true, update, update_ne, ◌||◌, ℕ,
  ◌∙◌, ◌∷◌, ◌≡◌,
}
use liha_linux.Timer.{Slot}

-- A timer in the list: its slot, its delay after the one before, its function.
pub record Entry : Type 0 where
  pub at : ℕ
  pub delay : ℕ
  pub fn : ℕ

abbrev pub uses : ℕ → List Entry → Bool
uses p [] = false
uses p (e ∷ es) = (p == e.at) || uses p es

-- From `head` the links lead through the entries, each slot once.
pub data Chain (slot : ℕ → Slot) : Option ℕ → List Entry → Type 0 where
  nil : Chain slot none []
  cons :
      {p j f : ℕ} {n : Option ℕ} {es : List Entry}
      → slot p ≡ record { jiffies = j; fn = some f; next = n }
      → uses p es ≡ false
      → Chain slot n es
      → Chain slot (some p) (record { at = p; delay = j; fn = f } ∷ es)

-- A change of slots that the list does not use leaves it alone.
pub frame :
    {slot slot' : ℕ → Slot} {n : Option ℕ} {es : List Entry}
    → Chain slot n es
    → ((p : ℕ) → uses p es ≡ true → slot' p ≡ slot p)
    → Chain slot' n es
frame nil same = nil
frame (cons {p} e out c) same =
    cons (same p (ground arith) ∙ e) out (frame c (λ q u. same q (ground arith)))

pub frame-update :
    {slot : ℕ → Slot} {n : Option ℕ} {es : List Entry} (p : ℕ) (s : Slot)
    → Chain slot n es
    → uses p es ≡ false
    → Chain (update slot p s) n es
frame-update {slot} {es} p s c out = frame c (λ q u.
    update_ne slot p q s
      λ same. let used : uses p es ≡ true = subst (λ x. uses x es ≡ true) same u in cc used)
