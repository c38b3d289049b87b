-- ===== src/Signal/Frame.antt =====
-- The frame that `do_signal` (kernel/signal.c) builds.
use Prim.Native.Nat.{bit_or}
use liha_linux.Base.{
  ◌+◌, ◌-◌, ◌<◌, ◌==◌, Bool-cases, List, [], ap, arith, false, get_or, inl, inr, length, refl, suc,
  update, update_ne, update_self, zero, ℕ, ◌∙◌, ◌∷◌, ◌≡◌, ◌≢◌, ◌≤◌, ◌⊎◌,
}
use liha_linux.Task.{Task, Sigaction}
use liha_linux.Signal.{forget_once, Regs, put_longs, frame, longs, no_mask, do_signal, handled}

put_longs-outside :
    (xs : List ℕ) (stack : ℕ → ℕ) (esp j : ℕ)
    → (j < esp) ⊎ (esp + length xs ≤ j)
    → put_longs stack esp xs j ≡ stack j
unfolding put_longs
put_longs-outside [] stack esp j h = refl
put_longs-outside (x ∷ xs) stack esp j (inl low) =
    put_longs-outside xs (update stack esp x) (esp + 1) j (inl (omega arith))
    ∙ update_ne stack esp j x (let ne : j ≢ esp = omega arith in ne)
put_longs-outside (x ∷ xs) stack esp j (inr high) =
    put_longs-outside xs (update stack esp x) (esp + 1) j (inr (omega arith))
    ∙ update_ne stack esp j x (let ne : j ≢ esp = omega arith in ne)

put_longs-inside :
    (xs : List ℕ) (stack : ℕ → ℕ) (esp k : ℕ)
    → k < length xs
    → put_longs stack esp xs (esp + k) ≡ get_or xs k 0
unfolding put_longs
put_longs-inside [] stack esp k h = absurd (omega arith)
put_longs-inside (x ∷ xs) stack esp zero h =
    put_longs-outside xs (update stack esp x) (esp + 1) (esp + 0) (inl (omega arith))
    ∙ ap (update stack esp x) (let e : esp + 0 ≡ esp = omega arith in e)
    ∙ update_self stack esp x
put_longs-inside (x ∷ xs) stack esp (suc k) h =
    ap (put_longs (update stack esp x) (esp + 1) xs)
      (let e : esp + suc k ≡ esp + 1 + k = omega arith in e)
    ∙ put_longs-inside xs (update stack esp x) (esp + 1) k (omega arith)

-- `longs` is the length of the frame.
length-frame :
    (signr : ℕ) (sa : Sigaction) (me : Task) (r : Regs) → length (frame signr sa me r) ≡ longs sa
unfolding frame
length-frame signr sa me r = elim (Bool-cases (no_mask sa)) [
  | inl bare ↦ rw bare refl
  | inr masks ↦ rw masks refl
]

-- The new stack: the frame stands in the longs below the old `esp`, and nothing else is written.
abbrev pub HasFrame : (ℕ → ℕ) → (ℕ → ℕ) → ℕ → ℕ → List ℕ → Type 0
HasFrame stack stack' esp esp' xs =
    (esp' + length xs ≡ esp)
    × ((k : ℕ) → k < length xs → stack' (esp' + k) ≡ get_or xs k 0)
    × ((j : ℕ) → (j < esp') ⊎ (esp ≤ j) → stack' j ≡ stack j)

put_longs-HasFrame :
    (xs : List ℕ) (stack : ℕ → ℕ) (esp n : ℕ)
    → length xs ≡ n
    → n ≤ esp
    → HasFrame stack (put_longs stack (esp - n) xs) esp (esp - n) xs
put_longs-HasFrame xs stack esp n e room = (
  omega arith,
  λ k h. put_longs-inside xs stack (esp - n) k h,
  λ j h.
      put_longs-outside xs stack (esp - n) j
        (elim h [ inl low ↦ inl low | inr high ↦ inr (omega arith) ]),
)

-- When the action of a signal is a handler and the stack has room for 8 longs, `do_signal` returns
-- to the handler, with the longs of the frame directly below the old `esp` and the stack otherwise
-- as it was: first the restorer, then the signal, the old mask unless SA_NOMASK is set, the saved
-- registers, and the old `eip` last.
pub do_signal-HasFrame :
    (signr : ℕ) (me : Task) (r : Regs) (stack : ℕ → ℕ)
    → 1 < (me.sigaction (signr - 1)).sa_handler
    → 8 ≤ r.esp
    → (me' : Task) × (r' : Regs) × (stack' : ℕ → ℕ) × (do_signal signr me r stack
        ≡ handled me' r' stack')
      × (r'.eip ≡ (me.sigaction (signr - 1)).sa_handler)
      × HasFrame stack stack' r.esp r'.esp (frame signr (me.sigaction (signr - 1)) me r)
unfolding do_signal
do_signal-HasFrame signr me r stack h room =
    let sa = me.sigaction (signr - 1) in
    let not_ignored : (sa.sa_handler == 1) ≡ false = ground arith in
    let not_default : (sa.sa_handler == 0) ≡ false = ground arith in
    (
      record (forget_once signr me) { blocked = bit_or me.blocked sa.sa_mask },
      record r { eip = sa.sa_handler; esp = r.esp - longs sa },
      put_longs stack (r.esp - longs sa) (frame signr sa me r),
      rw (not_ignored, not_default) refl,
      refl,
      put_longs-HasFrame (frame signr sa me r) stack r.esp (longs sa) (length-frame signr sa me r)
          (room_for sa room),
    )
  where
    room_for : (sa : Sigaction) → 8 ≤ r.esp → longs sa ≤ r.esp
    room_for sa h = ground arith
