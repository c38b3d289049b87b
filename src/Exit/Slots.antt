-- ===== src/Exit/Slots.antt =====
-- `send_sig` and the loops of `sys_kill` (kernel/exit.c): what becomes of each slot of the table.
use mathlib.Core.Path.{ap₂}
use liha_linux.Base.{
  ◌&&◌, ◌==◌, Bool, Bool-cases, Option, ap, arith, eq_ℤ, false, if◌then◌else◌, inl, inr, leb, ltb,
  none, not, pos, refl, some, subst, suc, sym, true, update, update_ne, update_self, zero, ℕ, ℤ,
  ◌∙◌, ◌≡◌, ◌≢◌, ◌≤◌, ◌⊎◌,
}
use liha_linux.Task.{Task, TaskTable}
use liha_linux.Exit.{send_sig, kill_one, kill_each, chosen_by}

-- `send_sig` to the task in a slot: what becomes of the slot, and the result.
module _ (me : Task) (sig : ℤ) (priv : Bool) where
  abbrev pub sent : Option Task → Option Task
  sent o = (send_sig me sig o priv).0

  abbrev pub error : Option Task → ℤ
  error o = (send_sig me sig o priv).1

  abbrev pub fails : Option Task → Bool
  fails o = not (eq_ℤ (error o) (pos 0))

  -- A signal that fails changes nothing.
  pub fails-sent : (o : Option Task) → fails o ≡ true → sent o ≡ o
  unfolding send_sig
  fails-sent none h = refl
  fails-sent (some p) h = ground arith

  module _ (test : Task → Bool) where
    kill_one-task :
        (o : Option Task) (r : ℤ)
        → (kill_one me sig priv test o r).0 ≡ (if chosen_by test o then sent o else o)
    unfolding kill_one
    kill_one-task o r = elim (Bool-cases (chosen_by test o)) [
      | inl picked ↦ rw picked refl
      | inr left ↦ rw left refl
    ]

    abbrev pub slot_after : Bool → Option Task → Option Task
    slot_after inside o = if inside && chosen_by test o then sent o else o

    -- Slot `j` after the loop over the slots 1 to `n`.
    abbrev pub signalled : ℕ → TaskTable → ℕ → Option Task
    signalled n t j = slot_after (ltb 0 j && leb j n) (t j)

    pub kill_each-slot :
        (n : ℕ) (r : ℤ) (t : TaskTable) (j : ℕ)
        → (kill_each me sig priv test n r t).1 j ≡ signalled n t j
    unfolding kill_each
    kill_each-slot zero r t j = let out : (ltb 0 j && leb j 0) ≡ false = ground arith in rw out refl
    kill_each-slot (suc i) r t j =
        let p = (kill_one me sig priv test (t (suc i)) r).0 in
        let r' = (kill_one me sig priv test (t (suc i)) r).1 in
        kill_each-slot i r' (update t (suc i) p) j ∙ elim (Bool-cases (j == suc i)) [
          | inl same ↦
              let e : j ≡ suc i = ground arith in
              let before : (ltb 0 j && leb j i) ≡ false = ground arith in
              let inside : (ltb 0 j && leb j (suc i)) ≡ true = ground arith in
              ap₂ slot_after before (ap (update t (suc i) p) e ∙ update_self t (suc i) p)
              ∙ kill_one-task (t (suc i)) r
              ∙ sym (ap₂ slot_after inside (ap t e))
          | inr other ↦
              let ne : j ≢ suc i = ground arith in
              let same : (ltb 0 j && leb j i) ≡ (ltb 0 j && leb j (suc i)) = ground arith in
              ap₂ slot_after same (update_ne t (suc i) j p ne)
        ]

    -- A chosen task among 1 to `n` to which the signal cannot be sent, with the error `e`.
    pub record Failure (n : ℕ) (t : TaskTable) (e : ℤ) : Type 0 where
      pub slot : ℕ
      pub in_range : (1 ≤ slot) × (slot ≤ n)
      pub chosen : chosen_by test (t slot) ≡ true
      pub failed : fails (t slot) ≡ true
      pub is_error : e ≡ error (t slot)

    abbrev pub AllSent : ℕ → TaskTable → Type 0
    AllSent n t = (j : ℕ) → (1 ≤ j) × (j ≤ n) → chosen_by test (t j) ≡ true → fails (t j) ≡ false

    kill_one-Result :
        (o : Option Task) (r : ℤ)
        → (((kill_one me sig priv test o r).1 ≡ r) × (chosen_by test o ≡ true → fails o ≡ false))
          ⊎ ((chosen_by test o ≡ true)
              × (fails o ≡ true)
              × ((kill_one me sig priv test o r).1 ≡ error o))
    unfolding kill_one
    kill_one-Result o r = elim (Bool-cases (chosen_by test o)) [
      | inr left ↦ inl (rw left refl, λ h. cc)
      | inl picked ↦ elim (Bool-cases (eq_ℤ (error o) (pos 0))) [
        | inl fine ↦ inl (rw (picked, fine) refl, λ _. rw fine refl)
        | inr bad ↦ inr (picked, rw bad refl, rw (picked, bad) refl)
      ]
    ]

    abbrev pub Result : ℕ → TaskTable → ℤ → ℤ → Type 0
    Result n t r out = ((out ≡ r) × AllSent n t) ⊎ Failure n t out

    extend :
        (i : ℕ) (p : Option Task) (t : TaskTable)
        → (chosen_by test (t (suc i)) ≡ true → fails (t (suc i)) ≡ false)
        → ((j : ℕ) → (j ≤ i) × (1 ≤ j) → update t (suc i) p j ≡ t j)
        → AllSent i (update t (suc i) p)
        → AllSent (suc i) t
    extend i p t fine same all j inside picked = elim (Bool-cases (j == suc i)) [
      | inl last ↦
          let e : j ≡ suc i = ground arith in
          subst (λ x. fails (t x) ≡ false) (sym e)
            (fine (subst (λ x. chosen_by test (t x) ≡ true) e picked))
      | inr other ↦
          let low : j ≤ i = ground (arith, inside) in
          let here = same j (low, inside.0) in
          subst (λ o. fails o ≡ false) here
            (all j (inside.0, low) (subst (λ o. chosen_by test o ≡ true) (sym here) picked))
    ]

    pub kill_each-Result :
        (n : ℕ) (r : ℤ) (t : TaskTable) → Result n t r (kill_each me sig priv test n r t).0
    unfolding kill_each
    kill_each-Result zero r t = inl (refl, λ j inside. absurd (omega (arith, inside)))
    kill_each-Result (suc i) r t =
        let p = (kill_one me sig priv test (t (suc i)) r).0 in
        let r' = (kill_one me sig priv test (t (suc i)) r).1 in
        let same : (j : ℕ) → j ≤ i → update t (suc i) p j ≡ t j =
          λ j h. update_ne t (suc i) j p (let ne : j ≢ suc i = ground arith in ne) in
        elim (kill_each-Result i r' (update t (suc i) p)) [
          | inl (e, all) ↦ elim (kill_one-Result (t (suc i)) r) [
            | inl (kept, fine) ↦ inl (e ∙ kept, extend i p t fine (λ j h. same j h.0) all)
            | inr (picked, bad, err) ↦ inr (record {
              slot = suc i;
              in_range = omega arith;
              chosen = picked;
              failed = bad;
              is_error = e ∙ err;
            })
          ]
          | inr f ↦ inr (record {
            slot = f.slot;
            in_range = omega (arith, f.in_range);
            chosen = subst (λ o. chosen_by test o ≡ true) (same f.slot f.in_range.1) f.chosen;
            failed = subst (λ o. fails o ≡ true) (same f.slot f.in_range.1) f.failed;
            is_error = f.is_error ∙ ap error (same f.slot f.in_range.1);
          })
        ]
