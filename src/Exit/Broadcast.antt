-- ===== src/Exit/Broadcast.antt =====
-- `kill(-1, sig)` (kernel/exit.c): which tasks get the signal.
use mathlib.Core.Path.{ap₂, fun_ext}
use liha_linux.Base.{
  ◌&&◌, ◌<◌, ◌==◌, Bool, Bool-cases, Option, ap, arith, eq_ℤ, false, if◌then◌else◌, inl, inr, leb,
  ltb, negsuc, pos, refl, subst, suc, sym, true, update, update_ne, update_self, zero, ℕ, ℤ, ◌∙◌,
  ◌≡◌, ◌≢◌, ◌≤◌, ◌⊎◌,
}
use liha_linux.Task.{Task, TaskTable}
use liha_linux.Exit.{kill_each, kill_all, sys_kill}
use liha_linux.Exit.Slots.{sent, error, fails, fails-sent, slot_after, signalled, kill_each-slot}

abbrev pub in_group_one : Task → Bool
in_group_one p = eq_ℤ p.pgrp (pos 1)

-- The table after `kill(-1, sig)`, over the slots 1 to `n`: no signal was sent, or the task of the
-- highest slot that can be signalled got it and below that slot only the tasks of the group 1.
abbrev pub Broadcast : Task → ℤ → ℕ → TaskTable → TaskTable → Type 0
Broadcast me sig n t t' =
    (((j : ℕ) → t' j ≡ t j) × ((j : ℕ) → (1 ≤ j) × (j ≤ n) → fails me sig false (t j) ≡ true))
    ⊎ ((i : ℕ) × (suc i ≤ n)
        × (fails me sig false (t (suc i)) ≡ false)
        × ((j : ℕ) → suc i < j → j ≤ n → fails me sig false (t j) ≡ true)
        × ((j : ℕ)
            → t' j ≡ (
                if j == suc i
                then sent me sig false (t (suc i))
                else signalled me sig false in_group_one i t j)))

module _ (me : Task) (sig : ℤ) (i : ℕ) (r : ℤ) (t : TaskTable) where
  kill_all_first :
      eq_ℤ (error me sig false (t (suc i))) (pos 0) ≡ true
      → kill_all me sig (suc i) r t
        ≡ kill_each me sig false in_group_one i r (update t (suc i) (sent me sig false (t (suc i))))
  unfolding kill_all
  kill_all_first first = rw (first, kill_all) refl

  kill_all_next :
      eq_ℤ (error me sig false (t (suc i))) (pos 0) ≡ false
      → kill_all me sig (suc i) r t
        ≡ kill_all me sig i
            (error me sig false (t (suc i)))
            (update t (suc i) (sent me sig false (t (suc i))))
  unfolding kill_all
  kill_all_next failed = rw (failed, kill_all) refl

update_same : (t : TaskTable) (i : ℕ) (o : Option Task) → o ≡ t i → update t i o ≡ t
update_same t i o e = fun_ext (λ j. elim (Bool-cases (j == i)) [
  | inl same ↦
      let at : j ≡ i = ground arith in ap (update t i o) at ∙ update_self t i o ∙ e ∙ sym (ap t at)
  | inr other ↦ let ne : j ≢ i = ground arith in update_ne t i j o ne
])

fails_to_top :
    (me : Task) (sig : ℤ) (i : ℕ) (t : TaskTable) (j : ℕ)
    → fails me sig false (t (suc i)) ≡ true
    → j ≤ suc i
    → (j ≤ i → fails me sig false (t j) ≡ true)
    → fails me sig false (t j) ≡ true
fails_to_top me sig i t j bad top below = elim (Bool-cases (j == suc i)) [
  | inl last ↦
      let e : j ≡ suc i = ground arith in subst (λ x. fails me sig false (t x) ≡ true) (sym e) bad
  | inr other ↦ below (let low : j ≤ i = ground arith in low)
]

kill_all_lem :
    (me : Task) (sig : ℤ) (n : ℕ) (r : ℤ) (t : TaskTable)
    → Broadcast me sig n t (kill_all me sig n r t).1
unfolding kill_all
kill_all_lem me sig zero r t = inl (λ j. refl, λ j inside. absurd (omega (arith, inside)))
kill_all_lem me sig (suc i) r t =
    elim (Bool-cases (eq_ℤ (error me sig false (t (suc i))) (pos 0))) [
      | inl first ↦
          let p = sent me sig false (t (suc i)) in
          inr (
            i,
            let top : suc i ≤ suc i = omega arith in top,
            rw first refl,
            λ j above inside. absurd (omega arith),
            λ j.
                ap (λ out. out.1 j) (kill_all_first me sig i r t first)
                ∙ kill_each-slot me sig false in_group_one i r (update t (suc i) p) j
                ∙ elim (Bool-cases (j == suc i)) [
                  | inl same ↦
                      let e : j ≡ suc i = ground arith in
                      let before : (ltb 0 j && leb j i) ≡ false = ground arith in
                      ap₂ (slot_after me sig false in_group_one) before
                        (ap (update t (suc i) p) e ∙ update_self t (suc i) p)
                      ∙ rw same refl
                  | inr other ↦
                      let ne : j ≢ suc i = ground arith in
                      ap (slot_after me sig false in_group_one (ltb 0 j && leb j i))
                        (update_ne t (suc i) j p ne)
                      ∙ rw other refl
                ],
          )
      | inr failed ↦
          let bad : fails me sig false (t (suc i)) ≡ true = rw failed refl in
          let same = update_same t (suc i) _ (fails-sent me sig false (t (suc i)) bad) in
          let e =
            kill_all_next me sig i r t failed
            ∙ ap (kill_all me sig i (error me sig false (t (suc i)))) same in
          elim (kill_all_lem me sig i (error me sig false (t (suc i))) t) [
            | inl (none_sent, all) ↦ inl (
              λ j. ap (λ out. out.1 j) e ∙ none_sent j,
              λ j inside. fails_to_top me sig i t j bad inside.1 (λ low. all j (inside.0, low)),
            )
            | inr (k, low, ok, above, slots) ↦ inr (
              k,
              omega arith,
              ok,
              λ j up inside. fails_to_top me sig i t j bad inside (λ low. above j up low),
              λ j. ap (λ out. out.1 j) e ∙ slots j,
            )
          ]
    ]

-- `kill(-1, sig)` does not send the signal to every task: going down from the last slot, it sends it
-- to the first task that can be signalled, and below that one only to the tasks of process group 1.
pub sys_kill-Broadcast :
    (me : Task) (sig : ℤ) (t : TaskTable) → Broadcast me sig 63 t (sys_kill me (negsuc 0) sig t).1
unfolding sys_kill
sys_kill-Broadcast me sig t = kill_all_lem me sig 63 (pos 0) t
