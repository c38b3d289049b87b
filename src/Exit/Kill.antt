-- ===== src/Exit/Kill.antt =====
-- `sys_kill` with a positive pid (kernel/exit.c): which tasks get the signal, and the result.
use mathlib.Core.Path.{ap₂}
use liha_linux.Base.{
  ◌&&◌, Bool, Bool-cases, Option, ap, arith, eq_ℤ, false, if◌then◌else◌, inl, inr, leb, ltb, pos,
  refl, some, suc, true, ℕ, ℤ, ◌∙◌, ◌≡◌, ◌≤◌,
}
use liha_linux.Task.{Task, TaskTable}
use liha_linux.Exit.{einval, eperm, bad_sig, raise, sig_bit, may_signal, send_sig, sys_kill}
use liha_linux.Exit.Slots.{sent, slot_after, signalled, kill_each-slot, Result, kill_each-Result}

-- The signal to one task where it may be sent.
abbrev pub with_signal : Task → ℤ → (Task → Bool) → Task → Task
with_signal me sig test p = if test p && may_signal false me p then raise (sig_bit sig) p else p

abbrev pub has_pid : ℕ → Task → Bool
has_pid n p = eq_ℤ p.pid (pos n)

sent-some :
    (me : Task) (sig : ℤ) (p : Task)
    → bad_sig sig ≡ false
    → sent me sig false (some p)
      ≡ (if may_signal false me p then some (raise (sig_bit sig) p) else some p)
unfolding send_sig
sent-some me sig p good = elim (Bool-cases (may_signal false me p)) [
  | inl may ↦ ap (λ b. (decided b).0) good ∙ rw may refl
  | inr not_may ↦ ap (λ b. (decided b).0) good ∙ rw not_may refl
]
  where
    decided : Bool → Option Task × ℤ
    decided b =
        if b
        then (some p, einval)
        else if may_signal false me p
        then (some (raise (sig_bit sig) p), pos 0)
        else (some p, eperm)

signalled-some :
    (me : Task) (sig : ℤ) (test : Task → Bool) (t : TaskTable) (j : ℕ) (p : Task)
    → bad_sig sig ≡ false
    → (1 ≤ j) × (j ≤ 63)
    → t j ≡ some p
    → signalled me sig false test 63 t j ≡ some (with_signal me sig test p)
signalled-some me sig test t j p good inside at =
    let here : (ltb 0 j && leb j 63) ≡ true = ground (arith, inside) in
    ap₂ (slot_after me sig false test) here at ∙ elim (Bool-cases (test p)) [
      | inl picked ↦ rw picked (sent-some me sig p good ∙ choose (may_signal false me p))
      | inr left ↦ rw left refl
    ]
  where
    choose :
        (b : Bool)
        → (if b then some (raise (sig_bit sig) p) else some p)
          ≡ some (if b then raise (sig_bit sig) p else p)
    choose true = refl
    choose false = refl

-- With a positive pid and a signal from 1 to 32, `sys_kill` sets the signal's bit in every task of
-- that pid with the sender's effective user, or any user for the super-user, and changes no other
-- task; it returns 0 if all tasks of the pid could be signalled, else the error of one that could
-- not.
pub sys_kill_pid :
    (me : Task) (n : ℕ) (sig : ℤ) (t : TaskTable)
    → bad_sig sig ≡ false
    → ((j : ℕ) (p : Task)
        → (1 ≤ j) × (j ≤ 63)
        → t j ≡ some p
        → (sys_kill me (pos (suc n)) sig t).1 j ≡ some (with_signal me sig (has_pid (suc n)) p))
      × Result me sig false (has_pid (suc n)) 63 t (pos 0) (sys_kill me (pos (suc n)) sig t).0
unfolding sys_kill
sys_kill_pid me n sig t good = (
  λ j p inside at.
      kill_each-slot me sig false (has_pid (suc n)) 63 (pos 0) t j
      ∙ signalled-some me sig (has_pid (suc n)) t j p good inside at,
  kill_each-Result me sig false (has_pid (suc n)) 63 (pos 0) t,
)
