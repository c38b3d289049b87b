-- ===== src/Exit.antt =====
-- kernel/exit.c on the table of tasks: signals sent by the kernel and by `kill`, the wait for a
-- child, orphans. A task is named by its index in `task`; `me` is `*current`, whose `pid`, `euid`
-- and `session` no signal changes. Errors are the negative numbers of include/errno.h.
pub mod Slots
pub mod Kill
pub mod Broadcast
pub mod Wait
mod Tests
use Prim.Native.Nat.{bit_or}
use liha_linux.Base.{
  ◌&&◌, ◌+◌, ◌==◌, Bool, Option, eq_ℤ, false, if◌then◌else◌, ltb, negsuc, none, not, pos, some, suc,
  true, update, zero, ◌||◌, ℕ, ℤ,
}
use liha_linux.Task.{for_tasks, modify, Task, TaskState, TaskTable, interruptible, stopped, zombie}
use liha_linux.Sched.{bit_of}

abbrev pub eperm : ℤ
eperm = negsuc 0

abbrev pub echild : ℤ
echild = negsuc 9

abbrev pub einval : ℤ
einval = negsuc 21

abbrev pub sighup : ℕ
sighup = 1

abbrev pub sigchld : ℕ
sigchld = 17

-- `sig<1 || sig>32`.
abbrev pub bad_sig : ℤ → Bool
bad_sig (pos n) = ltb n 1 || ltb 32 n
bad_sig (negsuc n) = true

-- `1<<(sig-1)`.
abbrev pub sig_bit : ℤ → ℕ
sig_bit (pos n) = bit_of n
sig_bit (negsuc n) = 0

-- `p->signal |= bit`.
abbrev pub raise : ℕ → Task → Task
raise bit p = record p { signal = bit_or p.signal bit }

abbrev pub suser : Task → Bool
suser me = me.euid == 0

abbrev pub may_signal : Bool → Task → Task → Bool
may_signal priv me p = priv || (me.euid == p.euid) || suser me

-- The task after the signal, and the result.
pub send_sig : Task → ℤ → Option Task → Bool → Option Task × ℤ
send_sig me sig none priv = (none, einval)
send_sig me sig (some p) priv =
    if bad_sig sig
    then (some p, einval)
    else if may_signal priv me p
    then (some (raise (sig_bit sig) p), pos 0)
    else (some p, eperm)

pub kill_session : Task → TaskTable → TaskTable
kill_session me =
    for_tasks 63 (λ p. if eq_ℤ p.session me.session then raise (bit_of sighup) p else p)

-- `if (err=send_sig(...)) retval = err;`.
abbrev pub keep_error : ℤ → ℤ → ℤ
keep_error err retval = if eq_ℤ err (pos 0) then retval else err

abbrev pub chosen_by : (Task → Bool) → Option Task → Bool
chosen_by test none = false
chosen_by test (some p) = test p

-- `if (*p && test) if (err=send_sig(sig,*p,priv)) retval = err;`.
pub kill_one : Task → ℤ → Bool → (Task → Bool) → Option Task → ℤ → Option Task × ℤ
unfolding send_sig
kill_one me sig priv test o retval =
    let (p, err) = send_sig me sig o priv in
    if chosen_by test o then (p, keep_error err retval) else (o, retval)

-- `while (--p > &FIRST_TASK)` around it, from index `n` down to 1.
pub kill_each : Task → ℤ → Bool → (Task → Bool) → ℕ → ℤ → TaskTable → ℤ × TaskTable
unfolding kill_one
kill_each me sig priv test zero retval t = (retval, t)
kill_each me sig priv test (suc i) retval t =
    let (p, retval') = kill_one me sig priv test (t (suc i)) retval in
    kill_each me sig priv test i retval' (update t (suc i) p)

-- The loop for the pid -1. The last `else` of `sys_kill` belongs to the `if` in this loop: after the
-- first signal that is sent, the loop for a group (here the group 1) runs on down from the same `p`.
pub kill_all : Task → ℤ → ℕ → ℤ → TaskTable → ℤ × TaskTable
unfolding kill_each
kill_all me sig zero retval t = (retval, t)
kill_all me sig (suc i) retval t =
    let (p, err) = send_sig me sig (t (suc i)) false in
    elim (eq_ℤ err (pos 0)) [
      | true ↦ kill_each me sig false (λ q. eq_ℤ q.pgrp (pos 1)) i retval (update t (suc i) p)
      | false ↦ kill_all me sig i err (update t (suc i) p)
    ]

-- No branch is left for the pids below -1.
pub sys_kill : Task → ℤ → ℤ → TaskTable → ℤ × TaskTable
unfolding kill_all
sys_kill me (pos zero) sig t = kill_each me sig true (λ p. eq_ℤ p.pgrp me.pid) 63 (pos 0) t
sys_kill me (pos (suc n)) sig t =
    kill_each me sig false (λ p. eq_ℤ p.pid (pos (suc n))) 63 (pos 0) t
sys_kill me (negsuc zero) sig t = kill_all me sig 63 (pos 0) t
sys_kill me (negsuc (suc n)) sig t = (pos 0, t)

-- The loop of `tell_father` from index `i`, `n` tasks left: the table, or `none` if no task has the
-- pid, where `tell_father` releases the current task.
pub tell_loop : ℤ → (n i : ℕ) → TaskTable → Option TaskTable
tell_loop pid zero i t = none
tell_loop pid (suc n) i t =
    let rest = tell_loop pid n (i + 1) t in
    if chosen_by (λ p. eq_ℤ p.pid pid) (t i)
    then some (modify t i (raise (bit_of sigchld)))
    else rest

pub tell_father : ℤ → TaskTable → Option TaskTable
unfolding tell_loop
tell_father pid t = if eq_ℤ pid (pos 0) then none else tell_loop pid 64 0 t

abbrev pub is_zombie : TaskState → Bool
is_zombie zombie = true
is_zombie _ = false

-- The loop of `do_exit` over the children, from index `i`, `n` tasks left: they get task 1 for a
-- father, which hears of the zombies among them.
pub adopt : Task → (n i : ℕ) → TaskTable → TaskTable
unfolding send_sig
adopt me zero i t = t
adopt me (suc n) i t =
    let given = modify t i (λ p. record p { father = pos 1 }) in
    let told = update given 1 (send_sig me (pos sigchld) (given 1) true).0 in
    let orphaned = if chosen_by (λ p. is_zombie p.state) (t i) then told else given in
    adopt me n (i + 1) (if chosen_by (λ p. eq_ℤ p.father me.pid) (t i) then orphaned else t)

-- `WNOHANG` and `WUNTRACED` of `options`.
pub record Options : Type 0 where
  pub wnohang : Bool
  pub wuntraced : Bool

-- The test on `pid` in `sys_waitpid`.
abbrev pub selects : Task → ℤ → Task → Bool
selects me (pos zero) p = eq_ℤ p.pgrp me.pgrp
selects me (pos (suc n)) p = eq_ℤ p.pid (pos (suc n))
selects me (negsuc zero) p = true
selects me (negsuc (suc n)) p = eq_ℤ p.pgrp (pos (suc (suc n)))

-- A task that no `continue` before the `switch` skips.
abbrev pub is_wanted : ℕ → Task → ℤ → ℕ → Task → Bool
is_wanted current me pid i p = not (i == current) && eq_ℤ p.father me.pid && selects me pid p

-- How the loop over the tasks ends: at a stopped child, at a zombie, or at its end with `flag`.
pub data Scan : Type 0 where
  stopped_at zombie_at : ℕ → Scan
  ended : Bool → Scan

-- The `switch`: `rest` is the loop with this `flag`.
pub inspect : Options → ℕ → TaskState → Bool → (Bool → Scan) → Scan
inspect o i stopped flag rest = if o.wuntraced then stopped_at i else rest flag
inspect o i zombie flag rest = zombie_at i
inspect o i _ flag rest = rest true

pub scan : ℕ → Task → ℤ → Options → ℕ → Bool → TaskTable → Scan
unfolding inspect
scan current me pid o zero flag t = ended flag
scan current me pid o (suc i) flag t = elim (t (suc i)) [
  | none ↦ scan current me pid o i flag t
  | some p ↦ elim (is_wanted current me pid (suc i) p) [
    | true ↦ inspect o (suc i) p.state flag (λ f. scan current me pid o i f t)
    | false ↦ scan current me pid o i flag t
  ]
]

-- What one pass of `sys_waitpid` does: it returns a value, with the status stored if there is one,
-- or it sleeps for a child.
pub data Waited : Type 0 where
  returned : ℤ → Option ℕ → TaskTable → Waited
  sleeping : TaskTable → Waited

-- A zombie's times are added to the current task's, and the zombie is released.
abbrev pub reap : ℕ → ℕ → Task → TaskTable → TaskTable
reap current i p t =
    update
      (modify t current
        (λ me. record me { cutime = me.cutime + p.utime; cstime = me.cstime + p.stime }))
      i none

abbrev pub with_child : Option Task → (Task → Waited) → Waited → Waited
with_child none f w = w
with_child (some p) f w = f p

pub after_scan : ℕ → Options → TaskTable → Scan → Waited
after_scan current o t (stopped_at i) =
    with_child (t i) (λ p. returned p.pid (some 127) t) (returned echild none t)
after_scan current o t (zombie_at i) =
    with_child (t i) (λ p. returned p.pid (some p.exit_code) (reap current i p t))
      (returned echild none t)
after_scan current o t (ended false) = returned echild none t
after_scan current o t (ended true) =
    if o.wnohang
    then returned (pos 0) none t
    else sleeping (modify t current (λ p. record p { state = interruptible }))

pub sys_waitpid : ℕ → Task → ℤ → Options → TaskTable → Waited
unfolding scan after_scan
sys_waitpid current me pid o t = after_scan current o t (scan current me pid o 63 false t)
