-- ===== src/Sys.antt =====
-- kernel/sys.c: the identifiers of users, groups, process groups and sessions, the break. A call
-- takes the current task, or the table, and returns its result with the task after it.
pub mod Users
pub mod Groups
pub mod Fails
mod Tests
use Prim.Native.Nat.{bit_and}
use liha_linux.Base.{
  ◌%◌, ◌&&◌, ◌+◌, ◌-◌, ◌==◌, Option, ◌^◌, eq_ℤ, false, if◌then◌else◌, leb, ltb, negsuc, none, not,
  pos, some, suc, true, update, zero, ◌||◌, ℕ, ℤ,
}
use liha_linux.Task.{Task, TaskTable}
use liha_linux.Exit.{eperm, suser}

abbrev pub esrch : ℤ
esrch = negsuc 2

-- An `int` stored in an `unsigned short`.
abbrev pub to_short : ℕ → ℕ
to_short n = n % 2 ^ 16

-- `if (rgid>0) ...`; `none` is the `return(-EPERM)`.
pub set_rgid : ℤ → Task → Option Task
set_rgid (negsuc n) me = some me
set_rgid (pos zero) me = some me
set_rgid (pos (suc n)) me =
    if (me.gid == suc n) || suser me then some (record me { gid = to_short (suc n) }) else none

pub set_egid : ℤ → Task → Option Task
set_egid (negsuc n) me = some me
set_egid (pos zero) me = some me
set_egid (pos (suc n)) me =
    if (me.gid == suc n) || (me.egid == suc n) || (me.sgid == suc n) || suser me
    then some (record me { egid = to_short (suc n) })
    else none

-- A call that fails with -EPERM leaves the task `me` behind.
abbrev pub or_eperm : Task → Option Task → ℤ × Task
or_eperm me none = (eperm, me)
or_eperm me (some p) = (pos 0, p)

abbrev pub and_then : Option Task → (Task → ℤ × Task) → ℤ × Task → ℤ × Task
and_then none f out = out
and_then (some p) f out = f p

pub sys_setregid : ℤ → ℤ → Task → ℤ × Task
unfolding set_rgid set_egid
sys_setregid rgid egid me =
    and_then (set_rgid rgid me) (λ p. or_eperm p (set_egid egid p)) (eperm, me)

pub sys_setgid : ℤ → Task → ℤ × Task
unfolding sys_setregid
sys_setgid gid me = sys_setregid gid gid me

pub set_ruid : ℤ → Task → Option Task
set_ruid (negsuc n) me = some me
set_ruid (pos zero) me = some me
set_ruid (pos (suc n)) me =
    if (me.euid == suc n) || (me.uid == suc n) || suser me
    then some (record me { uid = to_short (suc n) })
    else none

pub set_euid : ℤ → ℕ → Task → Option Task
set_euid (negsuc n) old_ruid me = some me
set_euid (pos zero) old_ruid me = some me
set_euid (pos (suc n)) old_ruid me =
    if (old_ruid == suc n) || (me.euid == suc n) || suser me
    then some (record me { euid = to_short (suc n) })
    else none

pub sys_setreuid : ℤ → ℤ → Task → ℤ × Task
unfolding set_ruid set_euid
sys_setreuid ruid euid me =
    and_then (set_ruid ruid me) (λ p. or_eperm (record p { uid = me.uid }) (set_euid euid me.uid p))
      (eperm, me)

pub sys_setuid : ℤ → Task → ℤ × Task
unfolding sys_setreuid
sys_setuid uid me = sys_setreuid uid uid me

-- The subtraction is of 32-bit unsigned numbers.
pub sys_brk : ℕ → Task → ℕ × Task
sys_brk end_data_seg me =
    if leb me.end_code end_data_seg && ltb end_data_seg ((me.start_stack + 2 ^ 32 - 16384) % 2 ^ 32)
    then (end_data_seg, record me { brk = end_data_seg })
    else (me.brk, me)

abbrev pub if_zero : ℤ → ℤ → ℤ
if_zero n other = if eq_ℤ n (pos 0) then other else n

-- The `if`s on the task that has the pid.
pub set_pgrp : Task → ℤ → Task → Option Task
set_pgrp me pgid p =
    if not (p.leader == 0) || not (eq_ℤ p.session me.session)
    then none
    else some (record p { pgrp = pgid })

-- The loop of `sys_setpgid` from index `i`, `n` tasks left.
pub find_pid : Task → ℤ → ℤ → (n i : ℕ) → TaskTable → ℤ × TaskTable
unfolding set_pgrp
find_pid me pid pgid zero i t = (esrch, t)
find_pid me pid pgid (suc n) i t = elim (t i) [
  | none ↦ find_pid me pid pgid n (i + 1) t
  | some p ↦ elim (eq_ℤ p.pid pid) [
    | true ↦ elim (set_pgrp me pgid p) [ none ↦ (eperm, t) | some q ↦ (pos 0, update t i (some q)) ]
    | false ↦ find_pid me pid pgid n (i + 1) t
  ]
]

pub sys_setpgid : Task → ℤ → ℤ → TaskTable → ℤ × TaskTable
unfolding find_pid
sys_setpgid me pid pgid t = find_pid me (if_zero pid me.pid) (if_zero pgid me.pid) 64 0 t

pub sys_setsid : Task → ℤ × Task
sys_setsid me =
    if not (me.leader == 0) && not (suser me)
    then (eperm, me)
    else (me.pid, record me { leader = 1; session = me.pid; pgrp = me.pid; tty = negsuc 0 })

-- `mask & 0777`.
pub sys_umask : ℕ → Task → ℕ × Task
sys_umask mask me = (me.umask, record me { umask = bit_and mask 511 })
