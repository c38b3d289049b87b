-- ===== src/Task.antt =====
-- `struct task_struct` of include/linux/sched.h, the fields that the modelled code reads or writes,
-- and the table `task`.
use mathlib.Core.Option
use liha_linux.Base.{
  ◌&&◌, Bool, Option, arith, false, if◌then◌else◌, leb, ltb, negsuc, pos, suc, true, update, zero,
  ℕ, ℤ, ◌∙◌, ◌≡◌,
}

-- TASK_RUNNING to TASK_STOPPED.
pub data TaskState : Type 0 where
  running interruptible uninterruptible zombie stopped : TaskState

-- `struct sigaction`; the functions are addresses.
pub record Sigaction : Type 0 where
  pub sa_handler : ℕ
  pub sa_mask : ℕ
  pub sa_flags : ℕ
  pub sa_restorer : ℕ

-- The sets of signals are bit maps of 32 bits; a time slice and a priority are never negative. The
-- array `sigaction` is a function of the index.
pub record Task : Type 0 where
  pub state : TaskState
  pub counter : ℕ
  pub priority : ℕ
  pub signal : ℕ
  pub blocked : ℕ
  pub alarm : ℕ
  pub utime : ℕ
  pub stime : ℕ
  pub sigaction : ℕ → Sigaction
  pub exit_code : ℕ
  pub pid : ℤ
  pub father : ℤ
  pub pgrp : ℤ
  pub session : ℤ
  pub leader : ℕ
  pub uid : ℕ
  pub euid : ℕ
  pub suid : ℕ
  pub gid : ℕ
  pub egid : ℕ
  pub sgid : ℕ
  pub cutime : ℕ
  pub cstime : ℕ
  pub end_code : ℕ
  pub brk : ℕ
  pub start_stack : ℕ
  pub tty : ℤ
  pub umask : ℕ

abbrev pub nr_tasks : ℕ
nr_tasks = 64

-- `task`: `none` is a null pointer. A task is named by its index.
abbrev pub TaskTable : Type 0
TaskTable = ℕ → Option Task

abbrev pub is_running : TaskState → Bool
is_running running = true
is_running _ = false

abbrev pub is_interruptible : TaskState → Bool
is_interruptible interruptible = true
is_interruptible _ = false

abbrev pub modify : TaskTable → ℕ → (Task → Task) → TaskTable
modify t i f = update t i (Option.map f (t i))

-- `for (p = &LAST_TASK ; p > &FIRST_TASK ; --p) if (*p) ...`, from index `n` down to 1.
unfoldable pub for_tasks : ℕ → (Task → Task) → TaskTable → TaskTable
for_tasks zero f t = t
for_tasks (suc i) f t = for_tasks i f (modify t (suc i) f)

-- The loop changes the tasks from 1 to `n`, each once.
pub for_tasks_lem :
    (n : ℕ) (f : Task → Task) (t : TaskTable) (j : ℕ)
    → for_tasks n f t j ≡ (if ltb 0 j && leb j n then Option.map f (t j) else t j)
unfolding for_tasks
for_tasks_lem zero f t j = ground arith
for_tasks_lem (suc n) f t j = for_tasks_lem n f (modify t (suc n) f) j ∙ (ground arith)

-- INIT_TASK; TASK_RUNNING is 0.
abbrev pub init_task : Task
init_task = record {
  state = running;
  counter = 15;
  priority = 15;
  signal = 0;
  blocked = 0;
  alarm = 0;
  utime = 0;
  stime = 0;
  sigaction = λ _. record { sa_handler = 0; sa_mask = 0; sa_flags = 0; sa_restorer = 0 };
  exit_code = 0;
  pid = pos 0;
  father = negsuc 0;
  pgrp = pos 0;
  session = pos 0;
  leader = 0;
  uid = 0;
  euid = 0;
  suid = 0;
  gid = 0;
  egid = 0;
  sgid = 0;
  cutime = 0;
  cstime = 0;
  end_code = 0;
  brk = 0;
  start_stack = 0;
  tty = negsuc 0;
  umask = 18;
}
