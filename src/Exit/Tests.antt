-- ===== src/Exit/Tests.antt =====
-- Signals and waits (kernel/exit.c) on a table of four tasks.
use liha_linux.Base.{false, negsuc, none, pos, refl, some, suc, zero, ℕ, ◌≡◌, ◌≤◌}
use liha_linux.Task.{Task, TaskTable, TaskState, init_task, running, zombie}
use liha_linux.Exit.{sys_kill, sys_waitpid, Options}
use liha_linux.Exit.Slots.{Result}
use liha_linux.Exit.Kill.{sys_kill_pid, with_signal, has_pid}
use liha_linux.Exit.Broadcast.{Broadcast, sys_kill-Broadcast}
use liha_linux.Exit.Wait.{sys_waitpid_lem, Outcome}

abbrev child : TaskState → ℕ → Task
child state n = record init_task { state = state; pid = pos n; father = pos 1; exit_code = 256 }

abbrev tasks : TaskTable
tasks zero = some init_task
tasks (suc zero) = some (record init_task { pid = pos 1 })
tasks (suc (suc zero)) = some (child zombie 5)
tasks (suc (suc (suc zero))) = some (child running 6)
tasks (suc (suc (suc (suc n)))) = none

abbrev init : Task
init = record init_task { pid = pos 1 }

sys_kill_pid_example :
    ((j : ℕ) (p : Task)
      → (1 ≤ j) × (j ≤ 63)
      → tasks j ≡ some p
      → (sys_kill init (pos 6) (pos 15) tasks).1 j ≡ some (with_signal init (pos 15) (has_pid 6) p))
    × Result init
        (pos 15)
        false
        (has_pid 6)
        63
        tasks
        (pos 0)
        (sys_kill init (pos 6) (pos 15) tasks).0
sys_kill_pid_example = sys_kill_pid init 5 (pos 15) tasks refl

sys_kill-Broadcast_example :
    Broadcast init (pos 15) 63 tasks (sys_kill init (negsuc 0) (pos 15) tasks).1
sys_kill-Broadcast_example = sys_kill-Broadcast init (pos 15) tasks

abbrev no_options : Options
no_options = record { wnohang = false; wuntraced = false }

sys_waitpid_lem_example :
    Outcome 1 init (negsuc 0) no_options tasks (sys_waitpid 1 init (negsuc 0) no_options tasks)
sys_waitpid_lem_example = sys_waitpid_lem 1 init (negsuc 0) no_options tasks
