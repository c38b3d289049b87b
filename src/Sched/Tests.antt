-- ===== src/Sched/Tests.antt =====
-- The scheduler on a table of three tasks.
use liha_linux.Base.{◌<◌, arith, negsuc, none, pos, some, subst, suc, zero, ℕ, ◌≡◌}
use liha_linux.Task.{init_task, Task, TaskTable, TaskState, running, interruptible}
use liha_linux.Sched.{Kernel, schedule, do_timer, sys_nice}
use liha_linux.Sched.Choice.{Chosen, HasPriority}
use liha_linux.Sched.Schedule.{schedule-Chosen, awake}
use liha_linux.Sched.Steps.{Reach-ends, start, next, niced}

abbrev task_of : TaskState → ℕ → ℕ → Task
task_of state counter n = record init_task { state = state; counter = counter; pid = pos n }

-- Task 1 has used its slice up, task 2 sleeps.
abbrev three : TaskTable
three zero = some (task_of running 15 0)
three (suc zero) = some (task_of running 0 1)
three (suc (suc zero)) = some (task_of interruptible 9 2)
three (suc (suc (suc n))) = none

some_priority : (q p : Task) → 0 < q.priority → some q ≡ some p → 0 < p.priority
some_priority q p h e = let same : q ≡ p = cc in subst (λ r. 0 < r.priority) same h

three-HasPriority : HasPriority three
three-HasPriority zero p e = some_priority (task_of running 15 0) p (omega arith) e
three-HasPriority (suc zero) p e = some_priority (task_of running 0 1) p (omega arith) e
three-HasPriority (suc (suc zero)) p e = some_priority (task_of interruptible 9 2) p (omega arith) e
three-HasPriority (suc (suc (suc n))) p e = cc

abbrev kernel : Kernel
kernel = record { task = three; current = 0; jiffies = 100 }

schedule-Chosen_example :
    (next : ℕ) × (t : TaskTable) × (schedule 2 kernel
      ≡ some (record kernel { task = t; current = next }))
    × Chosen (awake kernel) (next, t)
schedule-Chosen_example = schedule-Chosen 0 kernel three-HasPriority

Reach-ends_example :
    ((after : Kernel) × (do_timer 2 3 (sys_nice (negsuc 4) kernel) ≡ some after))
    × ((after : Kernel) × (schedule 2 (sys_nice (negsuc 4) kernel) ≡ some after))
Reach-ends_example = Reach-ends 3 three-HasPriority (next start (niced (negsuc 4)))
