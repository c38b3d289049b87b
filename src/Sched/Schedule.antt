-- ===== src/Sched/Schedule.antt =====
-- `schedule` (kernel/sched.c): the wake-ups, the choice and the switch.
use mathlib.Core.Option
use liha_linux.Base.{◌<◌, ap, arith, some, subst, suc, sym, ℕ, ◌≡◌}
use liha_linux.Task.{for_tasks, Task, TaskTable}
use liha_linux.Sched.{Kernel, wake, ring, rouse, schedule}
use liha_linux.Sched.Priority.{for_tasks-HasPriority}
use liha_linux.Sched.Choice.{Chosen, HasPriority, choose-Chosen}

-- The table after the first loop of `schedule`.
abbrev pub awake : Kernel → TaskTable
awake k = for_tasks 63 (wake k.jiffies) k.task

wake_priority : (jiffies : ℕ) (p : Task) → (wake jiffies p).priority ≡ p.priority
unfolding wake ring rouse
wake_priority jiffies p = ground arith

pub awake-HasPriority : (k : Kernel) → HasPriority k.task → HasPriority (awake k)
awake-HasPriority k =
    for_tasks-HasPriority (wake k.jiffies)
      (λ p h. subst (λ n. 0 < n) (sym (wake_priority k.jiffies p)) h) k.task

-- Where every task has a positive priority, the loop of `schedule` ends after two rounds at most,
-- and `current` becomes, of the tasks as the first loop leaves them, the idle task when none runs,
-- else the running task with the largest time slice, after a refill when all slices are used up.
pub schedule-Chosen :
    (fuel : ℕ) (k : Kernel)
    → HasPriority k.task
    → (next : ℕ) × (t : TaskTable) × (schedule (suc (suc fuel)) k
        ≡ some (record k { task = t; current = next }))
      × Chosen (awake k) (next, t)
unfolding schedule
schedule-Chosen fuel k prio =
    let ((next, t), e, chosen) = choose-Chosen fuel (awake k) (awake-HasPriority k prio) in
    (next, t, ap (Option.map (λ (next, t). record k { task = t; current = next })) e, chosen)
