-- ===== src/Sched/Steps.antt =====
-- The scheduler (kernel/sched.c) under ticks, alarms and nice values: it never gets stuck.
use liha_linux.Base.{
  ◌+◌, ◌-ℤ◌, ◌<◌, ◌==◌, Bool-cases, arith, inl, inr, negsuc, pos, refl, some, subst, ◌||◌, ℕ, ℤ,
  ◌≡◌,
}
use liha_linux.Task.{Task, TaskTable}
use liha_linux.Sched.{
  Kernel, sys_nice, sys_alarm, do_timer, schedule, refill, charge, run_down, set_alarm, renice,
  modify_current, goes_on,
}
use liha_linux.Sched.Choice.{Chosen, HasPriority, idle, best, refreshed}
use liha_linux.Sched.Priority.{Keeps, for_tasks-HasPriority, modify-HasPriority}
use liha_linux.Sched.Schedule.{schedule-Chosen, awake-HasPriority}

-- `incl jiffies` of the interrupt's entry in kernel/system_call.s.
abbrev pub count_tick : Kernel → Kernel
count_tick k = record k { jiffies = k.jiffies + 1 }

-- A system call or an interrupt that ends.
pub data Step : Kernel → Kernel → Type 0 where
  tick : {k k' : Kernel} (cpl : ℕ) → do_timer 2 cpl (count_tick k) ≡ some k' → Step k k'
  yielded : {k k' : Kernel} → schedule 2 k ≡ some k' → Step k k'
  niced : {k : Kernel} (increment : ℤ) → Step k (sys_nice increment k)
  alarmed : {k : Kernel} (seconds : ℤ) → Step k (sys_alarm seconds k).1

pub data Reach (k : Kernel) : Kernel → Type 0 where
  start : Reach k k
  next : {k' k'' : Kernel} → Reach k k' → Step k' k'' → Reach k k''

renice_priority : (d : ℤ) (p : Task) → 0 < p.priority → 0 < (renice d p).priority
unfolding renice
renice_priority (pos n) p h = ground arith
renice_priority (negsuc n) p h = h

renice-Keeps : (increment : ℤ) → Keeps (λ p. renice (pos p.priority -ℤ increment) p)
renice-Keeps increment p h = renice_priority (pos p.priority -ℤ increment) p h

alarm-Keeps : (jiffies : ℕ) (seconds : ℤ) → Keeps (set_alarm jiffies seconds)
unfolding set_alarm
alarm-Keeps jiffies (pos n) p h = h
alarm-Keeps jiffies (negsuc n) p h = h

run_down-Keeps : Keeps run_down
unfolding run_down
run_down-Keeps p h = h

charge-Keeps : (cpl : ℕ) → Keeps (charge cpl)
unfolding charge
charge-Keeps cpl p h = ground arith

refill-Keeps : Keeps refill
unfolding refill
refill-Keeps p h = ground arith

Chosen-HasPriority :
    {t : TaskTable} {out : ℕ × TaskTable} → Chosen t out → HasPriority t → HasPriority out.1
Chosen-HasPriority (idle _) prio = prio
Chosen-HasPriority (best _ _ _ _) prio = prio
Chosen-HasPriority {t} (refreshed _ _ _ _ _ _ _ _) prio =
    for_tasks-HasPriority refill refill-Keeps t prio

-- `schedule` ends and keeps the priorities.
schedule-HasPriority :
    (k : Kernel)
    → HasPriority k.task
    → (k' : Kernel) × (schedule 2 k ≡ some k') × HasPriority k'.task
schedule-HasPriority k prio =
    let (_, t, e, chosen) = schedule-Chosen 0 k prio in
    (_, e, Chosen-HasPriority chosen (awake-HasPriority k prio))

charged_by : ℕ → Kernel → Kernel
charged_by cpl k = modify_current run_down (modify_current (charge cpl) k)

charged-HasPriority :
    (cpl : ℕ) (k : Kernel) → HasPriority k.task → HasPriority (charged_by cpl k).task
unfolding charged_by
charged-HasPriority cpl k prio =
    modify-HasPriority run_down run_down-Keeps (modify_current (charge cpl) k).task k.current
      (modify-HasPriority (charge cpl) (charge-Keeps cpl) k.task k.current prio)

do_timer-HasPriority :
    (cpl : ℕ) (k : Kernel)
    → HasPriority k.task
    → (k' : Kernel) × (do_timer 2 cpl k ≡ some k') × HasPriority k'.task
unfolding do_timer charged_by
do_timer-HasPriority cpl k prio = elim (Bool-cases (goes_on (k.task k.current) || cpl == 0)) [
  | inl on ↦ (charged_by cpl k, rw on refl, charged-HasPriority cpl k prio)
  | inr ends ↦
      let (k', e, prio') =
        schedule-HasPriority (charged_by cpl k) (charged-HasPriority cpl k prio) in
      (k', rw ends e, prio')
]

Step-HasPriority : {k k' : Kernel} → Step k k' → HasPriority k.task → HasPriority k'.task
unfolding sys_nice sys_alarm
Step-HasPriority {k} {k'} (tick cpl e) prio =
    let (k'', e', prio') = do_timer-HasPriority cpl (count_tick k) prio in
    let same : k'' ≡ k' = cc in subst (λ x. HasPriority x.task) same prio'
Step-HasPriority {k} {k'} (yielded e) prio =
    let (k'', e', prio') = schedule-HasPriority k prio in
    let same : k'' ≡ k' = cc in subst (λ x. HasPriority x.task) same prio'
Step-HasPriority {k} (niced increment) prio =
    modify-HasPriority (λ p. renice (pos p.priority -ℤ increment) p) (renice-Keeps increment) k.task
      k.current prio
Step-HasPriority {k} (alarmed seconds) prio =
    modify-HasPriority (set_alarm k.jiffies seconds) (alarm-Keeps k.jiffies seconds) k.task
      k.current prio

-- From a table where every task has a positive priority, no sequence of clock ticks, calls of
-- `schedule`, of `sys_nice` with any increment and of `sys_alarm` makes the scheduler loop: in every
-- kernel reached, a clock tick and a call of `schedule` end after two rounds at most.
pub Reach-ends :
    {k k' : Kernel} (cpl : ℕ)
    → HasPriority k.task
    → Reach k k'
    → ((after : Kernel) × (do_timer 2 cpl k' ≡ some after))
      × ((after : Kernel) × (schedule 2 k' ≡ some after))
Reach-ends {k} {k'} cpl prio reach =
    let now = kept reach in
    let (a, e, _) = do_timer-HasPriority cpl k' now in
    let (b, f, _) = schedule-HasPriority k' now in ((a, e), (b, f))
  where
    kept : {k'' : Kernel} → Reach k k'' → HasPriority k''.task
    kept start = prio
    kept (next before step) = Step-HasPriority step (kept before)
