-- ===== src/Sched.antt =====
-- kernel/sched.c: the scheduler, the clock tick, alarms and nice values.
pub mod Choice
pub mod Priority
pub mod Schedule
pub mod Steps
mod Tests
use Prim.Native.Nat.{bit_or, bit_and}
use mathlib.Core.Option
use liha_linux.Base.{
  ◌%◌, ◌&&◌, ◌*◌, ◌+◌, ◌-◌, ◌-ℤ◌, ◌/◌, ◌==◌, Bool, Option, ◌^◌, div_ℤ, false, if◌then◌else◌, ltb,
  negsuc, none, not, pos, some, suc, true, zero, ◌||◌, ℕ, ℤ,
}
use liha_linux.Task.{modify, is_interruptible, for_tasks, is_running, Task, TaskTable, running}

-- `task`, `current` as an index, and `jiffies`.
pub record Kernel : Type 0 where
  pub task : TaskTable
  pub current : ℕ
  pub jiffies : ℕ

-- `_S(nr)`, and `~x` on 32 bits.
abbrev pub bit_of : ℕ → ℕ
bit_of nr = 2 ^ (nr - 1)

abbrev pub complement : ℕ → ℕ
complement x = 2 ^ 32 - 1 - x % 2 ^ 32

-- `_BLOCKABLE`.
abbrev pub blockable : ℕ
blockable = complement (bit_or (bit_of 9) (bit_of 19))

-- `(*p)->signal & ~(_BLOCKABLE & (*p)->blocked)`.
abbrev pub has_signal : Task → Bool
has_signal p = not (bit_and p.signal (complement (bit_and blockable p.blocked)) == 0)

-- The alarm of a task, then its wake-up by a signal.
pub ring : ℕ → Task → Task
ring jiffies p =
    if not (p.alarm == 0) && ltb p.alarm jiffies
    then record p { signal = bit_or p.signal (bit_of 14); alarm = 0 }
    else p

pub rouse : Task → Task
rouse p = if has_signal p && is_interruptible p.state then record p { state = running } else p

pub wake : ℕ → Task → Task
unfolding ring rouse
wake jiffies p = rouse (ring jiffies p)

-- `c` starts at -1, which is `none`, and is else a counter.
abbrev pub above : Option ℕ → ℕ → Bool
above none n = true
above (some c) n = ltb c n

abbrev pub candidate : Option ℕ → Task → Bool
candidate c p = is_running p.state && above c p.counter

-- The body of `while (--i)` at index `i`.
pub consider : Option Task → ℕ → Option ℕ → ℕ → Option ℕ × ℕ
consider none i c next = (c, next)
consider (some p) i c next = if candidate c p then (some p.counter, i) else (c, next)

-- `while (--i)`, from index `n` down to 1.
pub select : ℕ → TaskTable → Option ℕ → ℕ → Option ℕ × ℕ
unfolding consider
select zero t c next = (c, next)
select (suc i) t c next =
    let (c', next') = consider (t (suc i)) (suc i) c next in select i t c' next'

-- The new time slice; the sum does not wrap around, for slices below 2^31 and priorities below 2^30.
pub refill : Task → Task
refill p = record p { counter = p.counter / 2 + p.priority }

-- `if (c) break;`: `again` is another round.
pub settle : Option (ℕ × TaskTable) → TaskTable → Option ℕ × ℕ → Option (ℕ × TaskTable)
settle again t (none, next) = some (next, t)
settle again t (some n, next) = if n == 0 then again else some (next, t)

-- `while (1)`: the choice, or `none` if the fuel runs out.
pub choose : ℕ → TaskTable → Option (ℕ × TaskTable)
unfolding settle
choose zero t = none
choose (suc fuel) t =
    let again = choose fuel (for_tasks 63 refill t) in settle again t (select 63 t none 0)

-- `switch_to(next)` makes `next` the current task.
pub schedule : ℕ → Kernel → Option Kernel
unfolding wake choose
schedule fuel k =
    Option.map (λ (next, t). record k { task = t; current = next })
      (choose fuel (for_tasks 63 (wake k.jiffies) k.task))

abbrev pub modify_current : (Task → Task) → Kernel → Kernel
modify_current f k = record k { task = modify k.task k.current f }

-- `if (cpl) current->utime++; else current->stime++;`.
pub charge : ℕ → Task → Task
charge cpl p =
    if cpl == 0 then record p { stime = p.stime + 1 } else record p { utime = p.utime + 1 }

-- `--current->counter`, and at 0 or below `counter=0`.
pub run_down : Task → Task
run_down p = record p { counter = p.counter - 1 }

-- `(--current->counter)>0` of the task as it was.
abbrev pub goes_on : Option Task → Bool
goes_on none = false
goes_on (some p) = ltb 1 p.counter

-- What `do_timer` does to the current task.
pub do_timer : ℕ → ℕ → Kernel → Option Kernel
unfolding charge run_down schedule
do_timer fuel cpl k =
    let charged = modify_current run_down (modify_current (charge cpl) k) in
    let switched = schedule fuel charged in
    if goes_on (k.task k.current) || cpl == 0 then some charged else switched

abbrev pub hz : ℕ
hz = 100

-- The new alarm and the time that was left of the old one.
pub set_alarm : ℕ → ℤ → Task → Task
set_alarm jiffies (pos seconds) p = record p {
  alarm = if seconds == 0 then 0 else jiffies + hz * seconds;
}
set_alarm jiffies (negsuc _) p = record p { alarm = 0 }

pub left_of_alarm : ℕ → Option Task → ℤ
left_of_alarm jiffies none = pos 0
left_of_alarm jiffies (some p) =
    if p.alarm == 0 then pos 0 else div_ℤ (pos p.alarm -ℤ pos jiffies) hz

pub sys_alarm : ℤ → Kernel → ℤ × Kernel
unfolding set_alarm left_of_alarm
sys_alarm seconds k =
    (left_of_alarm k.jiffies (k.task k.current), modify_current (set_alarm k.jiffies seconds) k)

-- `priority-increment`, where it is above 0; the difference does not wrap around.
pub renice : ℤ → Task → Task
renice (pos n) p = if n == 0 then p else record p { priority = n }
renice (negsuc _) p = p

pub sys_nice : ℤ → Kernel → Kernel
unfolding renice
sys_nice increment k = modify_current (λ p. renice (pos p.priority -ℤ increment) p) k
