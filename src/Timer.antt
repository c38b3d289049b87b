-- ===== src/Timer.antt =====
-- The timers of kernel/sched.c: `timer_list`, `add_timer` and the part of `do_timer` that runs them.
-- A function is named by a number; `none` is a null pointer. A time at or below 0 is 0.
pub mod Chain
pub mod Insert
mod Tests
use liha_linux.Base.{
  ◌+◌, ◌-◌, ◌==◌, Option, false, if◌then◌else◌, ltb, none, some, suc, true, update, zero, ℕ,
}

abbrev pub time_requests : ℕ
time_requests = 64

-- `struct timer_list`; slots are named by their index.
pub record Slot : Type 0 where
  pub jiffies : ℕ
  pub fn : Option ℕ
  pub next : Option ℕ

pub record Timers : Type 0 where
  pub slot : ℕ → Slot
  pub next_timer : Option ℕ

-- `if (!p->fn) break;`, with `n` slots left from `p` on.
pub free_slot : (ℕ → Slot) → (n p : ℕ) → Option ℕ
free_slot slot zero p = none
free_slot slot (suc n) p = elim (slot p).fn [ none ↦ some p | some _ ↦ free_slot slot n (p + 1) ]

-- `p->jiffies -= p->next->jiffies`, and the exchange of the functions and of the times: what
-- becomes of `*p` and of `*p->next`.
abbrev pub earlier_of : Slot → Slot → Slot
earlier_of a b = record a { jiffies = b.jiffies; fn = b.fn }

abbrev pub later_of : Slot → Slot → Slot
later_of a b = record b { jiffies = a.jiffies - b.jiffies; fn = a.fn }

pub exchange : (ℕ → Slot) → (p q : ℕ) → ℕ → Slot
exchange slot p q =
    update (update slot p (earlier_of (slot p) (slot q))) q (later_of (slot p) (slot q))

-- `while (p->next && p->next->jiffies < p->jiffies)`.
pub sift : ℕ → ℕ → (ℕ → Slot) → ℕ → Slot
sift zero p slot = slot
sift (suc fuel) p slot = elim (slot p).next [
  | none ↦ slot
  | some q ↦ elim (ltb (slot q).jiffies (slot p).jiffies) [
    | true ↦ sift fuel q (exchange slot p q)
    | false ↦ slot
  ]
]

-- How `add_timer` ends: with the timers, after calling the function at once, or by `panic`.
pub data Added : Type 0 where
  added : Timers → Added
  called : ℕ → Timers → Added
  panic : Added

-- The new timer in slot `p`, before the loop.
pub put_first : ℕ → ℕ → ℕ → Timers → ℕ → Slot
put_first p jiffies fn t =
    update t.slot p (record { jiffies = jiffies; fn = some fn; next = t.next_timer })

pub add_timer : ℕ → Option ℕ → Timers → Added
unfolding free_slot put_first sift
add_timer jiffies none t = added t
add_timer jiffies (some fn) t =
    if jiffies == 0 then called fn t else elim (free_slot t.slot time_requests 0) [
      | none ↦ panic
      | some p ↦
          added
            (record { slot = sift time_requests p (put_first p jiffies fn t); next_timer = some p })
    ]

-- `next_timer->fn = NULL; next_timer = next_timer->next;` on slot `p`.
pub drop_first : ℕ → Timers → Timers
drop_first p t = record {
  slot = update t.slot p (record (t.slot p) { fn = none });
  next_timer = (t.slot p).next;
}

module _ (call : ℕ → Timers → Timers) where
  -- `(fn)()`; the list never holds a null function.
  pub call_fn : Option ℕ → Timers → Timers
  call_fn none t = t
  call_fn (some f) t = call f t

  -- `while (next_timer && next_timer->jiffies <= 0)`; what the functions do is `call`.
  pub run_due : ℕ → Timers → Timers
  unfolding drop_first call_fn
  run_due zero t = t
  run_due (suc fuel) t = elim t.next_timer [
    | none ↦ t
    | some p ↦ elim ((t.slot p).jiffies == 0) [
      | true ↦ run_due fuel (call_fn (t.slot p).fn (drop_first p t))
      | false ↦ t
    ]
  ]

  -- The timers' part of `do_timer`.
  pub tick : ℕ → Timers → Timers
  unfolding run_due
  tick fuel t = elim t.next_timer [
    | none ↦ t
    | some p ↦ run_due fuel (record t {
      slot = update t.slot p (record (t.slot p) { jiffies = (t.slot p).jiffies - 1 });
    })
  ]
