-- ===== src/Timer/Tests.antt =====
-- The timers of kernel/sched.c on small lists.
use liha_linux.Base.{List, [], arith, none, refl, some, suc, zero, ℕ, ◌∷◌, ◌≡◌}
use liha_linux.Timer.{add_timer, added, Slot, Timers, free_slot}
use liha_linux.Timer.Chain.{nil, cons, Chain, Entry}
use liha_linux.Timer.Insert.{add_timer_lem, delayed, expiries, entry}

-- One timer of 10 ticks in slot 0.
abbrev slots : ℕ → Slot
slots zero = record { jiffies = 10; fn = some 7; next = none }
slots (suc n) = record { jiffies = 0; fn = none; next = none }

abbrev one : Timers
one = record { slot = slots; next_timer = some 0 }

one-Chain : Chain slots (some 0) (entry 0 10 7 ∷ [])
one-Chain = cons refl refl nil

-- The old timer would run after 10 ticks and now runs after 14.
delayed_example : delayed 0 4 9 ((10, 7) ∷ []) ≡ (4, 9) ∷ (14, 7) ∷ []
unfolding delayed
delayed_example = refl

add_timer_lem_example :
    (u : Timers) × (es' : List Entry) × (add_timer 4 (some 9) one ≡ added u)
    × Chain u.slot u.next_timer es'
    × (expiries 0 es' ≡ delayed 0 4 9 (expiries 0 (entry 0 10 7 ∷ [])))
unfolding free_slot
add_timer_lem_example = add_timer_lem 4 9 1 one one-Chain (omega arith) (omega arith) refl
