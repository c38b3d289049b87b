-- ===== src/Signal/Tests.antt =====
-- Signals (kernel/signal.c) of a task that catches signal 15.
use liha_linux.Base.{◌^◌, arith, refl, ℕ, ◌≡◌}
use liha_linux.Task.{Task, Sigaction, init_task}
use liha_linux.Signal.{do_signal, sys_signal, Regs, handled, exits, frame, sigkill}
use liha_linux.Signal.Handlers.{Reach-exits, start, next, signal}
use liha_linux.Signal.Frame.{do_signal-HasFrame, HasFrame}

abbrev action : Sigaction
action = record { sa_handler = 5000; sa_mask = 0; sa_flags = 0; sa_restorer = 6000 }

abbrev catcher : Task
catcher = record init_task { sigaction = λ _. action }

abbrev regs : Regs
regs = record { eax = 1; ecx = 2; edx = 3; eflags = 4; eip = 5; esp = 100 }

abbrev empty : ℕ → ℕ
empty _ = 0

do_signal-HasFrame_example :
    (me' : Task) × (r' : Regs) × (stack' : ℕ → ℕ) × (do_signal 15 catcher regs empty
      ≡ handled me' r' stack')
    × (r'.eip ≡ 5000)
    × HasFrame empty stack' 100 r'.esp (frame 15 action catcher regs)
do_signal-HasFrame_example = do_signal-HasFrame 15 catcher regs empty (omega arith) (omega arith)

-- An attempt to catch SIGKILL, then a handler for signal 15.
Reach-exits_example :
    do_signal sigkill (sys_signal 15 5000 6000 (sys_signal 9 5000 6000 init_task).1).1 regs empty
    ≡ exits (2 ^ 8)
Reach-exits_example =
    Reach-exits regs empty refl (next (next start (signal 9 5000 6000)) (signal 15 5000 6000))
