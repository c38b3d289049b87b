-- ===== src/Tty/Tests.antt =====
-- The terminals (kernel/chr_drv/tty_io.c): a line typed with an erased character, and read.
use liha_linux.Base.{
  ◌==◌, [], arith, false, if◌then◌else◌, none, pos, refl, suc, true, zero, ℕ, ◌∷◌,
}
use liha_linux.Tty.{Queue, Termios, Tty}
use liha_linux.Tty.Cook.{copy_to_cooked}
use liha_linux.Tty.Cook.Kept.{same_input, SameInput}
use liha_linux.Tty.Cook.Loop.{Ended, copy_to_cooked-Ended}
use liha_linux.Tty.Write.{Writing, fill}
use liha_linux.Tty.Write.Rendered.{Filled, fill-Filled}

-- 'a', DEL, 'b', CR, in a buffer that wraps round.
abbrev typed : ℕ → ℕ
typed zero = 98
typed (suc zero) = 13
typed (suc (suc n)) = if n == 1020 then 97 else if n == 1021 then 127 else 0

abbrev nothing : Queue
nothing = record { q_data = 0; head = 0; tail = 0; buf = λ _. 0 }

-- ERASE is DEL, EOF is ^D, MIN is 1.
abbrev control : ℕ → ℕ
control n = if n == 2 then 127 else if n == 4 then 4 else if n == 6 then 1 else 0

abbrev settings : Termios
settings = record {
  icrnl = true;
  igncr = false;
  inlcr = false;
  iuclc = false;
  opost = true;
  onlcr = true;
  ocrnl = false;
  onlret = false;
  olcuc = false;
  isig = true;
  icanon = true;
  echo = true;
  echoctl = true;
  c_cc = control;
}

abbrev terminal : Tty
terminal = record {
  termios = settings;
  pgrp = pos 0;
  stopped = false;
  read_q = record { q_data = 0; head = 2; tail = 1022; buf = typed };
  write_q = nothing;
  secondary = nothing;
}

-- A driver that takes all that is written.
abbrev drain : Tty → Tty
drain t = record t { write_q = record t.write_q { tail = t.write_q.head } }

drain-SameInput : (t : Tty) → SameInput t (drain t)
drain-SameInput t = same_input t (drain t) refl refl refl

copy_to_cooked-Ended_example :
    Ended settings (copy_to_cooked drain 4 (record { tty = terminal; task = λ _. none }))
copy_to_cooked-Ended_example =
    copy_to_cooked-Ended drain drain-SameInput 4 (record { tty = terminal; task = λ _. none })
      (record { head = omega arith; tail = omega arith }) (omega arith) refl
      (record { in_buf = record { head = omega arith; tail = omega arith }; counts = refl })

-- A line and the start of another one.
abbrev text : ℕ → ℕ
text zero = 98
text (suc zero) = 10
text (suc (suc n)) = 99

abbrev with_line : Tty
with_line = record terminal { secondary = record { q_data = 1; head = 3; tail = 0; buf = text } }

abbrev writing : Writing
writing = record { write_q = nothing; cr_flag = false; todo = 104 ∷ 10 ∷ []; count = 0 }

fill-Filled_example : Filled settings writing (fill 1023 settings writing)
fill-Filled_example =
    fill-Filled 1023 settings writing (record { head = omega arith; tail = omega arith })
      (omega arith)
