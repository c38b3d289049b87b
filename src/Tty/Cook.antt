-- ===== src/Tty/Cook.antt =====
-- `tty_intr` and `copy_to_cooked` of kernel/chr_drv/tty_io.c.
pub mod Kept
pub mod Loop
use liha_linux.Base.{
  ◌%◌, ◌&&◌, ◌+◌, ◌==◌, Bool, Option, ◌^◌, eq_ℤ, false, if◌then◌else◌, negsuc, none, pos, some, suc,
  true, zero, ◌||◌, ℕ, ℤ,
}
use liha_linux.Task.{TaskTable, modify, nr_tasks}
use liha_linux.Exit.{raise}
use liha_linux.Sched.{bit_of}
use liha_linux.Tty.{
  chars, tty_buf_size, verase, vstart, vstop, vquit, vintr, Tty, Termios, Queue, unput, last, getch,
  putch, is_empty, is_full, is_control, ends_line, is_low, tolower, vkill,
}

abbrev pub sigint : ℕ
sigint = 2

abbrev pub sigquit : ℕ
sigquit = 3

-- A terminal and the table of tasks that its signals go to.
pub record Line : Type 0 where
  pub tty : Tty
  pub task : TaskTable

-- `if (task[i] && task[i]->pgrp==tty->pgrp) task[i]->signal |= mask`, for the tasks below `n`.
pub signal_group : ℕ → ℤ → ℕ → TaskTable → TaskTable
signal_group zero pgrp mask t = t
signal_group (suc i) pgrp mask t =
    modify (signal_group i pgrp mask t) i λ p. if eq_ℤ p.pgrp pgrp then raise mask p else p

pub tty_intr : ℤ → ℕ → TaskTable → TaskTable
unfolding signal_group
tty_intr (pos zero) mask t = t
tty_intr (pos (suc g)) mask t = signal_group nr_tasks (pos (suc g)) mask t
tty_intr (negsuc g) mask t = t

-- The character that comes in; `none` is dropped.
abbrev pub in_case : Termios → ℕ → ℕ
in_case t c = if t.iuclc then tolower c else c

pub translate : Termios → ℕ → Option ℕ
translate t c =
    if c == 13
    then (if t.icrnl then some (in_case t 10) else if t.igncr then none else some (in_case t 13))
    else some (in_case t (if (c == 10) && t.inlcr then 13 else c))

abbrev pub echo_queue : (Queue → Queue) → Tty → Tty
echo_queue f tty = record tty { write_q = f tty.write_q }

-- The queue without its last character holds no line end behind this.
abbrev pub at_line_start : Tty → Bool
at_line_start tty = is_empty tty.secondary || ends_line tty.termios (last tty.secondary)

-- `c` goes to the end of the cooked queue; its line is counted, and the echo comes first.
abbrev pub count_line : ℕ → Tty → Tty
count_line c tty =
    if ends_line tty.termios c
    then record tty { secondary = record tty.secondary { q_data = tty.secondary.q_data + 1 } }
    else tty

-- ISIG.
pub interrupt : ℕ → Line → Option Line
unfolding tty_intr
interrupt c line =
    let t = line.tty.termios in
    if is_control t vintr c
    then some (record line { task = tty_intr line.tty.pgrp (bit_of sigint) line.task })
    else if is_control t vquit c
    then some (record line { task = tty_intr line.tty.pgrp (bit_of sigquit) line.task })
    else none

-- What the echo of a character puts in the write queue.
pub echo_of : Termios → ℕ → Queue → Queue
echo_of t c q =
    if c == 10
    then putch 13 (putch 10 q)
    else if is_low c
    then (if t.echoctl then putch ((c + 64) % 2 ^ 8) (putch 94 q) else q)
    else putch c q

abbrev pub or_store : Option Line → Line → Line
or_store (some line) other = line
or_store none other = other

module _ (write : Tty → Tty) where
  -- The last character of the cooked queue, and its echo, are rubbed out.
  pub rub_echo : Tty → Tty
  rub_echo tty =
      if tty.termios.echo
      then write
          (echo_queue (λ q. putch 127 (if is_low (last tty.secondary) then putch 127 q else q)) tty)
      else tty

  pub rub_out : Tty → Tty
  unfolding rub_echo unput
  rub_out tty = let echoed = rub_echo tty in record echoed { secondary = unput echoed.secondary }

  -- The loop that kills a line, which is no longer than the queue.
  pub kill_line : ℕ → Tty → Tty
  kill_line zero tty = tty
  kill_line (suc n) tty =
      let rest = kill_line n (rub_out tty) in if at_line_start tty then tty else rest

  -- ICANON; `some` is `continue`.
  pub edit : ℕ → Tty → Option Tty
  unfolding kill_line
  edit c tty =
      if is_control tty.termios vkill c
      then some (kill_line (chars tty.secondary) tty)
      else if is_control tty.termios verase c
      then some (if at_line_start tty then tty else rub_out tty)
      else if is_control tty.termios vstop c
      then some (record tty { stopped = true })
      else if is_control tty.termios vstart c
      then some (record tty { stopped = false })
      else none

  pub echo_char : ℕ → Tty → Tty
  unfolding echo_of
  echo_char c tty = if tty.termios.echo then write (echo_queue (echo_of tty.termios c) tty) else tty

  pub store_char : ℕ → Tty → Tty
  unfolding echo_char
  store_char c tty =
      let echoed = echo_char c (count_line c tty) in
      record echoed { secondary = putch c echoed.secondary }

  -- A translated character.
  pub cook : ℕ → Line → Line
  cook c line =
      let stored = record line { tty = store_char c line.tty } in
      let signalled =
        if line.tty.termios.isig then or_store (interrupt c line) stored else stored in
      if line.tty.termios.icanon
      then elim (edit c line.tty) [ some tty ↦ record line { tty = tty } | none ↦ signalled ]
      else signalled

  -- One round of the loop: a character leaves the read queue.
  pub round : Line → Line
  round line =
      let (c, q) = getch line.tty.read_q in
      let taken = record line { tty = record line.tty { read_q = q } } in
      elim (translate line.tty.termios c) [ none ↦ taken | some d ↦ cook d taken ]

  -- `while (!EMPTY(tty->read_q) && !FULL(tty->secondary))`, at most `n` rounds.
  pub copy_to_cooked : ℕ → Line → Line
  copy_to_cooked zero line = line
  copy_to_cooked (suc n) line =
      let rest = copy_to_cooked n (round line) in
      if is_empty line.tty.read_q || is_full line.tty.secondary then line else rest
