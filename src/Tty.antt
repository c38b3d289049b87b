-- ===== src/Tty.antt =====
-- kernel/chr_drv/tty_io.c and include/linux/tty.h: the queues of a terminal and its line discipline.
-- A character is a byte; above 127 it is negative as the `signed char` of the source. The driver,
-- `tty->write`, is a parameter.
pub mod Cook
pub mod Read
pub mod Write
pub mod Ring
pub mod Lines
mod Tests
use liha_linux.Base.{◌%◌, ◌&&◌, ◌+◌, ◌-◌, ◌==◌, Bool, if◌then◌else◌, leb, ltb, update, ◌||◌, ℕ, ℤ}

abbrev pub tty_buf_size : ℕ
tty_buf_size = 1024

-- `struct tty_queue`, `q_data` for `data`; `head` and `tail` are below TTY_BUF_SIZE.
pub record Queue : Type 0 where
  pub q_data : ℕ
  pub head : ℕ
  pub tail : ℕ
  pub buf : ℕ → ℕ

-- INC and DEC.
abbrev pub inc : ℕ → ℕ
inc a = (a + 1) % tty_buf_size

abbrev pub dec : ℕ → ℕ
dec a = (a + (tty_buf_size - 1)) % tty_buf_size

-- EMPTY, LEFT, LAST, FULL, CHARS, GETCH, PUTCH.
abbrev pub is_empty : Queue → Bool
is_empty q = q.head == q.tail

abbrev pub left : Queue → ℕ
left q = (q.tail + (tty_buf_size - q.head) + (tty_buf_size - 1)) % tty_buf_size

abbrev pub last : Queue → ℕ
last q = q.buf (dec q.head)

abbrev pub is_full : Queue → Bool
is_full q = left q == 0

abbrev pub chars : Queue → ℕ
chars q = (q.head + (tty_buf_size - q.tail)) % tty_buf_size

pub getch : Queue → ℕ × Queue
getch q = (q.buf q.tail, record q { tail = inc q.tail })

pub putch : ℕ → Queue → Queue
putch c q = record q { buf = update q.buf q.head c; head = inc q.head }

-- `DEC(queue.head)`.
pub unput : Queue → Queue
unput q = record q { head = dec q.head }

-- The flags of `struct termios` that the code tests, and its control characters.
pub record Termios : Type 0 where
  pub icrnl : Bool
  pub igncr : Bool
  pub inlcr : Bool
  pub iuclc : Bool
  pub opost : Bool
  pub onlcr : Bool
  pub ocrnl : Bool
  pub onlret : Bool
  pub olcuc : Bool
  pub isig : Bool
  pub icanon : Bool
  pub echo : Bool
  pub echoctl : Bool
  pub c_cc : ℕ → ℕ

-- `struct tty_struct`.
pub record Tty : Type 0 where
  pub termios : Termios
  pub pgrp : ℤ
  pub stopped : Bool
  pub read_q : Queue
  pub write_q : Queue
  pub secondary : Queue

-- INTR_CHAR to STOP_CHAR, VTIME and VMIN by their indices in `c_cc`.
abbrev pub vintr : ℕ
vintr = 0

abbrev pub vquit : ℕ
vquit = 1

abbrev pub verase : ℕ
verase = 2

abbrev pub vkill : ℕ
vkill = 3

abbrev pub veof : ℕ
veof = 4

abbrev pub vtime : ℕ
vtime = 5

abbrev pub vmin : ℕ
vmin = 6

abbrev pub vstart : ℕ
vstart = 8

abbrev pub vstop : ℕ
vstop = 9

-- `c == tty->termios.c_cc[i]`: a negative character is no control character.
abbrev pub is_control : Termios → ℕ → ℕ → Bool
is_control t i c = ltb c 128 && (c == t.c_cc i)

-- `c == 10 || c == EOF_CHAR(tty)`.
abbrev pub ends_line : Termios → ℕ → Bool
ends_line t c = (c == 10) || is_control t veof c

-- `c < 32` for a signed character.
abbrev pub is_low : ℕ → Bool
is_low c = ltb c 32 || leb 128 c

-- A byte above 127 is taken to have no case; the source reads before its table there.
abbrev pub tolower : ℕ → ℕ
tolower c = if leb 65 c && leb c 90 then c + 32 else c

abbrev pub toupper : ℕ → ℕ
toupper c = if leb 97 c && leb c 122 then c - 32 else c
