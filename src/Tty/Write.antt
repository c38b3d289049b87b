-- ===== src/Tty/Write.antt =====
-- `tty_write` of kernel/chr_drv/tty_io.c, up to the points where it gives up the processor.
pub mod Rendered
use liha_linux.Base.{
  ◌&&◌, ◌+◌, ◌==◌, Bool, List, [], false, if◌then◌else◌, length, not, suc, true, zero, ℕ, ◌∷◌,
}
use liha_linux.Tty.{Queue, Termios, Tty, is_full, left, putch, toupper}

-- The locals of an activation, with the static `cr_flag`: the bytes from `b` on, `b-buf`.
pub record Writing : Type 0 where
  pub write_q : Queue
  pub cr_flag : Bool
  pub todo : List ℕ
  pub count : ℕ

-- `c` behind the tests for CR and NL, and what is put for it in the end.
abbrev pub out_newline : Termios → ℕ → ℕ
out_newline t c =
    if t.opost
    then (if (c == 13) && t.ocrnl then 10 else if (c == 10) && t.onlret then 13 else c)
    else c

abbrev pub out_case : Termios → ℕ → ℕ
out_case t c = if t.opost && t.olcuc then toupper c else c

-- A return is put before the newline `c`.
abbrev pub wants_return : Termios → Bool → ℕ → Bool
wants_return t cr c = t.opost && ((c == 10) && (not cr && t.onlcr))

-- One round: the return goes in by itself, and the character is read again.
pub put_one : Termios → ℕ → List ℕ → Writing → Writing
unfolding putch
put_one t c rest w =
    let n = out_newline t c in
    if wants_return t w.cr_flag n
    then record w { cr_flag = true; write_q = putch 13 w.write_q }
    else record {
      write_q = putch (out_case t n) w.write_q;
      cr_flag = false;
      todo = rest;
      count = w.count + 1;
    }

-- `while (nr>0 && !FULL(tty->write_q))`, at most `n` rounds, each of which puts a character.
pub fill : ℕ → Termios → Writing → Writing
fill zero t w = w
fill (suc n) t w = elim (w.todo) as (λ _. Writing) [
  | [] ↦ w
  | c ∷ rest ↦ let more = fill n t (put_one t c rest w) in if is_full w.write_q then w else more
]

-- How an activation ends: it returns a count, it sleeps in `sleep_if_full`, or it calls `schedule`
-- with bytes left.
pub data Outcome : Type 0 where
  returns : ℕ → Writing → Tty → Outcome
  sleeps : Writing → Tty → Outcome
  yields : Writing → Tty → Outcome

abbrev pub with_queue : Queue → Tty → Tty
with_queue q tty = record tty { write_q = q }

-- From the head of the loop on, for `current->signal`.
pub write_round : (Tty → Tty) → (signal : ℕ) → Writing → Tty → Outcome
write_round write signal w tty =
    let filled = fill (left w.write_q) tty.termios w in
    let written = write (with_queue filled.write_q tty) in
    if length w.todo == 0
    then returns w.count w tty
    else if is_full w.write_q && (signal == 0)
    then sleeps w tty
    else if not (signal == 0)
    then returns w.count w tty
    else if length filled.todo == 0
    then returns filled.count (record filled { write_q = written.write_q }) written
    else yields (record filled { write_q = written.write_q }) written

abbrev pub begin : Queue → Bool → List ℕ → Writing
begin q cr_flag buf = record { write_q = q; cr_flag = cr_flag; todo = buf; count = 0 }

-- `channel` is in range.
pub tty_write : (Tty → Tty) → (signal : ℕ) → (cr_flag : Bool) → List ℕ → Tty → Outcome
tty_write write signal cr_flag buf tty =
    let start = begin tty.write_q cr_flag buf in write_round write signal start tty
