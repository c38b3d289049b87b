-- ===== src/Tty/Read.antt =====
-- `tty_read` of kernel/chr_drv/tty_io.c, up to the point where it sleeps.
pub mod Bytes
pub mod Delivers
use Prim.Native.Nat.{bit_and}
use liha_linux.Base.{
  ◌%◌, ◌&&◌, ◌*◌, ◌+◌, ◌++◌, ◌-◌, ◌==◌, Bool, List, [], ◌^◌, false, if◌then◌else◌, leb, length, ltb,
  negsuc, not, pos, set, suc, true, zero, ◌||◌, ℕ, ℤ, ◌∷◌,
}
use liha_linux.Task.{Task}
use liha_linux.Sched.{bit_of, complement}
use liha_linux.Tty.{Queue, Tty, ends_line, getch, is_control, is_empty, left, veof, vtime, vmin}

-- ALRMMASK is the bit of SIGALRM.
abbrev pub sigalrm : ℕ
sigalrm = 14

-- The locals of an activation: the terminal and `*current`, `nr`, the bytes that `put_fs_byte` wrote
-- from `buf` to `b`, and `flag`.
pub record Reading : Type 0 where
  pub tty : Tty
  pub me : Task
  pub nr : ℕ
  pub out : List ℕ
  pub flag : Bool

-- How an activation ends: it returns or it sleeps in `sleep_if_empty`. Over a line that is not complete
-- it goes round its loop until an interrupt changes the queue, since `sleep_if_empty` does nothing for
-- a queue with characters; then it has no end, and all fuel runs out.
pub data Outcome : Type 0 where
  returns : ℤ → Reading → Outcome
  sleeps : Reading → Outcome
  out_of_fuel : Reading → Outcome

-- A character leaves the cooked queue; `data` is an unsigned long.
pub take_char : Queue → Bool → Queue
unfolding getch
take_char q ended =
    let rest = (getch q).1 in
    if ended then record rest { q_data = (rest.q_data + (2 ^ 32 - 1)) % 2 ^ 32 } else rest

-- The inner loop, `nr` at most `n`; `true` is its `return`.
pub read_chars : ℕ → Reading → Bool × Reading
read_chars zero r = (false, r)
read_chars (suc n) r =
    let t = r.tty.termios in
    let c = (getch r.tty.secondary).0 in
    let taken = record r {
      tty = record r.tty { secondary = take_char r.tty.secondary (ends_line t c) };
    } in
    let put = record taken { out = r.out ++ c ∷ []; nr = r.nr - 1 } in
    let more = read_chars n put in
    if is_control t veof c && t.icanon
    then (true, taken)
    else if (put.nr == 0) || is_empty put.tty.secondary
    then (false, put)
    else more

abbrev pub set_alarm : ℕ → Reading → Reading
set_alarm at r = record r { me = record r.me { alarm = at } }

abbrev pub alarmed : Reading → Bool
alarmed r = r.flag && not (bit_and r.me.signal (bit_of sigalrm) == 0)

abbrev pub clear_alarm : Reading → Reading
clear_alarm r = record r {
  me = record r.me { signal = bit_and r.me.signal (complement (bit_of sigalrm)) };
}

-- No line is complete, and there is room for one.
abbrev pub incomplete : Tty → Bool
incomplete tty = tty.termios.icanon && (tty.secondary.q_data == 0) && ltb 20 (left tty.secondary)

module _ (jiffies oldalarm : ℕ) where
  -- `!oldalarm || time+jiffies<oldalarm`.
  abbrev pub sooner : ℕ → Bool
  sooner time = (oldalarm == 0) || ltb (time + jiffies) oldalarm

  -- What follows the loop; EINTR is 4.
  pub finish : Reading → Outcome
  finish r =
      let restored = set_alarm oldalarm r in
      if not (r.me.signal == 0) && (length r.out == 0)
      then returns (negsuc 3) restored
      else returns (pos (length r.out)) restored

  -- `if (time && !L_CANON(tty))`, behind the inner loop.
  pub renew : ℕ → Reading → Reading
  renew time r =
      let renewed = record r {
        flag = sooner time;
        me = record r.me { alarm = if sooner time then time + jiffies else oldalarm };
      } in
      if not (time == 0) && not r.tty.termios.icanon then renewed else r

  -- The outer loop, with fuel for `n` rounds, for `time` and `minimum`.
  pub read_loop : ℕ → (time minimum : ℕ) → Reading → Outcome
  read_loop zero time minimum r = out_of_fuel r
  read_loop (suc n) time minimum r =
      let (returned, after) = read_chars r.nr r in
      let set = renew time after in
      let again = read_loop n time minimum set in
      let continued = read_loop n time minimum r in
      if r.nr == 0
      then finish r
      else if alarmed r
      then finish (clear_alarm r)
      else if not (r.me.signal == 0)
      then finish r
      else if is_empty r.tty.secondary
      then sleeps r
      else if incomplete r.tty
      then continued
      else if returned
      then returns (pos (length after.out)) after
      else if (if set.tty.termios.icanon
          then not (length set.out == 0)
          else leb minimum (length set.out))
      then finish set
      else again

  pub begin : (nr : ℕ) → Tty → Task → (flag : Bool) → (time : ℕ) → Reading
  begin nr tty me flag time = record {
    tty = tty;
    me = if flag then record me { alarm = time + jiffies } else me;
    nr = nr;
    out = [];
    flag = flag;
  }

  -- `channel` and `nr` are in range.
  pub tty_read : (fuel nr : ℕ) → Tty → Task → Outcome
  tty_read fuel nr tty me =
      let time = 10 * tty.termios.c_cc vtime in
      let wanted = tty.termios.c_cc vmin in
      let timed = not (time == 0) && (wanted == 0) in
      let minimum = if timed then 1 else wanted in
      let flag = timed && sooner time in
      let start = begin nr tty me flag time in
      read_loop fuel time (if ltb nr minimum then nr else minimum) start
