-- ===== src/Tty/Read/Delivers.antt =====
-- How an activation of `tty_read` (kernel/chr_drv/tty_io.c) ends, and what it has taken then.
use liha_linux.Base.{
  ◌==◌, Bool, List, [], false, if◌then◌else◌, leb, length, negsuc, not, pos, true, ℕ, ℤ, ◌≡◌,
}
use liha_linux.Task.{Task}
use liha_linux.Tty.{Tty, Termios, is_empty}
use liha_linux.Tty.Read.{
  read_loop, renew, Reading, Outcome, returns, sleeps, out_of_fuel, finish, incomplete,
}
use liha_linux.Tty.Read.Bytes.{Moved}

-- The result of the call: the number of bytes, or EINTR without any.
pub data Result (out : List ℕ) : ℤ → Type 0 where
  bytes : Result out (pos (length out))
  eintr : length out ≡ 0 → Result out (negsuc 3)

-- The loop goes round in this state with any fuel.
abbrev pub Endless : (jiffies oldalarm : ℕ) → Reading → Type 0
Endless jiffies oldalarm s =
    (time minimum n : ℕ) → read_loop jiffies oldalarm n time minimum s ≡ out_of_fuel s

-- What an activation comes to: a result, a sleep on an empty queue, or the loop without end over a
-- line that is not complete.
pub data Delivered (jiffies oldalarm : ℕ) (tm : Termios) (r : Reading) : Outcome → Type 0 where
  returned :
      {rest : List ℕ} {v : ℤ} {s : Reading}
      → Result s.out v
      → Moved tm rest r s
      → Delivered jiffies oldalarm tm r (returns v s)
  asleep :
      {s : Reading}
      → is_empty s.tty.secondary ≡ true
      → Moved tm [] r s
      → Delivered jiffies oldalarm tm r (sleeps s)
  endless :
      {s : Reading}
      → incomplete s.tty ≡ true
      → is_empty s.tty.secondary ≡ false
      → s.me.signal ≡ 0
      → Moved tm [] r s
      → Endless jiffies oldalarm s
      → Delivered jiffies oldalarm tm r (out_of_fuel s)

-- What follows the inner loop.
abbrev behind : (jiffies oldalarm n time minimum : ℕ) → Bool × Reading → Outcome
behind jiffies oldalarm n time minimum p =
    let set = renew jiffies oldalarm time p.1 in
    if p.0
    then returns (pos (length p.1.out)) p.1
    else if (if set.tty.termios.icanon
        then not (length set.out == 0)
        else leb minimum (length set.out))
    then finish jiffies oldalarm set
    else read_loop jiffies oldalarm n time minimum set
