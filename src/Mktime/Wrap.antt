-- ===== src/Mktime/Wrap.antt =====
-- Sums that wrap around (kernel/mktime.c): what wraps in the middle may wrap at the end.
use liha_linux.Base.{
  ◌*◌, ◌+◌, ◌-◌, ◌-ℤ◌, ◌<◌, ◌^◌, ap, arith, if◌then◌else◌, ltb, pos, pos-*ℤ, pos-+ℤ, pos--ℤ, ℕ, ℤ,
  ◌≡◌, ◌≤◌, ◌+ℤ◌,
}
use liha_linux.Mktime.{to_int, add, sub, mul}

-- The `long` of a number.
pub to_long : ℕ → ℤ
to_long n = to_int (pos n)

pub to_long-small : (n : ℕ) → n < 2 ^ 31 → to_long n ≡ pos n
unfolding to_long to_int
to_long-small n h = ground arith

pub to_long_lem :
    (n : ℕ) → n < 2 ^ 32 → to_long n ≡ (if ltb n (2 ^ 31) then pos n else pos n -ℤ pos (2 ^ 32))
unfolding to_long to_int ◌-ℤ◌
to_long_lem n h = ground arith

pub mul-pos : (a b : ℕ) → mul (pos a) (pos b) ≡ to_long (a * b)
unfolding mul to_long
mul-pos a b = ap to_int (pos-*ℤ a b)

pub add-pos : (a b : ℕ) → add (pos a) (pos b) ≡ to_long (a + b)
unfolding add to_long
add-pos a b = ap to_int (pos-+ℤ a b)

pub sub-pos : (a b : ℕ) → b ≤ a → sub (pos a) (pos b) ≡ to_long (a - b)
unfolding sub to_long
sub-pos a b h = ap to_int (pos--ℤ a b h)

pub add-to_long-pos : (a b : ℕ) → add (to_long a) (pos b) ≡ to_long (a + b)
unfolding add to_long to_int ◌+ℤ◌
add-to_long-pos a b = ground arith

pub add-to_long : (a b : ℕ) → add (to_long a) (to_long b) ≡ to_long (a + b)
unfolding add to_long to_int ◌+ℤ◌
add-to_long a b = ground arith

pub sub-to_long-pos : (a b : ℕ) → b ≤ a → sub (to_long a) (pos b) ≡ to_long (a - b)
unfolding sub to_long to_int ◌-ℤ◌
sub-to_long-pos a b h = ground arith
