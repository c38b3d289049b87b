-- ===== src/Mktime.antt =====
-- kernel/mktime.c: the seconds since 1970 of a broken-down time. `int` and `long` are integers of 32
-- bits; a sum, a difference or a product wraps around.
pub mod Wrap
pub mod Calendar
mod Tests
use mathlib.Core.Option
use mathlib.Core.Bool
use liha_linux.Base.{
  ◌%◌, ◌&&◌, ◌*◌, ◌*ℤ◌, ◌+◌, ◌+ℤ◌, ◌-◌, ◌-ℤ◌, ◌==◌, Bool, List, Option, [], ◌^◌, div_ℤ, false,
  get_elem?, if◌then◌else◌, ltb, ltb_ℤ, negsuc, none, not, pos, rem_ℤ, ℕ, ℤ, ◌∷◌,
}

-- `struct tm`, the fields that the kernel fills in.
pub record Tm : Type 0 where
  pub tm_sec : ℤ
  pub tm_min : ℤ
  pub tm_hour : ℤ
  pub tm_mday : ℤ
  pub tm_mon : ℤ
  pub tm_year : ℤ

abbrev pub minute : ℕ
minute = 60

abbrev pub hour : ℕ
hour = 60 * minute

abbrev pub day : ℕ
day = 24 * hour

abbrev pub year : ℕ
year = 365 * day

-- The table `month`, with 29 days for February.
abbrev pub month : List ℕ
month =
    0
    ∷ (day * 31)
    ∷ (day * (31 + 29))
    ∷ (day * (31 + 29 + 31))
    ∷ (day * (31 + 29 + 31 + 30))
    ∷ (day * (31 + 29 + 31 + 30 + 31))
    ∷ (day * (31 + 29 + 31 + 30 + 31 + 30))
    ∷ (day * (31 + 29 + 31 + 30 + 31 + 30 + 31))
    ∷ (day * (31 + 29 + 31 + 30 + 31 + 30 + 31 + 31))
    ∷ (day * (31 + 29 + 31 + 30 + 31 + 30 + 31 + 31 + 30))
    ∷ (day * (31 + 29 + 31 + 30 + 31 + 30 + 31 + 31 + 30 + 31))
    ∷ (day * (31 + 29 + 31 + 30 + 31 + 30 + 31 + 31 + 30 + 31 + 30))
    ∷ []

-- `month[i]`; `none` is an access outside the array.
pub month_at : ℤ → Option ℕ
month_at (pos i) = get_elem? month i
month_at (negsuc i) = none

is_zero : ℤ → Bool
is_zero (pos n) = n == 0
is_zero (negsuc n) = false

-- A number of 32 bits with its sign.
pub to_int : ℤ → ℤ
to_int (pos n) = let r = n % 2 ^ 32 in if ltb r (2 ^ 31) then pos r else negsuc (2 ^ 32 - 1 - r)
to_int (negsuc n) = let r = n % 2 ^ 32 in if ltb r (2 ^ 31) then negsuc r else pos (2 ^ 32 - 1 - r)

pub add : ℤ → ℤ → ℤ
unfolding to_int
add a b = to_int (a +ℤ b)

pub sub : ℤ → ℤ → ℤ
unfolding to_int
sub a b = to_int (a -ℤ b)

pub mul : ℤ → ℤ → ℤ
unfolding to_int
mul a b = to_int (a *ℤ b)

-- The result once the table has been read.
finish : Tm → ℤ → ℕ → ℤ
unfolding is_zero add sub mul
finish tm y m =
    let res = add (mul (pos year) y) (mul (pos day) (div_ℤ (add y (pos 1)) 4)) in
    let res = add res (pos m) in
    let res =
      if ltb_ℤ (pos 1) tm.tm_mon && not (is_zero (rem_ℤ (add y (pos 2)) 4))
      then sub res (pos day)
      else res in
    let res = add res (mul (pos day) (sub tm.tm_mday (pos 1))) in
    let res = add res (mul (pos hour) tm.tm_hour) in
    let res = add res (mul (pos minute) tm.tm_min) in add res tm.tm_sec

pub kernel_mktime : Tm → Option ℤ
unfolding finish month_at
kernel_mktime tm =
    let y = sub tm.tm_year (pos 70) in Option.map (λ m. finish tm y m) (month_at tm.tm_mon)
