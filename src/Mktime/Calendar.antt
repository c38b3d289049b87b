-- ===== src/Mktime/Calendar.antt =====
-- The calendar that kernel/mktime.c computes with: the Gregorian rule and the lengths of the months.
use liha_linux.Base.{
  ◌%◌, ◌&&◌, ◌*◌, ◌+◌, ◌-◌, ◌-ℤ◌, ◌/◌, ◌<◌, ◌==◌, Bool, List, [], ◌^◌, ap, arith, div_ℤ, false,
  get_or, if◌then◌else◌, ltb, ltb_ℤ_pos, not, pos, refl, rem_ℤ, some, suc, true, zero, ◌||◌, ℕ, ◌∙◌,
  ◌∷◌, ◌≡◌, ◌≤◌,
}
use liha_linux.Mktime.Wrap.{
  to_long, to_long-small, to_long_lem, mul-pos, add-pos, sub-pos, add-to_long-pos, add-to_long,
  sub-to_long-pos,
}
use liha_linux.Mktime.{add, sub, Tm, day, year, kernel_mktime, finish, month_at}

-- The Gregorian rule.
abbrev pub is_leap : ℕ → Bool
is_leap y = (y % 4 == 0) && (not (y % 100 == 0) || (y % 400 == 0))

abbrev pub days_in_year : ℕ → ℕ
days_in_year y = if is_leap y then 366 else 365

-- The days from 1 January 1970 to 1 January of the year 1970 + n.
unfoldable pub days_before_year : ℕ → ℕ
days_before_year zero = 0
days_before_year (suc n) = days_before_year n + days_in_year (1970 + n)

abbrev pub month_lengths : Bool → List ℕ
month_lengths leap =
    31 ∷ (if leap then 29 else 28) ∷ 31 ∷ 30 ∷ 31 ∷ 30 ∷ 31 ∷ 31 ∷ 30 ∷ 31 ∷ 30 ∷ 31 ∷ []

-- The days of the year before the first of month `m`, counted from 0.
unfoldable pub days_before_month : Bool → ℕ → ℕ
days_before_month leap zero = 0
days_before_month leap (suc m) = days_before_month leap m + get_or (month_lengths leap) m 0

unfoldable pub seconds_since_1970 : (y mon mday h m s : ℕ) → ℕ
seconds_since_1970 y mon mday h m s =
    86400 * (days_before_year y + days_before_month (is_leap (1970 + y)) mon + (mday - 1))
    + 3600 * h
    + 60 * m
    + s

pub days_before_year_closed : (n : ℕ) → n ≤ 130 → days_before_year n ≡ 365 * n + (n + 1) / 4
unfolding days_before_year
days_before_year_closed zero h = refl
days_before_year_closed (suc n) h = ground (arith, days_before_year_closed n)

abbrev pub tm_of : (y mon mday h m s : ℕ) → Tm
tm_of y mon mday h m s = record {
  tm_sec = pos s;
  tm_min = pos m;
  tm_hour = pos h;
  tm_mday = pos mday;
  tm_mon = pos mon;
  tm_year = pos (70 + y);
}

is_leap_lem : (y : ℕ) → y < 130 → is_leap (1970 + y) ≡ ((y + 2) % 4 == 0)
is_leap_lem y h = ground arith

month_table :
    (mon : ℕ)
    → mon < 12
    → (month_at (pos mon) ≡ some (86400 * days_before_month true mon))
      × (days_before_month true mon ≡ days_before_month false mon + (if ltb 1 mon then 1 else 0))
unfolding month_at days_before_month
month_table zero h = (refl, refl)
month_table (suc zero) h = (refl, refl)
month_table (suc (suc zero)) h = (refl, refl)
month_table (suc (suc (suc zero))) h = (refl, refl)
month_table (suc (suc (suc (suc zero)))) h = (refl, refl)
month_table (suc (suc (suc (suc (suc zero))))) h = (refl, refl)
month_table (suc (suc (suc (suc (suc (suc zero)))))) h = (refl, refl)
month_table (suc (suc (suc (suc (suc (suc (suc zero))))))) h = (refl, refl)
month_table (suc (suc (suc (suc (suc (suc (suc (suc zero)))))))) h = (refl, refl)
month_table (suc (suc (suc (suc (suc (suc (suc (suc (suc zero))))))))) h = (refl, refl)
month_table (suc (suc (suc (suc (suc (suc (suc (suc (suc (suc zero)))))))))) h = (refl, refl)
month_table (suc (suc (suc (suc (suc (suc (suc (suc (suc (suc (suc zero))))))))))) h = (refl, refl)
month_table (suc (suc (suc (suc (suc (suc (suc (suc (suc (suc (suc (suc m)))))))))))) h =
    absurd (omega arith)

-- `res -= DAY` under its test.
less_a_day :
    (c : Bool) (a : ℕ)
    → (c ≡ true → day ≤ a)
    → (if c then sub (to_long a) (pos day) else to_long a) ≡ to_long (if c then a - day else a)
less_a_day true a h = sub-to_long-pos a day (h refl)
less_a_day false a h = refl

-- The table counts 29 days for February, so a day goes from March on in a common year.
abbrev too_long : ℕ → ℕ → Bool
too_long y mon = ltb 1 mon && not ((y + 2) % 4 == 0)

abbrev Table : ℕ → Type 0
Table mon = days_before_month true mon ≡ days_before_month false mon + (if ltb 1 mon then 1 else 0)

abbrev long_year : ℕ → ℕ → ℕ
long_year y mon = year * y + day * ((y + 1) / 4) + 86400 * days_before_month true mon

enough : (y mon : ℕ) → Table mon → too_long y mon ≡ true → day ≤ long_year y mon
enough y mon table = ground arith

sum_of_days :
    (y mon mday : ℕ)
    → y < 130
    → Table mon
    → (if too_long y mon then long_year y mon - day else long_year y mon) + day * (mday - 1)
      ≡ 86400 * (days_before_year y + days_before_month ((y + 2) % 4 == 0) mon + (mday - 1))
sum_of_days y mon mday few table = ground (arith, days_before_year_closed y)

-- Two small numbers.
sum : (a b : ℕ) → a + b < 2 ^ 31 → add (pos a) (pos b) ≡ pos (a + b)
sum a b h = add-pos a b ∙ to_long-small (a + b) h

difference : (a : ℕ) → (1 ≤ a) × (a ≤ 2 ^ 31) → sub (pos a) (pos 1) ≡ pos (a - 1)
difference a h = sub-pos a 1 h.0 ∙ to_long-small (a - 1) (omega (arith, h))

finish_lem :
    (y mon mday h m s : ℕ)
    → y < 130
    → (1 ≤ mday) × (mday ≤ 2 ^ 31)
    → Table mon
    → finish (tm_of y mon mday h m s) (pos y) (86400 * days_before_month true mon)
      ≡ to_long (seconds_since_1970 y mon mday h m s)
unfolding finish seconds_since_1970 div_ℤ rem_ℤ
finish_lem y mon mday h m s few first table = simp (
  sum y 1 (omega arith),
  sum y 2 (omega arith),
  mul-pos,
  add-to_long-pos,
  add-to_long,
  ltb_ℤ_pos,
  difference mday first,
  is_leap_lem y few,
  less_a_day (too_long y mon) (long_year y mon) (enough y mon table),
  sum_of_days y mon mday few table,
)

since_70 : (y : ℕ) → y < 130 → sub (pos (70 + y)) (pos 70) ≡ pos y
since_70 y h =
    sub-pos (70 + y) 70 (omega arith)
    ∙ to_long-small (70 + y - 70) (omega arith)
    ∙ ap pos (omega arith)

kernel_mktime-to_long :
    (y mon mday h m s : ℕ)
    → y < 130
    → mon < 12
    → (1 ≤ mday) × (mday ≤ 2 ^ 31)
    → kernel_mktime (tm_of y mon mday h m s) ≡ some (to_long (seconds_since_1970 y mon mday h m s))
unfolding kernel_mktime
kernel_mktime-to_long y mon mday h m s few in_year first =
    rw (since_70 y few, (month_table mon in_year).0)
      (ap some (finish_lem y mon mday h m s few first (month_table mon in_year).1))

-- For a year from 1970 to 2099, a month from 0 to 11 and a day from 1 to 2^31, the result is the number
-- of seconds since 1 January 1970 by the Gregorian calendar, where that is below 2^32, as a `long` of
-- 32 bits: the number itself if it is below 2^31, which ends in January 2038, and else the number less
-- 2^32, which is negative.
pub kernel_mktime_lem :
    (y mon mday h m s : ℕ)
    → y < 130
    → mon < 12
    → (1 ≤ mday) × (mday ≤ 2 ^ 31)
    → seconds_since_1970 y mon mday h m s < 2 ^ 32
    → kernel_mktime (tm_of y mon mday h m s)
      ≡ some (
          if ltb (seconds_since_1970 y mon mday h m s) (2 ^ 31)
          then pos (seconds_since_1970 y mon mday h m s)
          else pos (seconds_since_1970 y mon mday h m s) -ℤ pos (2 ^ 32))
kernel_mktime_lem y mon mday h m s few in_year first fits =
    kernel_mktime-to_long y mon mday h m s few in_year first
    ∙ ap some (to_long_lem (seconds_since_1970 y mon mday h m s) fits)
