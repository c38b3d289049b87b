-- ===== src/Mktime/Tests.antt =====
-- Tests and witnesses for kernel/mktime.c.
use liha_linux.Base.{◌-ℤ◌, ◌^◌, arith, if◌then◌else◌, ltb, negsuc, pos, some, ◌≡◌}
use liha_linux.Mktime.{kernel_mktime}
use liha_linux.Mktime.Calendar.{
  seconds_since_1970, days_before_year, days_before_month, tm_of, kernel_mktime_lem,
}

-- 17 September 1991, 12:30:00 UTC, is 685110600.
mktime_1991 : kernel_mktime (tm_of 21 8 17 12 30 0) ≡ some (pos 685110600)
unfolding seconds_since_1970 days_before_year days_before_month
mktime_1991 =
    kernel_mktime_lem 21 8 17 12 30 0 (omega arith) (omega arith) (omega arith, omega arith)
      (omega arith)

-- 1 February 2038, midnight, is 2148595200, and the result is negative.
kernel_mktime_lem_example :
    kernel_mktime (tm_of 68 1 1 0 0 0)
    ≡ some (
        if ltb (seconds_since_1970 68 1 1 0 0 0) (2 ^ 31)
        then pos (seconds_since_1970 68 1 1 0 0 0)
        else pos (seconds_since_1970 68 1 1 0 0 0) -ℤ pos (2 ^ 32))
unfolding seconds_since_1970 days_before_year days_before_month
kernel_mktime_lem_example =
    kernel_mktime_lem 68 1 1 0 0 0 (omega arith) (omega arith) (omega arith, omega arith)
      (omega arith)

mktime_2038 : kernel_mktime (tm_of 68 1 1 0 0 0) ≡ some (negsuc 2146372095)
unfolding seconds_since_1970 days_before_year days_before_month ◌-ℤ◌
mktime_2038 =
    kernel_mktime_lem 68 1 1 0 0 0 (omega arith) (omega arith) (omega arith, omega arith)
      (omega arith)
