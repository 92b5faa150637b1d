-- ===== src/Datetime/Tests.antt =====
-- Dates of source/utils/clog_datetime.c, and the theorem at one.
use casca_log.Base.{◌-◌, ◌^◌, ◌≡◌, refl, arith}
use casca_log.Datetime.{
  total_days, timestamp_of_datetime, days_of_years, days_of_months, days_in_month, common_days,
  is_leap_year,
}
use casca_log.Datetime.Days.{date, nth_day, next_day, month_length, total_days-nth_day}

-- The 29th of February 2000, and the 1st of March.
leap_day : total_days (date 30 1 28) ≡ 11016
unfolding total_days days_of_years days_of_months days_in_month common_days is_leap_year
leap_day = refl

-- Midnight at the start of 1970 in a zone that is an hour ahead is negative.
ahead : timestamp_of_datetime (date 0 0 0) 1 0 ≡ 2 ^ 64 - 3600000
unfolding timestamp_of_datetime total_days days_of_years days_of_months days_in_month common_days
    is_leap_year
ahead = refl

-- The 61st day of 1970 is the 2nd of March.
total_days-nth_day_example : total_days (date 0 2 1) ≡ 60
unfolding nth_day next_day month_length
total_days-nth_day_example = total_days-nth_day 60 (omega arith) (omega arith)
