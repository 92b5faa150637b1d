-- ===== src/Datetime.antt =====
-- source/utils/clog_datetime.c: the time stamp of a date and a time, in milliseconds.
--
-- Years, months and the other fields are unsigned; an int64_t that is negative is taken modulo 2 ^ 64,
-- as the code adds it to a uint64_t.
pub mod Days
mod Tests
use casca_log.Base.{
  ℕ, zero, suc, ◌+◌, ◌-◌, ◌*◌, ◌%◌, ◌^◌, Bool, true, false, ◌&&◌, ◌||◌, not, if◌then◌else◌, ◌==◌,
  leb,
}

-- `clog_datetime_is_leap_year`.
unfoldable pub is_leap_year : ℕ → Bool
is_leap_year year = year % 4 == 0 && not (year % 100 == 0) || year % 400 == 0

-- `days` of `clog_datetime_days_in_month`, of a month from 1 to 12.
unfoldable pub common_days : ℕ → ℕ
common_days month =
    if month == 2
    then 28
    else if month == 4 || month == 6 || month == 9 || month == 11
    then 30
    else 31

-- `clog_datetime_days_in_month`.
unfoldable pub days_in_month : ℕ → ℕ → ℕ
days_in_month year month = if month == 2 && is_leap_year year then 29 else common_days month

-- The loop over the years from 1970 on, after so many rounds.
unfoldable pub days_of_years : ℕ → ℕ
days_of_years zero = 0
days_of_years (suc n) =
    let before = days_of_years n in if is_leap_year (1970 + n) then before + 366 else before + 365

-- The loop over the months from the first on, after so many rounds.
unfoldable pub days_of_months : ℕ → ℕ → ℕ
days_of_months year zero = 0
days_of_months year (suc n) = days_of_months year n + days_in_month year (suc n)

-- `clog_datetime_t`.
pub record Datetime : Type 0 where
  pub year : ℕ
  pub month : ℕ
  pub day : ℕ
  pub hour : ℕ
  pub minute : ℕ
  pub second : ℕ
  pub millisecond : ℕ

-- `total_days`; a day that is 0 makes it wrap around.
unfoldable pub total_days : Datetime → ℕ
total_days t =
    (days_of_years (t.year - 1970) + days_of_months t.year (t.month - 1) + t.day + (2 ^ 64 - 1))
    % 2 ^ 64

-- `clog_timestamp_of_datetime`, with the hours and minutes of the time zone modulo 2 ^ 64.
unfoldable pub timestamp_of_datetime : Datetime → ℕ → ℕ → ℕ
timestamp_of_datetime t tz_hour tz_minute =
    (total_days t * 86400000
      + t.hour * 3600000
      + (2 ^ 64 - tz_hour * 3600000 % 2 ^ 64)
      + t.minute * 60000
      + (2 ^ 64 - tz_minute * 60000 % 2 ^ 64)
      + t.second * 1000
      + t.millisecond)
    % 2 ^ 64
