-- ===== src/Datetime/Days.antt =====
-- The days of source/utils/clog_datetime.c against the calendar.
use casca_log.Base.{
  Bool, List, [], ◌∷◌, refl, ℕ, zero, suc, ◌+◌, ◌-◌, ◌*◌, ◌/◌, ◌%◌, ◌≡◌, ◌<◌, true, false,
  if◌then◌else◌, ◌==◌, arith, Bool-cases, inl, inr, ltb, sym, ap, ◌∙◌, ◌^◌,
}
use casca_log.Datetime.{
  Datetime, total_days, is_leap_year, days_of_years, common_days, days_in_month, days_of_months,
}

-- The leap years up to a year.
abbrev pub leap_years : ℕ → ℕ
leap_years year = year / 4 + year / 400 - year / 100

is_zero : (x : ℕ) → (x == 0) ≡ true → x ≡ 0
is_zero x e = ground (arith, e)

not_zero : (x : ℕ) → (x == 0) ≡ false → 0 < x
not_zero x e = ground (arith, e)

-- Each year that is no leap year, and each that is.
leap_years-suc :
    (year : ℕ)
    → leap_years (suc year)
      ≡ (if is_leap_year (suc year) then leap_years year + 1 else leap_years year)
unfolding is_leap_year
leap_years-suc year = elim (Bool-cases (suc year % 4 == 0)) [
  | inl a ↦ elim (Bool-cases (suc year % 100 == 0)) [
    | inl b ↦ elim (Bool-cases (suc year % 400 == 0)) [
      | inl c ↦
          rw (a, b, c)
            (omega (
              arith,
              is_zero (suc year % 4) a,
              is_zero (suc year % 100) b,
              is_zero (suc year % 400) c,
            ))
      | inr c ↦
          rw (a, b, c)
            (omega (
              arith,
              is_zero (suc year % 4) a,
              is_zero (suc year % 100) b,
              not_zero (suc year % 400) c,
            ))
    ]
    | inr b ↦ rw (a, b) (omega (arith, is_zero (suc year % 4) a, not_zero (suc year % 100) b))
  ]
  | inr a ↦ elim (Bool-cases (suc year % 400 == 0)) [
    | inl c ↦ absurd (omega (arith, not_zero (suc year % 4) a, is_zero (suc year % 400) c))
    | inr c ↦ rw (a, c) (omega (arith, not_zero (suc year % 4) a, not_zero (suc year % 400) c))
  ]
]

-- The days before a year: 365 for each year from 1970 on, and one for each leap year.
days_of_years-leap_years :
    (n : ℕ) → days_of_years n + leap_years 1969 ≡ 365 * n + leap_years (1969 + n)
unfolding days_of_years
days_of_years-leap_years zero = omega arith
days_of_years-leap_years (suc n) =
    let ih = days_of_years-leap_years n in
    let step = leap_years-suc (1969 + n) in
    let next : suc (1969 + n) ≡ 1970 + n = omega arith in
    elim (Bool-cases (is_leap_year (suc (1969 + n)))) [
      | inl y ↦
          let e : is_leap_year (1970 + n) ≡ true = ap is_leap_year (sym next) ∙ y in
          let more : leap_years (suc (1969 + n)) ≡ leap_years (1969 + n) + 1 =
            step ∙ ap (λ b. if b then leap_years (1969 + n) + 1 else leap_years (1969 + n)) y in
          rw e (omega (arith, ih, more))
      | inr y ↦
          let e : is_leap_year (1970 + n) ≡ false = ap is_leap_year (sym next) ∙ y in
          let more : leap_years (suc (1969 + n)) ≡ leap_years (1969 + n) =
            step ∙ ap (λ b. if b then leap_years (1969 + n) + 1 else leap_years (1969 + n)) y in
          rw e (omega (arith, ih, more))
    ]

-- A date from 1970 on, at midnight, by the years, months and days that have passed.
abbrev pub date : ℕ → ℕ → ℕ → Datetime
date n m d = record {
  year = 1970 + n;
  month = suc m;
  day = suc d;
  hour = 0;
  minute = 0;
  second = 0;
  millisecond = 0;
}

abbrev days_before : ℕ → ℕ → ℕ → ℕ
days_before n m d = days_of_years n + days_of_months (1970 + n) m + d

total_days-date : (n m d : ℕ) → total_days (date n m d) ≡ days_before n m d % 2 ^ 64
unfolding total_days
total_days-date n m d =
    let years : 1970 + n - 1970 ≡ n = omega arith in
    let months : suc m - 1 ≡ m = omega arith in rw (years, months) (omega arith)

-- The calendar: a leap year every fourth year, but of the hundredth years only every fourth.
abbrev pub is_leap : ℕ → Bool
is_leap year = if year % 100 == 0 then year % 400 == 0 else year % 4 == 0

abbrev pub month_lengths : ℕ → List ℕ
month_lengths february = 31 ∷ february ∷ 31 ∷ 30 ∷ 31 ∷ 30 ∷ 31 ∷ 31 ∷ 30 ∷ 31 ∷ 30 ∷ 31 ∷ []

abbrev pub nth : List ℕ → ℕ → ℕ
nth [] m = 0
nth (x ∷ xs) zero = x
nth (x ∷ xs) (suc m) = nth xs m

-- The days of a month, from 0 for January on.
unfoldable pub month_length : ℕ → ℕ → ℕ
month_length year m = nth (month_lengths (if is_leap year then 29 else 28)) m

-- The day after a day, by the years, months and days that have passed since 1970 began.
unfoldable pub next_day : ℕ × ℕ × ℕ → ℕ × ℕ × ℕ
next_day (n, m, d) =
    if ltb (suc d) (month_length (1970 + n) m)
    then (n, m, suc d)
    else if ltb (suc m) 12
    then (n, suc m, 0)
    else (suc n, 0, 0)

-- The day so many days after the 1st of January 1970.
unfoldable pub nth_day : ℕ → ℕ × ℕ × ℕ
nth_day zero = (0, 0, 0)
nth_day (suc k) = next_day (nth_day k)

-- It as a date, at midnight.
abbrev pub date_of : ℕ × ℕ × ℕ → Datetime
date_of (n, m, d) = date n m d

is_leap_year-is_leap : (year : ℕ) → is_leap_year year ≡ is_leap year
unfolding is_leap_year
is_leap_year-is_leap year = elim (Bool-cases (year % 4 == 0)) [
  | inl a ↦ elim (Bool-cases (year % 100 == 0)) [ inl b ↦ rw (a, b) refl | inr b ↦ rw (a, b) refl ]
  | inr a ↦ elim (Bool-cases (year % 100 == 0)) [
    | inl b ↦ absurd (omega (arith, not_zero (year % 4) a, is_zero (year % 100) b))
    | inr b ↦ elim (Bool-cases (year % 400 == 0)) [
      | inl c ↦ absurd (omega (arith, not_zero (year % 4) a, is_zero (year % 400) c))
      | inr c ↦ rw (a, b, c) refl
    ]
  ]
]

days_in_month-month_length :
    (year m : ℕ) → m < 12 → days_in_month year (suc m) ≡ month_length year m
unfolding days_in_month common_days month_length
days_in_month-month_length year zero l = refl
days_in_month-month_length year (suc zero) l =
    rw (is_leap_year-is_leap year)
      (elim (Bool-cases (is_leap year)) [ inl y ↦ rw y refl | inr k ↦ rw k refl ])
days_in_month-month_length year (suc (suc zero)) l = refl
days_in_month-month_length year (suc (suc (suc zero))) l = refl
days_in_month-month_length year (suc (suc (suc (suc zero)))) l = refl
days_in_month-month_length year (suc (suc (suc (suc (suc zero))))) l = refl
days_in_month-month_length year (suc (suc (suc (suc (suc (suc zero)))))) l = refl
days_in_month-month_length year (suc (suc (suc (suc (suc (suc (suc zero))))))) l = refl
days_in_month-month_length year (suc (suc (suc (suc (suc (suc (suc (suc zero)))))))) l = refl
days_in_month-month_length year (suc (suc (suc (suc (suc (suc (suc (suc (suc zero))))))))) l = refl
days_in_month-month_length year (suc (suc (suc (suc (suc (suc (suc (suc (suc (suc zero)))))))))) l =
    refl
days_in_month-month_length year
      (suc (suc (suc (suc (suc (suc (suc (suc (suc (suc (suc zero))))))))))) l =
    refl
days_in_month-month_length year
      (suc (suc (suc (suc (suc (suc (suc (suc (suc (suc (suc (suc m)))))))))))) l =
    absurd (omega (arith, l))

month_there : (year month : ℕ) → 0 < days_in_month year month
unfolding days_in_month common_days
month_there year month = ground arith

whole_year :
    (n : ℕ)
    → days_of_years (suc n)
      ≡ days_of_years n + days_of_months (1970 + n) 11 + days_in_month (1970 + n) 12
unfolding days_of_years days_of_months days_in_month common_days
whole_year n = elim (Bool-cases (is_leap_year (1970 + n))) [
  | inl y ↦ rw y (omega arith)
  | inr y ↦ rw y (omega arith)
]

-- A day of the calendar, and how many days it is after the first.
record Is (k : ℕ) (x : ℕ × ℕ × ℕ) : Type 0 where
  month : x.1 < 12
  day : x.2 < month_length (1970 + x.0) x.1
  before : days_before x.0 x.1 x.2 ≡ k

one_there : (year m : ℕ) → m < 12 → 0 < month_length year m
one_there year m l =
    let e = days_in_month-month_length year m l in
    let p = month_there year (suc m) in omega (arith, e, p)

next_day-Is : (k : ℕ) (x : ℕ × ℕ × ℕ) → Is k x → Is (suc k) (next_day x)
unfolding next_day days_of_months
next_day-Is k (n, m, d) h =
    let lm = h.month in
    let ld = h.day in
    let now = h.before in
    let here = days_in_month-month_length (1970 + n) m lm in
    elim (Bool-cases (ltb (suc d) (month_length (1970 + n) m))) [
      | inl y ↦ rw y (record { month = lm; day = ground (arith, y); before = omega (arith, now) })
      | inr over ↦
          let last : suc d ≡ month_length (1970 + n) m = ground (arith, over, ld) in
          elim (Bool-cases (ltb (suc m) 12)) [
            | inl y ↦
                let lm' : suc m < 12 = ground (arith, y) in
                rw (over, y)
                  (record {
                    month = lm';
                    day = one_there (1970 + n) (suc m) lm';
                    before = omega (arith, now, last, here);
                  })
            | inr j ↦
                let december : m ≡ 11 = ground (arith, j, lm) in
                let same = ap (λ i. days_of_months (1970 + n) i) december in
                let length = ap (λ i. days_in_month (1970 + n) (suc i)) december in
                rw (over, j)
                  (record {
                    month = omega arith;
                    day = one_there (1970 + suc n) 0 (omega arith);
                    before = omega (arith, now, last, here, same, length, whole_year n);
                  })
          ]
    ]

nth_day-Is : (k : ℕ) → Is k (nth_day k)
unfolding nth_day
nth_day-Is zero =
    unfold days_of_years in
    unfold days_of_months in
    unfold month_length in record { month = omega arith; day = omega arith; before = refl }
nth_day-Is (suc k) = next_day-Is k (nth_day k) (nth_day-Is k)

-- By the calendar, with a table of its months and the Gregorian leap years: the days that are counted
-- for the date so many days after the 1st of January 1970 are that many, for a number of 64 bits and as
-- long as the year is one of 16 bits.
pub total_days-nth_day :
    (k : ℕ)
    → (date_of (nth_day k)).year < 2 ^ 16
    → k < 2 ^ 64
    → total_days (date_of (nth_day k)) ≡ k
total_days-nth_day k y l =
    let h = (nth_day-Is k).before in
    let t = total_days-date (nth_day k).0 (nth_day k).1 (nth_day k).2 in omega (arith, h, t, l)
