-- ===== src/Clock/Calendar.antt =====
-- The calendar behind `Clock`, and the date fifty years on.
use saas_backend_api.Prelude.{
  ℕ, ◌+◌, ◌-◌, ◌≤◌, ◌<◌, ◌≡◌, refl, true, false, none, some, arith, ◌⊎◌, ◌↔◌, if◌then◌else◌,
}
use saas_backend_api.Clock.{
  date_of, is_leap, days_before_year, days_before_month, days_in_month, ordinal, month_at, year_of,
  civil, replace_year, fifty_years_on,
}

-- The year of a day number begins on or before it, and the next year after it.
pub year_of_bounds :
    (n : ℕ) → (days_before_year (year_of n) ≤ n) × (n < days_before_year (year_of n + 1))
unfolding year_of
year_of_bounds n = ground arith

-- The month of a day of the year begins on or before it.
pub month_at_le : (y d : ℕ) → days_before_month y (month_at y d) ≤ d
unfolding month_at days_before_month
month_at_le y d = ground arith

-- The date of a day number has that number.
pub ordinal-civil : (n : ℕ) → ordinal (civil n) ≡ n
unfolding ordinal civil
ordinal-civil n =
    omega (arith, year_of_bounds n, month_at_le (year_of n) (n - days_before_year (year_of n)))

pub days_in_month_february : (y : ℕ) → days_in_month y 2 ≡ (if is_leap y then 29 else 28)
unfolding days_in_month
days_in_month_february y = refl

pub not_leap-fifty : (y : ℕ) → is_leap y ≡ true → is_leap (y + 50) ≡ false
unfolding is_leap
not_leap-fifty y h = ground arith

-- A date is missing fifty years on only if the month is shorter there.
pub days_in_month-fifty :
    (y m : ℕ) → (days_in_month y m ≤ days_in_month (y + 50) m) ⊎ ((m ≡ 2) × (is_leap y ≡ true))
unfolding days_in_month is_leap
days_in_month-fifty y m = ground arith

pub year_of_pos : (n : ℕ) → 0 < year_of n
unfolding year_of
year_of_pos n = ground arith

year_length :
    (y : ℕ)
    → 0 < y
    → days_before_year (y + 1) ≡ days_before_year y + (if is_leap y then 366 else 365)
unfolding is_leap
year_length y h = ground arith

month_at-days_in_month :
    (y d : ℕ)
    → d < (if is_leap y then 366 else 365)
    → d < days_before_month y (month_at y d) + days_in_month y (month_at y d)
unfolding days_before_month days_in_month month_at
month_at-days_in_month y d h = ground arith

civil-year_pos : (n : ℕ) → 0 < (civil n).year
unfolding civil
civil-year_pos n = year_of_pos n

-- The date of a day number is a date of its month.
pub civil-dom_le : (n : ℕ) → (civil n).dom ≤ days_in_month (civil n).year (civil n).month
unfolding civil
civil-dom_le n =
    let y = year_of n in
    omega (
      arith,
      year_of_bounds n,
      month_at_le y (n - days_before_year y),
      month_at-days_in_month y (n - days_before_year y)
          (omega (arith, year_of_bounds n, year_length y (year_of_pos n))),
    )

-- The same date exists fifty years on for every day but 29 February.
pub fifty_years_on-eq-none_iff :
    (t : ℕ)
    → (fifty_years_on t ≡ none) ↔ (((civil (date_of t)).month ≡ 2) × ((civil (date_of t)).dom ≡ 29))
unfolding fifty_years_on replace_year
fifty_years_on-eq-none_iff t =
    let d = civil (date_of t) in
    let fits = civil-dom_le (date_of t) in
    (
      λ h. ground (
        arith,
        days_in_month-fifty d.year d.month,
        days_in_month_february d.year,
        days_in_month_february (d.year + 50),
      ),
      λ h. ground (
        arith,
        days_in_month_february d.year,
        days_in_month_february (d.year + 50),
        not_leap-fifty d.year,
      ),
    )

fifty_years_later :
    (y m k : ℕ)
    → 0 < y
    → ordinal (record { year = y; month = m; dom = k }) + 18000
      ≤ ordinal (record { year = y + 50; month = m; dom = k })
unfolding ordinal days_before_month
fifty_years_later y m k h = ground arith

-- The date fifty years on is later.
pub fifty_years_on-lt : (t r : ℕ) → fifty_years_on t ≡ some r → t < r
unfolding fifty_years_on replace_year
fifty_years_on-lt t r h =
    let d = civil (date_of t) in
    ground (
      arith,
      ordinal-civil (date_of t),
      fifty_years_later d.year d.month d.dom (civil-year_pos (date_of t)),
    )
