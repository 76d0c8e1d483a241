-- ===== src/Clock.antt =====
-- The part of Python's `datetime` that the code uses. A time is the number of seconds since the
-- start of year 1 (UTC); a date is its day number, counted from 0.
pub mod Calendar
use saas_backend_api.Prelude.{
  ℕ, ◌+◌, ◌-◌, ◌*◌, ◌/◌, ◌%◌, Bool, ◌&&◌, ◌||◌, not, Option, none, some, ltb, leb, ◌==◌,
  if◌then◌else◌,
}

abbrev pub hour : ℕ
hour = 3600

abbrev pub day : ℕ
day = 86400

-- `datetime.date()`
abbrev pub date_of : ℕ → ℕ
date_of t = t / day

-- A calendar date.
pub record Date : Type 0 where
  pub year : ℕ
  pub month : ℕ
  pub dom : ℕ

unfoldable pub is_leap : ℕ → Bool
is_leap y = y % 4 == 0 && (not (y % 100 == 0) || y % 400 == 0)

-- The days before the year `y`, from the year 1.
abbrev pub days_before_year : ℕ → ℕ
days_before_year y = let p = y - 1 in 365 * p + p / 4 - p / 100 + p / 400

abbrev month_starts : ℕ → ℕ
month_starts m =
    if m == 1
    then 0
    else if m == 2
    then 31
    else if m == 3
    then 59
    else if m == 4
    then 90
    else if m == 5
    then 120
    else if m == 6
    then 151
    else if m == 7
    then 181
    else if m == 8
    then 212
    else if m == 9
    then 243
    else if m == 10
    then 273
    else if m == 11
    then 304
    else 334

unfoldable pub days_before_month : ℕ → ℕ → ℕ
days_before_month y m = month_starts m + (if ltb 2 m && is_leap y then 1 else 0)

unfoldable pub days_in_month : ℕ → ℕ → ℕ
days_in_month y m =
    if m == 2
    then (if is_leap y then 29 else 28)
    else if m == 4 || m == 6 || m == 9 || m == 11
    then 30
    else 31

-- The day number of a calendar date.
unfoldable pub ordinal : Date → ℕ
ordinal d = days_before_year d.year + days_before_month d.year d.month + d.dom - 1

-- The last month that starts on or before the day `n` of the year (from 0).
unfoldable pub month_at : ℕ → ℕ → ℕ
month_at y n =
    if ltb n (days_before_month y 2)
    then 1
    else if ltb n (days_before_month y 3)
    then 2
    else if ltb n (days_before_month y 4)
    then 3
    else if ltb n (days_before_month y 5)
    then 4
    else if ltb n (days_before_month y 6)
    then 5
    else if ltb n (days_before_month y 7)
    then 6
    else if ltb n (days_before_month y 8)
    then 7
    else if ltb n (days_before_month y 9)
    then 8
    else if ltb n (days_before_month y 10)
    then 9
    else if ltb n (days_before_month y 11)
    then 10
    else if ltb n (days_before_month y 12)
    then 11
    else 12

-- The year of a day number: the quotients by 400, 100, 4 and 1 years, where the last day of a
-- cycle would begin a fifth century or a fifth year.
unfoldable pub year_of : ℕ → ℕ
year_of n =
    let in_400 = n % 146097 in
    let in_100 = in_400 % 36524 in
    let in_4 = in_100 % 1461 in
    let y = n / 146097 * 400 + in_400 / 36524 * 100 + in_100 / 1461 * 4 + in_4 / 365 in
    if in_400 / 36524 == 4 || in_4 / 365 == 4 then y else y + 1

-- The calendar date of a day number.
unfoldable pub civil : ℕ → Date
civil n =
    let y = year_of n in
    let d = n - days_before_year y in
    let m = month_at y d in record { year = y; month = m; dom = d - days_before_month y m + 1 }

-- `replace(year=y)` of the time `tod` on a date: a `ValueError` (`none`) if the month has no such day
-- in that year. The largest year of `datetime`, 9999, is not modelled.
unfoldable pub replace_year : ℕ → Date → ℕ → Option ℕ
replace_year y d tod =
    if leb d.dom (days_in_month y d.month)
    then some (ordinal (record d { year = y }) * day + tod)
    else none

-- `start.replace(year=start.year + 50)`
unfoldable pub fifty_years_on : ℕ → Option ℕ
fifty_years_on t = let d = civil (date_of t) in replace_year (d.year + 50) d (t % day)

-- `d.replace(day=1)` of a date.
unfoldable pub month_start : ℕ → ℕ
month_start n = ordinal (record (civil n) { dom = 1 })
