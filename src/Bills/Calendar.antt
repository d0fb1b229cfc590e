-- ===== src/Bills/Calendar.antt =====
-- The language's `Date`, as far as schedule.ts uses it: `Date.UTC` and the UTC getters. A day is
-- counted from the first of January of the year 0.
pub mod Laws
pub mod Order
pub mod Utc
use homi_v.Prelude.{
  ℕ, zero, suc, ◌+◌, ◌-◌, ◌*◌, ◌/◌, ◌%◌, Bool, not, ◌&&◌, ◌||◌, List, [], ◌∷◌, ltb, leb, ◌==◌,
  if◌then◌else◌,
}

-- The month is counted from 1 here.
pub record Date : Type 0 where
  pub year : ℕ
  pub month : ℕ
  pub day : ℕ

unfoldable pub is_leap : ℕ → Bool
is_leap y = y % 4 == 0 && (not (y % 100 == 0) || y % 400 == 0)

abbrev pub date : ℕ → ℕ → ℕ → Date
date year month day = record { day = day; month = month; year = year }

-- The day on which a year begins.
unfoldable pub day_from_year : ℕ → ℕ
day_from_year y = 365 * y + (y + 3) / 4 + (y + 399) / 400 - (y + 99) / 100

abbrev pub month_lengths : Bool → List ℕ
month_lengths leap =
    31 ∷ (if leap then 29 else 28) ∷ 31 ∷ 30 ∷ 31 ∷ 30 ∷ 31 ∷ 31 ∷ 30 ∷ 31 ∷ 30 ∷ 31 ∷ []

-- The days before the month of this index, and the length of that month.
unfoldable pub days_before : List ℕ → ℕ → ℕ
days_before [] i = 0
days_before (n ∷ ns) zero = 0
days_before (n ∷ ns) (suc i) = n + days_before ns i

unfoldable pub length_at : List ℕ → ℕ → ℕ
length_at [] i = 0
length_at (n ∷ ns) zero = n
length_at (n ∷ ns) (suc i) = length_at ns i

-- The greatest year of those that begin on the day or before it.
unfoldable pub year_down : ℕ → ℕ → ℕ
year_down zero n = zero
year_down (suc y) n = if leb (day_from_year (suc y)) n then suc y else year_down y n

unfoldable pub year_of : ℕ → ℕ
year_of n = year_down (n / 365) n

unfoldable pub find_month : ℕ → ℕ → List ℕ → ℕ → Date
find_month y m [] k = date y m (k + 1)
find_month y m (n ∷ ns) k = if ltb k n then date y m (k + 1) else find_month y (m + 1) ns (k - n)

-- `getUTCFullYear()`, `getUTCMonth() + 1` and `getUTCDate()` of a day.
unfoldable pub date_of : ℕ → Date
date_of n = let y = year_of n in find_month y 1 (month_lengths (is_leap y)) (n - day_from_year y)

-- `Date.UTC(y, m - 1, d)`: a month out of range moves the year, a day out of range moves on, and
-- the years 0 to 99 stand for 1900 to 1999.
unfoldable pub utc : ℕ → ℕ → ℕ → ℕ
utc y m d =
    let months = (if ltb y 100 then 1900 + y else y) * 12 + m - 1 in
    let year = months / 12 in
    day_from_year year + days_before (month_lengths (is_leap year)) (months % 12) + d - 1

-- `getUTCDay()`: Sunday is 0.
unfoldable pub weekday : ℕ → ℕ
weekday n = (n + 6) % 7
