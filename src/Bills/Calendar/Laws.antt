-- ===== src/Bills/Calendar/Laws.antt =====
-- Days and dates: each real date has one day, and each day one date.
use native.Mathlib.Nat.{zero-add, suc-add, le_refl}
use homi_v.Prelude.{
  ℕ, zero, suc, ◌+◌, ◌-◌, ◌*◌, ◌/◌, ◌≤◌, ◌<◌, ◌≡◌, refl, ap, ◌∙◌, inl, inr, List, [], ◌∷◌, length,
  arith, ltb, Bool-cases,
}
use homi_v.Bills.Calendar.{
  Date, date, is_leap, day_from_year, month_lengths, days_before, length_at, year_down, year_of,
  find_month, date_of,
}

abbrev pub lengths : ℕ → List ℕ
lengths y = month_lengths (is_leap y)

unfoldable pub days_in_month : ℕ → ℕ → ℕ
days_in_month y m = length_at (month_lengths (is_leap y)) (m - 1)

-- A date of the calendar.
pub record IsDate (t : Date) : Type 0 where
  pub day_in : (1 ≤ t.day) × (t.day ≤ days_in_month t.year t.month)
  pub month_in : (1 ≤ t.month) × (t.month ≤ 12)

unfoldable pub day_number : Date → ℕ
day_number t = day_from_year t.year + days_before (lengths t.year) (t.month - 1) + (t.day - 1)

pub day_from_year-suc :
    (y : ℕ) → day_from_year (suc y) ≡ day_from_year y + days_before (lengths y) 12
unfolding day_from_year days_before is_leap
day_from_year-suc y = ground arith

pub year_length : (y : ℕ) → (365 ≤ days_before (lengths y) 12) × (days_before (lengths y) 12 ≤ 366)
unfolding days_before
year_length y = ground arith

day_from_year-le : (y k : ℕ) → day_from_year y ≤ day_from_year (k + y)
day_from_year-le y zero = rw zero-add (le_refl _)
day_from_year-le y (suc k) =
    rw suc-add (omega (arith, day_from_year-le y k, day_from_year-suc (k + y), year_length (k + y)))

pub day_from_year_mono : (y z : ℕ) → y ≤ z → day_from_year y ≤ day_from_year z
day_from_year_mono y z h = omega (arith, day_from_year-le y (z - y), e)
  where
    e : day_from_year (z - y + y) ≡ day_from_year z
    e = ap day_from_year (omega arith)

day_from_year_start : (n : ℕ) → day_from_year 0 ≤ n
unfolding day_from_year
day_from_year_start n = omega arith

-- `year_down` finds the year of a day.
year_down_lem :
    (y n : ℕ)
    → n < day_from_year (suc y)
    → (day_from_year (year_down y n) ≤ n) × (n < day_from_year (suc (year_down y n)))
unfolding year_down
year_down_lem zero n h = (day_from_year_start n, h)
year_down_lem (suc y) n h = ground (arith, year_down_lem y n)

day_from_year-gt : (n : ℕ) → n < day_from_year (suc (n / 365))
day_from_year-gt n = omega (arith, grows (suc (n / 365)))
  where
    grows : (y : ℕ) → 365 * y ≤ day_from_year y
    grows zero = omega arith
    grows (suc y) = omega (arith, grows y, day_from_year-suc y, year_length y)

-- The year that contains the day.
pub year_of_bounds :
    (n : ℕ) → (day_from_year (year_of n) ≤ n) × (n < day_from_year (suc (year_of n)))
unfolding year_of
year_of_bounds n = year_down_lem (n / 365) n (day_from_year-gt n)

pub year_of_unique : (y n : ℕ) → day_from_year y ≤ n → n < day_from_year (suc y) → year_of n ≡ y
year_of_unique y n lo hi = elim (Bool-cases (ltb (year_of n) y)) [
  | inl below ↦
      let later = day_from_year_mono (suc (year_of n)) y (ground arith) in
      absurd (omega (arith, year_of_bounds n))
  | inr above ↦ elim (Bool-cases (ltb y (year_of n))) [
    | inl beyond ↦
        let later = day_from_year_mono (suc y) (year_of n) (ground arith) in
        absurd (omega (arith, year_of_bounds n))
    | inr same ↦ ground arith
  ]
]

-- The month is found that the days before it and the day in it lead to.
find_month_lem :
    (y m : ℕ) (ns : List ℕ) (i k : ℕ)
    → k < length_at ns i
    → find_month y m ns (days_before ns i + k) ≡ date y (m + i) (k + 1)
unfolding find_month days_before length_at
find_month_lem y m [] i k h = absurd (omega arith)
find_month_lem y m (n ∷ ns) zero k h = ground arith
find_month_lem y m (n ∷ ns) (suc i) k h = ground (arith, find_month_lem y (m + 1) ns i k h)

-- What `find_month` finds for a day of the year.
record Found (y m : ℕ) (ns : List ℕ) (k : ℕ) (t : Date) : Type 0 where
  pub index : ℕ
  pub rest : ℕ
  pub split : k ≡ days_before ns index + rest
  pub within : rest < length_at ns index
  pub bound : index < length ns
  pub is : t ≡ date y (m + index) (rest + 1)

find_month-Found :
    (y m : ℕ) (ns : List ℕ) (k : ℕ)
    → k < days_before ns (length ns)
    → Found y m ns k (find_month y m ns k)
unfolding find_month days_before length_at
find_month-Found y m [] k h = absurd (omega arith)
find_month-Found y m (n ∷ ns) k h = elim (Bool-cases (ltb k n)) [
  | inl here ↦ record {
    index = 0;
    rest = k;
    split = omega arith;
    within = ground arith;
    bound = omega arith;
    is = ground arith;
  }
  | inr later ↦
      let f = find_month-Found y (m + 1) ns (k - n) (ground arith) in
      record {
        index = suc f.index;
        rest = f.rest;
        split = ground (arith, f.split);
        within = f.within;
        bound = omega (arith, f.bound);
        is = ground (arith, f.is);
      }
]

Found-IsDate :
    (y k : ℕ) (t : Date)
    → Found y 1 (lengths y) k t
    → IsDate t × (day_number t ≡ day_from_year y + k)
unfolding day_number days_in_month
Found-IsDate y k t f = rw f.is (
  record {
    month_in = omega (arith, f.bound);
    day_in = rw (index_back f.index) (omega (arith, f.within));
  },
  rw (index_back f.index) (omega (arith, f.split)),
)
  where
    index_back : (i : ℕ) → 1 + i - 1 ≡ i
    index_back i = omega arith

-- A day has a date, whose day it is.
pub date_of-IsDate : (n : ℕ) → IsDate (date_of n) × (day_number (date_of n) ≡ n)
unfolding date_of
date_of-IsDate n =
    let y = year_of n in
    let k = n - day_from_year y in
    let start = year_of_bounds n in
    let f = find_month-Found y 1 (lengths y) k (omega (arith, start, day_from_year-suc y)) in
    let (real, number) = Found-IsDate y k _ f in (real, omega (arith, number, start))

pub days_before-zero : (ns : List ℕ) → days_before ns 0 ≡ 0
unfolding days_before
days_before-zero [] = refl
days_before-zero (n ∷ ns) = refl

pub days_before-suc :
    (ns : List ℕ) (i : ℕ) → days_before ns (suc i) ≡ days_before ns i + length_at ns i
unfolding days_before length_at
days_before-suc [] i = omega arith
days_before-suc (n ∷ ns) zero = omega (arith, days_before-zero ns)
days_before-suc (n ∷ ns) (suc i) = omega (arith, days_before-suc ns i)

-- Months do not overlap.
pub days_before-lt :
    (ns : List ℕ) (i j k : ℕ) → i < j → k < length_at ns i → days_before ns i + k < days_before ns j
unfolding days_before length_at
days_before-lt [] i j k h d = absurd (omega arith)
days_before-lt (n ∷ ns) i zero k h d = absurd (omega arith)
days_before-lt (n ∷ ns) zero (suc j) k h d = omega arith
days_before-lt (n ∷ ns) (suc i) (suc j) k h d =
    omega (arith, days_before-lt ns i j k (omega arith) d)

pub day_in_year :
    (t : Date)
    → IsDate t
    → days_before (lengths t.year) (t.month - 1) + (t.day - 1) < days_before (lengths t.year) 12
unfolding days_in_month
day_in_year t v =
    days_before-lt (lengths t.year) (t.month - 1) 12 (t.day - 1) (omega arith) (omega arith)

year_of-day_number : (t : Date) → IsDate t → year_of (day_number t) ≡ t.year
unfolding day_number
year_of-day_number t v =
    year_of_unique t.year _ (omega arith) (omega (arith, day_in_year t v, day_from_year-suc t.year))

-- A date is the date of its day.
pub date_of-day_number : (t : Date) → IsDate t → date_of (day_number t) ≡ t
unfolding date_of
date_of-day_number t v =
    rw (year_of-day_number t v, rest)
      (find_month_lem t.year 1 (lengths t.year) (t.month - 1) (t.day - 1) (within v) ∙ same)
  where
    rest :
        day_number t - day_from_year t.year
        ≡ days_before (lengths t.year) (t.month - 1) + (t.day - 1)
    rest = unfold day_number in omega arith

    within : IsDate t → t.day - 1 < length_at (lengths t.year) (t.month - 1)
    within v' = unfold days_in_month in omega arith

    same : date t.year (1 + (t.month - 1)) (t.day - 1 + 1) ≡ t
    same = ground arith
