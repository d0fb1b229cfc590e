-- ===== src/Bills/Calendar/Order.antt =====
-- Days are ordered as their dates are, and bounds on a day are bounds on its year.
use homi_v.Prelude.{
  ℕ, zero, suc, ◌-◌, ◌≤◌, ◌<◌, ◌≡◌, sym, ap, ◌∙◌, inl, inr, Bool, true, false, ◌&&◌, ◌||◌, List, [],
  ◌∷◌, length, All, arith, ltb, lt→ltb, ◌==◌, Bool-cases,
}
use homi_v.Bills.Calendar.{
  Date, is_leap, day_from_year, month_lengths, days_before, length_at, date_of,
}
use homi_v.Bills.Calendar.Laws.{
  lengths, days_in_month, IsDate, day_number, day_from_year-suc, day_from_year_mono, day_in_year,
  date_of-day_number, days_before-lt,
}

pub day_number-injective : (s t : Date) → IsDate s → IsDate t → day_number s ≡ day_number t → s ≡ t
day_number-injective s t v w e =
    sym (date_of-day_number s v) ∙ (ap date_of e ∙ date_of-day_number t w)

-- Dates are ordered by year, month and day.
abbrev pub earlier : Date → Date → Bool
earlier s t =
    ltb s.year t.year
    || (s.year == t.year && (ltb s.month t.month || (s.month == t.month && ltb s.day t.day)))

same_year-lt :
    (s t : Date)
    → IsDate s
    → s.year ≡ t.year
    → IsDate t
    → (ltb s.month t.month || (s.month == t.month && ltb s.day t.day)) ≡ true
    → day_number s < day_number t
unfolding day_number days_in_month
same_year-lt s t v same w h =
    let year = ap day_from_year same in
    let table = ap (λ y. days_before (lengths y) (t.month - 1)) same in
    elim (Bool-cases (ltb s.month t.month)) [
      | inl month ↦
          let months =
            days_before-lt (lengths s.year) (s.month - 1) (t.month - 1) (s.day - 1) (ground arith)
              (omega arith) in
          omega (arith, year, table, months)
      | inr months ↦
          let month : s.month ≡ t.month = ground arith in
          let day : s.day < t.day = ground arith in
          omega (arith, year, table, ap (λ m. days_before (lengths s.year) (m - 1)) month)
    ]

day_number-lt :
    (s t : Date) → IsDate s → IsDate t → earlier s t ≡ true → day_number s < day_number t
unfolding day_number
day_number-lt s t v w h = elim (Bool-cases (ltb s.year t.year)) [
  | inl year ↦ omega (
    arith,
    day_in_year s v,
    day_from_year-suc s.year,
    day_from_year_mono (suc s.year) t.year (ground arith),
  )
  | inr years ↦
      let same : s.year ≡ t.year = ground arith in
      let rest : (ltb s.month t.month || (s.month == t.month && ltb s.day t.day)) ≡ true =
        ground arith in
      same_year-lt s t v same w rest
]

-- Dates are ordered as their days are.
pub earlier-eq-ltb :
    (s t : Date) → IsDate s → IsDate t → earlier s t ≡ ltb (day_number s) (day_number t)
earlier-eq-ltb s t v w = elim (Bool-cases (earlier s t)) [
  | inl before ↦ before ∙ sym (lt→ltb _ _ (day_number-lt s t v w before))
  | inr after ↦ elim (Bool-cases (earlier t s)) [
    | inl later ↦ let lt = day_number-lt t s w v later in after ∙ ground arith
    | inr neither ↦
        let same : s ≡ t = ground arith in let number = ap day_number same in after ∙ ground arith
  ]
]

abbrev IsLength : ℕ → Type 0
IsLength n = (28 ≤ n) × (n ≤ 31)

All-length_at : (ns : List ℕ) (i : ℕ) → All IsLength ns → i < length ns → IsLength (length_at ns i)
unfolding length_at
All-length_at [] i h b = absurd (omega arith)
All-length_at (n ∷ ns) zero h b = h.0
All-length_at (n ∷ ns) (suc i) h b = All-length_at ns i h.1 (omega arith)

month_lengths-IsLength : (l : Bool) → All IsLength (month_lengths l)
month_lengths-IsLength true = omega arith
month_lengths-IsLength false = omega arith

pub days_in_month_bounds :
    (y m : ℕ) → m ≤ 12 → 1 ≤ m → (28 ≤ days_in_month y m) × (days_in_month y m ≤ 31)
unfolding days_in_month
days_in_month_bounds y m hi lo =
    All-length_at (lengths y) (m - 1) (month_lengths-IsLength (is_leap y)) (omega arith)

pub day_number_in_year :
    (t : Date)
    → IsDate t
    → (day_from_year t.year ≤ day_number t) × (day_number t < day_from_year (suc t.year))
unfolding day_number
day_number_in_year t v = omega (arith, day_in_year t v, day_from_year-suc t.year)

-- The year of a day, from bounds on the day.
pub year-ge : (y : ℕ) (t : Date) → IsDate t → day_from_year y ≤ day_number t → y ≤ t.year
year-ge y t v h = elim (Bool-cases (ltb t.year y)) [
  | inl early ↦
      let start = day_from_year_mono (suc t.year) y (ground arith) in
      absurd (omega (arith, day_number_in_year t v))
  | inr late ↦ ground arith
]

pub year-lt : (y : ℕ) (t : Date) → IsDate t → day_number t < day_from_year y → t.year < y
year-lt y t v h = elim (Bool-cases (ltb t.year y)) [
  | inl early ↦ ground arith
  | inr late ↦
      let start = day_from_year_mono y t.year (ground arith) in
      absurd (omega (arith, day_number_in_year t v))
]
