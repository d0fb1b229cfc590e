-- ===== src/Bills/Calendar/Utc.antt =====
-- `Date.UTC` of real dates and of the day before the first of a month.
use native.Mathlib.Nat.{le_refl}
use homi_v.Prelude.{
  ℕ, suc, ◌+◌, ◌-◌, ◌*◌, ◌/◌, ◌%◌, ◌≤◌, ◌<◌, ◌≡◌, ap, ◌∙◌, inl, inr, true, false, List, arith, ltb,
  Bool-cases,
}
use homi_v.Bills.Calendar.{
  Date, date, is_leap, day_from_year, month_lengths, days_before, date_of, utc,
}
use homi_v.Bills.Calendar.Laws.{
  IsDate, days_in_month, day_number, date_of-IsDate, date_of-day_number, day_from_year-suc,
  day_from_year_mono, days_before-suc, days_before-zero,
}
use homi_v.Bills.Calendar.Order.{days_in_month_bounds, day_number_in_year}

abbrev lengths : ℕ → List ℕ
lengths y = month_lengths (is_leap y)

pub utc-day_number : (t : Date) → IsDate t → 100 ≤ t.year → utc t.year t.month t.day ≡ day_number t
unfolding utc day_number
utc-day_number t v modern =
    let large : ltb t.year 100 ≡ false = ground arith in
    let year : (t.year * 12 + t.month - 1) / 12 ≡ t.year = omega arith in
    let month : (t.year * 12 + t.month - 1) % 12 ≡ t.month - 1 = omega arith in
    rw (large, year, month) (omega arith)

-- The day before the first of the month after this one is this month's last.
utc_last :
    (y m : ℕ)
    → 100 ≤ y
    → 1 ≤ m
    → m ≤ 12
    → utc y (m + 1) 0 ≡ day_number (date y m (days_in_month y m))
unfolding utc day_number days_in_month
utc_last y m modern lo hi =
    let large : ltb y 100 ≡ false = ground arith in
    elim (Bool-cases (ltb m 12)) [
      | inl within ↦
          let year : (y * 12 + (m + 1) - 1) / 12 ≡ y = ground arith in
          let month : (y * 12 + (m + 1) - 1) % 12 ≡ m = ground arith in
          let before = days_before-suc (lengths y) (m - 1) in
          let back = ap (days_before (lengths y)) (suc_back m lo) in
          let some_days = days_in_month_bounds y m hi lo in
          rw (large, year, month) (omega (arith, before, back, some_days))
      | inr december ↦
          let year : (y * 12 + (m + 1) - 1) / 12 ≡ suc y = ground arith in
          let month : (y * 12 + (m + 1) - 1) % 12 ≡ 0 = ground arith in
          let before = days_before-suc (lengths y) (m - 1) in
          let back = ap (days_before (lengths y)) (suc_back m lo) in
          let whole = ap (days_before (lengths y)) (is_twelve m hi december) in
          let some_days = days_in_month_bounds y m hi lo in
          rw (large, year, month)
            (omega (
              arith,
              before,
              back,
              whole,
              some_days,
              day_from_year-suc y,
              days_before-zero (lengths (suc y)),
            ))
    ]
  where
    suc_back : (k : ℕ) → 1 ≤ k → suc (k - 1) ≡ k
    suc_back k h = omega arith

    is_twelve : (k : ℕ) → k ≤ 12 → ltb k 12 ≡ false → k ≡ 12
    is_twelve k h e = ground arith

last-IsDate : (y m : ℕ) → 1 ≤ m → m ≤ 12 → IsDate (date y m (days_in_month y m))
last-IsDate y m lo hi =
    let bounds = days_in_month_bounds y m hi lo in
    record { month_in = (lo, hi); day_in = (omega arith, le_refl _) }

-- The day of the month that `new Date(Date.UTC(y, m, 0)).getUTCDate()` gives is its length.
pub day-utc_last :
    (y m : ℕ) → 100 ≤ y → 1 ≤ m → m ≤ 12 → (date_of (utc y (m + 1) 0)).day ≡ days_in_month y m
day-utc_last y m modern lo hi =
    ap (λ n. (date_of n).day) (utc_last y m modern lo hi)
    ∙ ap Date.day (date_of-day_number _ (last-IsDate y m lo hi))

utc-ge : (y m d : ℕ) → y < 100 → day_from_year 1899 ≤ utc y m d + 1
unfolding utc
utc-ge y m d old =
    let small : ltb y 100 ≡ true = ground arith in
    let year : 1899 ≤ ((1900 + y) * 12 + m - 1) / 12 = omega arith in
    let start = day_from_year_mono 1899 (((1900 + y) * 12 + m - 1) / 12) year in
    rw small (omega (arith, start))

past_the_first_century : day_from_year 100 + 1 < day_from_year 1899
unfolding day_from_year
past_the_first_century = omega arith

-- The years 0 to 99 are read as those of the last century but one.
pub utc_old : (y m d : ℕ) → y < 100 → 100 ≤ (date_of (utc y m d)).year
utc_old y m d old =
    let n = utc y m d in
    let t = date_of n in
    let (real, number) = date_of-IsDate n in
    elim (Bool-cases (ltb t.year 100)) [
      | inl early ↦
          let end = day_from_year_mono (suc t.year) 100 (ground arith) in
          absurd (
            omega (
              arith,
              utc-ge y m d old,
              past_the_first_century,
              end,
              day_number_in_year t real,
              number,
            ))
      | inr late ↦ ground arith
    ]
