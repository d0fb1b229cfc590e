-- ===== src/Bills/Schedule/Due.antt =====
-- What a due date is, without the search: the day of a month or of a week that a schedule names.
use homi_v.Prelude.Decimal.{codes}
use homi_v.Prelude.{
  ℕ, ◌+◌, ◌-◌, ◌*◌, ◌≤◌, ◌<◌, min, ◌≡◌, refl, sym, ap, ◌∙◌, inl, inr, Bool, true, false, not,
  Option, none, some, List, [], ◌∷◌, any, length, arith, Bool-cases, if◌then◌else◌, zero, suc,
  ||-cases,
}
use homi_v.Prelude.Result.{ok, throw_if}
use homi_v.Db.{Error, Cadence, monthly, weekly}
use homi_v.Posting.{same_text}
use homi_v.Bills.Calendar.{Date, weekday}
use homi_v.Bills.Calendar.Laws.{IsDate, days_in_month, day_number}
use homi_v.Bills.Calendar.Order.{days_in_month_bounds}
use homi_v.Bills.Schedule.{
  weekdays, index_of, number_of, is_last, is_month_day, is_weekday, validate_schedule, day_of,
  target_of,
}

-- The day of a month, clamped to its last.
abbrev pub due_day : List ℕ → ℕ → ℕ → ℕ
due_day cadence_day y m =
    if is_last cadence_day then days_in_month y m else min (day_of cadence_day) (days_in_month y m)

-- The name of a day of the week, of which Sunday is the first.
abbrev pub weekday_name : ℕ → List ℕ
weekday_name zero = codes "sunday"
weekday_name (suc zero) = codes "monday"
weekday_name (suc (suc zero)) = codes "tuesday"
weekday_name (suc (suc (suc zero))) = codes "wednesday"
weekday_name (suc (suc (suc (suc zero)))) = codes "thursday"
weekday_name (suc (suc (suc (suc (suc zero))))) = codes "friday"
weekday_name _ = codes "saturday"

abbrev pub IsDue : Cadence → List ℕ → Date → Type 0
IsDue monthly cadence_day t = t.day ≡ due_day cadence_day t.year t.month
IsDue weekly cadence_day t = cadence_day ≡ weekday_name (weekday (day_number t))

-- The month of a date, counted from the year 0.
abbrev pub month_index : Date → ℕ
month_index t = t.year * 12 + t.month - 1

-- A month has one due date.
pub due_of_month :
    (cadence_day : List ℕ) (s t : Date)
    → IsDate s
    → IsDate t
    → IsDue monthly cadence_day s
    → IsDue monthly cadence_day t
    → month_index s ≡ month_index t
    → s ≡ t
due_of_month cadence_day s t v w p q same =
    let year : s.year ≡ t.year = omega arith in
    let month : s.month ≡ t.month = omega arith in
    let day : s.day ≡ t.day =
      p
      ∙ (ap (λ y. due_day cadence_day y s.month) year
          ∙ (ap (λ m. due_day cadence_day t.year m) month ∙ sym q)) in
    cc

number_of-day_of : (text : List ℕ) (n : ℕ) → number_of text ≡ some n → day_of text ≡ n
unfolding number_of
number_of-day_of [] n e = cc
number_of-day_of (c ∷ s) n e = ground arith

-- A monthly schedule that passes the check names the last day or one from 1 to 31.
pub validate-monthly :
    (cadence_day : List ℕ)
    → validate_schedule monthly cadence_day ≡ ok tt
    → (is_last cadence_day ≡ false)
    → 1 ≤ day_of cadence_day
unfolding validate_schedule is_month_day
validate-monthly cadence_day h other = by_number (number_of cadence_day) refl
  where
    by_number : (o : Option ℕ) → number_of cadence_day ≡ o → 1 ≤ day_of cadence_day
    by_number none e = absurd (ground arith)
    by_number (some n) e = ground (arith, number_of-day_of cadence_day n e)

pub due_day_bounds :
    (cadence_day : List ℕ) (y m : ℕ)
    → validate_schedule monthly cadence_day ≡ ok tt
    → 1 ≤ m
    → m ≤ 12
    → (1 ≤ due_day cadence_day y m) × (due_day cadence_day y m ≤ days_in_month y m)
due_day_bounds cadence_day y m h lo hi =
    let bounds = days_in_month_bounds y m hi lo in
    elim (Bool-cases (is_last cadence_day)) [
      | inl last ↦ rw last (omega arith)
      | inr other ↦ rw other (omega (arith, validate-monthly cadence_day h other))
    ]

index_of-lt :
    (text : List ℕ) (names : List (List ℕ)) (i : ℕ)
    → any (λ name. same_text name text) names ≡ true
    → (k : ℕ) × (index_of text names i ≡ some k) × (k < i + length names)
unfolding index_of
index_of-lt text [] i h = cc
index_of-lt text (name ∷ names) i h = elim (Bool-cases (same_text name text)) [
  | inl here ↦ (i, rw here, omega arith)
  | inr later ↦
      let (k, found, below) = index_of-lt text names (i + 1) (rw later at h) in
      (k, rw later found, omega arith)
]

passed : (b : Bool) (e : Error) → throw_if (not b) e ≡ ok tt → b ≡ true
passed true e h = refl
passed false e h = cc

is_weekday_lem : (cadence_day : List ℕ) → is_weekday cadence_day ≡ true → target_of cadence_day < 7
unfolding is_weekday
is_weekday_lem cadence_day h =
    let (k, found, below) = index_of-lt cadence_day weekdays 0 h in
    rw (found, target_of) (omega arith)

-- A weekly schedule that passes the check names a day of the week.
pub validate-weekly :
    (cadence_day : List ℕ)
    → validate_schedule weekly cadence_day ≡ ok tt
    → target_of cadence_day < 7
unfolding validate_schedule
validate-weekly cadence_day h = is_weekday_lem cadence_day (passed (is_weekday cadence_day) _ h)

-- The weekday that the code looks for is the one that the schedule names.
pub target_of-weekday_name : (k : ℕ) → k < 7 → target_of (weekday_name k) ≡ k
unfolding index_of
target_of-weekday_name zero h = refl
target_of-weekday_name (suc zero) h = refl
target_of-weekday_name (suc (suc zero)) h = refl
target_of-weekday_name (suc (suc (suc zero))) h = refl
target_of-weekday_name (suc (suc (suc (suc zero)))) h = refl
target_of-weekday_name (suc (suc (suc (suc (suc zero))))) h = refl
target_of-weekday_name (suc (suc (suc (suc (suc (suc zero)))))) h = refl
target_of-weekday_name (suc (suc (suc (suc (suc (suc (suc k))))))) h = absurd (omega arith)

same_text-eq : (s t : List ℕ) → same_text s t ≡ true → s ≡ t
same_text-eq [] [] h = refl
same_text-eq [] (b ∷ t) h = cc
same_text-eq (a ∷ s) [] h = cc
same_text-eq (a ∷ s) (b ∷ t) h =
    let first : a ≡ b = ground arith in let rest = same_text-eq s t (ground arith) in cc

named_by : (text : List ℕ) → is_weekday text ≡ true → (k : ℕ) × (k < 7) × (weekday_name k ≡ text)
unfolding is_weekday
named_by text h = elim (||-cases _ _ h) [
  | inl here ↦ (0, omega arith, same_text-eq (weekday_name 0) text here)
  | inr later0 ↦ elim (||-cases _ _ later0) [
    | inl here ↦ (1, omega arith, same_text-eq (weekday_name 1) text here)
    | inr later1 ↦ elim (||-cases _ _ later1) [
      | inl here ↦ (2, omega arith, same_text-eq (weekday_name 2) text here)
      | inr later2 ↦ elim (||-cases _ _ later2) [
        | inl here ↦ (3, omega arith, same_text-eq (weekday_name 3) text here)
        | inr later3 ↦ elim (||-cases _ _ later3) [
          | inl here ↦ (4, omega arith, same_text-eq (weekday_name 4) text here)
          | inr later4 ↦ elim (||-cases _ _ later4) [
            | inl here ↦ (5, omega arith, same_text-eq (weekday_name 5) text here)
            | inr later5 ↦ elim (||-cases _ _ later5) [
              | inl here ↦ (6, omega arith, same_text-eq (weekday_name 6) text here)
              | inr later6 ↦ absurd (cc)
            ]
          ]
        ]
      ]
    ]
  ]
]

-- A weekly schedule that passes the check names the weekday that the code looks for.
pub weekly_named :
    (cadence_day : List ℕ)
    → validate_schedule weekly cadence_day ≡ ok tt
    → weekday_name (target_of cadence_day) ≡ cadence_day
unfolding validate_schedule
weekly_named cadence_day h =
    let (k, below, named) = named_by cadence_day (passed (is_weekday cadence_day) _ h) in
    let same : target_of cadence_day ≡ k =
      ap target_of (sym named) ∙ target_of-weekday_name k below in
    ap weekday_name same ∙ named

pub weekday-lt : (n : ℕ) → weekday n < 7
unfolding weekday
weekday-lt n = omega arith
