-- ===== src/Bills/Schedule.antt =====
-- validateSchedule, nextDueDate and periodKey of schedule.ts.
pub mod Due
pub mod Weekly
pub mod Monthly
pub mod Next
pub mod Period
pub mod Today
use homi_v.Prelude.{
  ℕ, zero, suc, ◌+◌, ◌-◌, ◌*◌, ◌/◌, ◌%◌, min, Bool, true, false, not, ◌&&◌, ◌||◌, Option, none,
  some, List, [], ◌∷◌, all, any, ltb, leb, ◌==◌, if◌then◌else◌,
}
use homi_v.Prelude.Decimal.{codes, text_lt, is_digit, value, decimal}
use homi_v.Prelude.Int.{negsuc}
use homi_v.Prelude.Result.{Result, ok, err, ◌>>=◌, ◌>>◌, throw_if}
use homi_v.Db.{Error, schedule_error, Cadence, monthly, weekly}
use homi_v.Posting.{same_text}
use homi_v.Bills.Calendar.{Date, date, date_of, utc, weekday}
use homi_v.Bills.Iso.{parse_iso, to_iso, days_in, iso_add_days}

abbrev pub weekdays : List (List ℕ)
weekdays =
    codes "sunday"
    ∷ codes "monday"
    ∷ codes "tuesday"
    ∷ codes "wednesday"
    ∷ codes "thursday"
    ∷ codes "friday"
    ∷ codes "saturday"
    ∷ []

-- `WEEKDAYS.indexOf(day)`, after the first `i` names.
unfoldable pub index_of : List ℕ → List (List ℕ) → ℕ → Option ℕ
index_of text [] i = none
index_of text (name ∷ names) i = if same_text name text then some i else index_of text names (i + 1)

-- `Number(text)`; a text that is no numeral without a sign, a point or an exponent counts as NaN,
-- since `String(day) !== cadenceDay` refuses the others that have a number.
unfoldable pub number_of : List ℕ → Option ℕ
number_of [] = some 0
number_of (c ∷ s) = if all is_digit (c ∷ s) then some (value 0 (c ∷ s)) else none

abbrev pub is_last : List ℕ → Bool
is_last cadence_day = same_text cadence_day (codes "last")

-- `cadenceDay` is the decimal form of a day from 1 to 31.
unfoldable pub is_month_day : List ℕ → Bool
is_month_day cadence_day = elim (number_of cadence_day) [
  | none ↦ false
  | some day ↦ leb 1 day && leb day 31 && same_text (decimal day) cadence_day
]

unfoldable pub is_weekday : List ℕ → Bool
is_weekday cadence_day = any (λ name. same_text name cadence_day) weekdays

-- `validateSchedule`
unfoldable pub validate_schedule : Cadence → List ℕ → Result Error (Unit {0})
validate_schedule monthly cadence_day =
    throw_if (not (is_last cadence_day || is_month_day cadence_day))
      (schedule_error "monthly cadenceDay must be '1'..'31' or 'last'")
validate_schedule weekly cadence_day =
    throw_if (not (is_weekday cadence_day))
      (schedule_error "weekly cadenceDay must be a lowercase weekday name")

-- `Number(cadenceDay)` of a day that passed the check.
abbrev pub day_of : List ℕ → ℕ
day_of cadence_day = value 0 cadence_day

-- The due date of the month `offset` months after that of `after`.
unfoldable pub monthly_candidate : List ℕ → Date → ℕ → Date
monthly_candidate cadence_day after offset =
    let month_index = after.month - 1 + offset in
    let y = after.year + month_index / 12 in
    let m = month_index % 12 + 1 in
    let dim = days_in y m in
    date y m (if is_last cadence_day then dim else min (day_of cadence_day) dim)

-- The loop over `rounds` candidate months from `offset` on.
unfoldable pub monthly_from : ℕ → ℕ → List ℕ → Date → List ℕ → Result Error (List ℕ)
monthly_from zero offset cadence_day after after_iso =
    err (schedule_error "unreachable: no monthly due date within three months")
monthly_from (suc rounds) offset cadence_day after after_iso =
    let iso = to_iso (monthly_candidate cadence_day after offset) in
    if text_lt after_iso iso
    then ok iso
    else monthly_from rounds (offset + 1) cadence_day after after_iso

-- The loop over `rounds` candidate days from `step` on.
unfoldable pub weekly_from : ℕ → ℕ → ℕ → ℕ → Result Error (List ℕ)
weekly_from zero step target base = err (schedule_error "unreachable: no weekday within seven days")
weekly_from (suc rounds) step target base =
    if weekday (base + step) == target
    then ok (to_iso (date_of (base + step)))
    else weekly_from rounds (step + 1) target base

abbrev pub target_of : List ℕ → ℕ
target_of cadence_day = elim (index_of cadence_day weekdays 0) [ none ↦ 7 | some i ↦ i ]

unfoldable pub next_after : Cadence → List ℕ → Date → List ℕ → Result Error (List ℕ)
next_after monthly cadence_day after after_iso = monthly_from 3 0 cadence_day after after_iso
next_after weekly cadence_day after after_iso =
    weekly_from 7 1 (target_of cadence_day) (utc after.year after.month after.day)

-- `nextDueDate`
unfoldable pub next_due_date : Cadence → List ℕ → List ℕ → Result Error (List ℕ)
next_due_date cadence cadence_day after_iso = do
  validate_schedule cadence cadence_day
  after ← parse_iso after_iso
  next_after cadence cadence_day after after_iso

-- `nextDueDate(cadence, cadenceDay, isoAddDays(today, -1))`
unfoldable pub first_due_date : Cadence → List ℕ → List ℕ → Result Error (List ℕ)
first_due_date cadence cadence_day today_iso = do
  yesterday ← iso_add_days today_iso (negsuc 0)
  next_due_date cadence cadence_day yesterday

abbrev pub take_text : ℕ → List ℕ → List ℕ
take_text zero s = []
take_text (suc n) [] = []
take_text (suc n) (c ∷ s) = c ∷ take_text n s

abbrev pub period_of : Cadence → List ℕ → List ℕ
period_of monthly due_iso = take_text 7 due_iso
period_of weekly due_iso = due_iso

-- `periodKey`
unfoldable pub period_key : Cadence → List ℕ → Result Error (List ℕ)
period_key cadence due_iso = do t ← parse_iso due_iso; ok (period_of cadence due_iso)
