-- ===== src/Bills/Iso.antt =====
-- The dates of schedule.ts as text: parseISO, toISO, daysInMonth and isoAddDays.
pub mod Laws
pub mod Order
use homi_v.Prelude.{
  ℕ, zero, suc, ◌+◌, ◌-◌, ◌*◌, Bool, true, false, not, ◌&&◌, Option, none, some, List, [], ◌∷◌,
  ◌++◌, ◌==◌, if◌then◌else◌,
}
use homi_v.Prelude.Decimal.{is_digit, value, decimal, pad_start}
use homi_v.Prelude.Int.{ℤ, pos_part, neg_part}
use homi_v.Prelude.Result.{Result, ok, err, ◌>>=◌, ◌>>◌, or_throw, throw_if}
use homi_v.Db.{Error, schedule_error}
use homi_v.Bills.Fields.{iso_fields}
use homi_v.Bills.Calendar.{Date, date, date_of, utc}

abbrev pub same_date : Date → Date → Bool
same_date s t = s.year == t.year && s.month == t.month && s.day == t.day

abbrev pub parts_of : List ℕ → Result Error Date
parts_of iso = or_throw (iso_fields iso) (schedule_error "not an ISO date")

-- `parseISO`
unfoldable pub parse_iso : List ℕ → Result Error Date
parse_iso iso = do
  t ← parts_of iso
  throw_if (not (same_date (date_of (utc t.year t.month t.day)) t))
      (schedule_error "not a real calendar date")
  ok t

-- `toISO`
unfoldable pub to_iso : Date → List ℕ
to_iso t =
    pad_start 4 (decimal t.year)
    ++ b'-' ∷ (pad_start 2 (decimal t.month) ++ b'-' ∷ pad_start 2 (decimal t.day))

-- `daysInMonth`: the day before the first of the next month.
unfoldable pub days_in : ℕ → ℕ → ℕ
days_in y m = (date_of (utc y (m + 1) 0)).day

abbrev pub add_days : ℕ → ℤ → ℕ
add_days n days = n + pos_part days - neg_part days

-- `isoAddDays`
unfoldable pub iso_add_days : List ℕ → ℤ → Result Error (List ℕ)
iso_add_days iso days = do
  t ← parse_iso iso
  ok (to_iso (date_of (add_days (utc t.year t.month t.day) days)))
