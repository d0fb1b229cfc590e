-- ===== src/Bills/Schedule/Today.antt =====
-- The due date from today on, as the bills service asks for it: the next after yesterday.
use homi_v.Prelude.{ℕ, suc, ◌+◌, ◌-◌, ◌≤◌, ◌<◌, ◌≡◌, List, arith}
use homi_v.Prelude.Int.{negsuc, pos_part, neg_part}
use homi_v.Prelude.Result.{Result, ok}
use homi_v.Db.{Error, Cadence}
use homi_v.Bills.Calendar.{Date, date_of}
use homi_v.Bills.Calendar.Laws.{
  IsDate, day_number, date_of-IsDate, day_from_year_mono, day_from_year-suc, year_length,
}
use homi_v.Bills.Calendar.Order.{day_number_in_year, year-ge, year-lt}
use homi_v.Bills.Calendar.Utc.{utc-day_number}
use homi_v.Bills.Iso.{parse_iso, to_iso, iso_add_days}
use homi_v.Bills.Iso.Order.{IsReal, parse_iso-eq-ok}
use homi_v.Bills.Schedule.{validate_schedule, first_due_date}
use homi_v.Bills.Schedule.Due.{IsDue}
use homi_v.Bills.Schedule.Next.{next_due_date-IsNext}
use homi_v.Bills.Schedule.Period.{parse_iso-to_iso}

-- `r` is the text of the least due date that is not before `today`.
pub record IsFirst (cadence : Cadence) (cadence_day : List ℕ) (today : Date)
    (r : Result Error (List ℕ)) : Type 0 where
  pub found : Date
  pub returns : r ≡ ok (to_iso found)
  pub real : IsReal found
  pub due : IsDue cadence cadence_day found
  pub from_today : day_number today ≤ day_number found
  pub least :
      (other : Date)
      → IsDate other
      → IsDue cadence cadence_day other
      → day_number today ≤ day_number other
      → day_number found ≤ day_number other

yesterday-IsReal :
    (t : Date)
    → IsReal t
    → 100 < t.year
    → IsReal (date_of (day_number t - 1))
      × (day_number (date_of (day_number t - 1)) + 1 ≡ day_number t)
      × ((date_of (day_number t - 1)).year ≤ t.year)
yesterday-IsReal t r since =
    let (real, number) = date_of-IsDate (day_number t - 1) in
    let (start, end) = day_number_in_year t r.real in
    let before = day_from_year_mono 101 t.year since in
    let first = day_from_year-suc 100 in
    let days = year_length 100 in
    let positive : 1 ≤ day_number t = omega arith in
    (
      record {
        real = real;
        since = year-ge 100 _ real (omega arith);
        until = omega (arith, year-lt (suc t.year) _ real (omega arith), r.until);
      },
      omega arith,
      omega (arith, year-lt (suc t.year) _ real (omega arith)),
    )

-- The next due date after yesterday is the least one that is not before today.
pub first_due_date-IsFirst :
    (cadence : Cadence) (cadence_day today_iso : List ℕ) (today : Date)
    → validate_schedule cadence cadence_day ≡ ok tt
    → parse_iso today_iso ≡ ok today
    → 100 < today.year
    → today.year < 9999
    → IsFirst cadence cadence_day today (first_due_date cadence cadence_day today_iso)
unfolding first_due_date iso_add_days
first_due_date-IsFirst cadence cadence_day today_iso today valid parsed since until =
    let (form, r) = parse_iso-eq-ok today_iso today parsed in
    let (real, number, year) = yesterday-IsReal today r since in
    let y = date_of (day_number today - 1) in
    let n =
      next_due_date-IsNext cadence cadence_day (to_iso y) y valid (parse_iso-to_iso y real)
        (omega arith) in
    let back : day_number today + pos_part (negsuc 0) - neg_part (negsuc 0) ≡ day_number today - 1 =
      omega arith in
    rw (parsed, utc-day_number today r.real r.since, back)
      (record {
        found = n.found;
        returns = n.returns;
        real = n.real;
        due = n.due;
        from_today = omega (arith, n.later, number);
        least = λ other v due from. n.least other v due (omega (arith, number));
      })
