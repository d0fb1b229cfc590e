-- ===== src/Bills/Schedule/Next.antt =====
-- nextDueDate returns the least due date after its argument, whatever the schedule.
use homi_v.Prelude.{ℕ, ◌+◌, ◌≤◌, ◌<◌, ◌≡◌, List, arith, ◌∙◌, ap, sym}
use homi_v.Prelude.Result.{Result, ok}
use homi_v.Db.{Error, Cadence, monthly, weekly}
use homi_v.Bills.Calendar.{Date, date_of, weekday}
use homi_v.Bills.Calendar.Laws.{IsDate, day_number, date_of-IsDate}
use homi_v.Bills.Calendar.Utc.{utc-day_number}
use homi_v.Bills.Iso.{parse_iso, to_iso}
use homi_v.Bills.Iso.Order.{IsReal, parse_iso-eq-ok, near-IsReal}
use homi_v.Bills.Schedule.{validate_schedule, target_of, next_after, next_due_date, weekly_from}
use homi_v.Bills.Schedule.Due.{
  IsDue, validate-weekly, weekday_name, weekly_named, target_of-weekday_name, weekday-lt,
}
use homi_v.Bills.Schedule.Weekly.{FirstDay, weekly_from_lem, FirstDay-least}
use homi_v.Bills.Schedule.Monthly.{monthly_from-NextMonthly}

-- `r` is the text of the least due date of the schedule after the date `after`.
pub record IsNext (cadence : Cadence) (cadence_day : List ℕ) (after : Date)
    (r : Result Error (List ℕ)) : Type 0 where
  pub found : Date
  pub returns : r ≡ ok (to_iso found)
  pub real : IsReal found
  pub due : IsDue cadence cadence_day found
  pub later : day_number after < day_number found
  pub least :
      (other : Date)
      → IsDate other
      → IsDue cadence cadence_day other
      → day_number after < day_number other
      → day_number found ≤ day_number other

abbrev search :
    (cadence_day : List ℕ) (after : Date)
    → validate_schedule weekly cadence_day ≡ ok tt
    → FirstDay 7 1 (target_of cadence_day) (day_number after)
search cadence_day after valid =
    weekly_from_lem (target_of cadence_day) (day_number after) (validate-weekly cadence_day valid)

weekly-IsNext :
    (cadence_day : List ℕ) (after : Date)
    → validate_schedule weekly cadence_day ≡ ok tt
    → IsReal after
    → after.year < 9999
    → IsNext weekly cadence_day after (weekly_from 7 1 (target_of cadence_day) (day_number after))
weekly-IsNext cadence_day after valid r last_year =
    let f =
      weekly_from_lem (target_of cadence_day) (day_number after)
        (validate-weekly cadence_day valid) in
    let n = day_number after + f.steps in
    let (real, number) = date_of-IsDate n in
    record {
      found = date_of n;
      returns = f.returns;
      real =
          near-IsReal after (date_of n) r real last_year (omega (arith, number, f.after))
            (omega (arith, number, f.before));
      due =
          sym (weekly_named cadence_day valid)
          ∙ ap weekday_name (sym (ap weekday number ∙ f.named));
      later = omega (arith, number, f.after);
      least = λ other v named after_it. least other v named after_it;
    }
  where
    looked_for :
        (other : Date)
        → IsDue weekly cadence_day other
        → weekday (day_number other) ≡ target_of cadence_day
    looked_for other named = sym (
        ap target_of named
        ∙ target_of-weekday_name (weekday (day_number other)) (weekday-lt (day_number other)))

    least :
        (other : Date)
        → IsDate other
        → IsDue weekly cadence_day other
        → day_number after < day_number other
        → day_number (date_of (day_number after + (search cadence_day after valid).steps))
          ≤ day_number other
    least other v named h =
        let f = search cadence_day after valid in
        let bound =
          FirstDay-least 7 (target_of cadence_day) (day_number after) f (day_number other) h
            (looked_for other named) in
        let number = (date_of-IsDate (day_number after + f.steps)).1 in omega (arith, bound, number)

-- For a schedule that passes the check and a text of a date before the year 9999, nextDueDate
-- returns a text of a date: one that is due, later than the argument, and such that no due date
-- lies between them. Its loops never reach their errors.
pub next_due_date-IsNext :
    (cadence : Cadence) (cadence_day after_iso : List ℕ) (after : Date)
    → validate_schedule cadence cadence_day ≡ ok tt
    → parse_iso after_iso ≡ ok after
    → after.year < 9999
    → IsNext cadence cadence_day after (next_due_date cadence cadence_day after_iso)
unfolding next_due_date next_after
next_due_date-IsNext monthly cadence_day after_iso after valid parsed last_year =
    let (form, r) = parse_iso-eq-ok after_iso after parsed in
    let n = monthly_from-NextMonthly cadence_day after after_iso valid form r last_year in
    rw (valid, parsed)
      (record {
        found = n.found;
        returns = n.returns;
        real = record {
          real = n.real;
          since = n.since;
          until = omega (arith, n.soon, n.real.month_in, r.real.month_in);
        };
        due = n.due;
        later = n.later;
        least = n.least;
      })
next_due_date-IsNext weekly cadence_day after_iso after valid parsed last_year =
    let (form, r) = parse_iso-eq-ok after_iso after parsed in
    rw (valid, parsed, utc-day_number after r.real r.since)
      (weekly-IsNext cadence_day after valid r last_year)
