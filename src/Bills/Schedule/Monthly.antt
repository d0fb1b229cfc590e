-- ===== src/Bills/Schedule/Monthly.antt =====
-- The candidate months, and the search over them.
use homi_v.Prelude.{
  ℕ, ◌+◌, ◌-◌, ◌/◌, ◌%◌, ◌≤◌, ◌<◌, ◌≡◌, refl, sym, ap, ◌∙◌, inl, inr, true, false, List, arith, ltb,
  lt→ltb, ltb→lt, Bool-cases,
}
use homi_v.Prelude.Decimal.{text_lt}
use homi_v.Prelude.Result.{Result, ok}
use homi_v.Db.{Error, monthly}
use homi_v.Bills.Calendar.{Date}
use homi_v.Bills.Calendar.Laws.{IsDate, day_number}
use homi_v.Bills.Calendar.Order.{days_in_month_bounds, earlier, earlier-eq-ltb}
use homi_v.Bills.Calendar.Utc.{day-utc_last}
use homi_v.Bills.Iso.{days_in, to_iso}
use homi_v.Bills.Iso.Laws.{IsIso, to_iso-IsIso}
use homi_v.Bills.Iso.Order.{IsReal, text_lt-IsIso}
use homi_v.Bills.Schedule.{validate_schedule, monthly_candidate, monthly_from}
use homi_v.Bills.Schedule.Due.{IsDue, month_index, due_of_month, due_day_bounds}

-- A due date of the month that is so many months after that of `after`.
pub record IsCandidate (cadence_day : List ℕ) (after : Date) (offset : ℕ) (t : Date) : Type 0 where
  pub real : IsDate t
  pub due : IsDue monthly cadence_day t
  pub since : 100 ≤ t.year
  pub month : month_index t ≡ month_index after + offset

pub monthly_candidate-IsCandidate :
    (cadence_day : List ℕ) (after : Date) (offset : ℕ)
    → validate_schedule monthly cadence_day ≡ ok tt
    → IsReal after
    → IsCandidate cadence_day after offset (monthly_candidate cadence_day after offset)
unfolding monthly_candidate days_in
monthly_candidate-IsCandidate cadence_day after offset h r =
    let k = after.month - 1 + offset in
    let y = after.year + k / 12 in
    let m = k % 12 + 1 in
    let bounds = due_day_bounds cadence_day y m h (omega arith) (omega arith) in
    let months = r.real.month_in in
    let modern : 100 ≤ y = omega (arith, r.since) in
    rw (day-utc_last y m modern (omega arith) (omega arith)) (record {
      real = record { month_in = omega arith; day_in = bounds };
      due = refl;
      since = modern;
      month = omega arith;
    })

-- A date in an earlier month is earlier.
month_index-earlier :
    (s t : Date) → IsDate s → IsDate t → month_index s < month_index t → earlier s t ≡ true
month_index-earlier s t v w h = let p = v.month_in in let q = w.month_in in ground arith

pub month_index-le :
    (s t : Date) → IsDate s → IsDate t → day_number s ≤ day_number t → month_index s ≤ month_index t
month_index-le s t v w h = elim (Bool-cases (ltb (month_index t) (month_index s))) [
  | inl back ↦
      let first = month_index-earlier t s w v (ltb→lt _ _ back) in
      let lt = ltb→lt _ _ (sym (earlier-eq-ltb t s w v) ∙ first) in absurd (omega arith)
  | inr fine ↦ ground arith
]

pub month_index-lt :
    (s t : Date) → IsDate s → IsDate t → month_index s < month_index t → day_number s < day_number t
month_index-lt s t v w h = ltb→lt _ _ (sym (earlier-eq-ltb s t v w) ∙ month_index-earlier s t v w h)

-- The date that the search returns, and that there is none between.
pub record NextMonthly (cadence_day : List ℕ) (after : Date) (r : Result Error (List ℕ))
    : Type 0 where
  pub found : Date
  pub returns : r ≡ ok (to_iso found)
  pub real : IsDate found
  pub since : 100 ≤ found.year
  pub due : IsDue monthly cadence_day found
  pub later : day_number after < day_number found
  pub soon : month_index found ≤ month_index after + 1
  pub least :
      (other : Date)
      → IsDate other
      → IsDue monthly cadence_day other
      → day_number after < day_number other
      → day_number found ≤ day_number other

module _ (cadence_day : List ℕ) (after : Date) (after_iso : List ℕ)
    (valid : validate_schedule monthly cadence_day ≡ ok tt) (form : IsIso after_iso after)
    (r : IsReal after) (last_year : after.year < 9999) where
  candidate : ℕ → Date
  candidate k = monthly_candidate cadence_day after k

  -- The comparison of texts decides whether a candidate is later.
  compares :
      (k : ℕ)
      → k ≤ 1
      → text_lt after_iso (to_iso (candidate k)) ≡ ltb (day_number after) (day_number (candidate k))
  unfolding candidate
  compares k small =
      let c = monthly_candidate-IsCandidate cadence_day after k valid r in
      let p = c.real.month_in in
      let q = r.real.month_in in
      let year : (candidate k).year < 10000 = omega (arith, c.month) in
      let dim = days_in_month_bounds (candidate k).year (candidate k).month p.1 p.0 in
      text_lt-IsIso after_iso (to_iso (candidate k)) after (candidate k) form
        (to_iso-IsIso (candidate k) year (omega arith) (omega (arith, c.real.day_in)))
      ∙ earlier-eq-ltb after (candidate k) r.real c.real

  facts : (k : ℕ) → IsCandidate cadence_day after k (candidate k)
  unfolding candidate
  facts k = monthly_candidate-IsCandidate cadence_day after k valid r

  -- No due date of an earlier month is after `after`, so that the candidate is the least.
  least_of :
      (k : ℕ)
      → ((other : Date)
          → IsDate other
          → IsDue monthly cadence_day other
          → day_number after < day_number other
          → month_index after + k ≤ month_index other)
      → (other : Date) → IsDate other
      → IsDue monthly cadence_day other
      → day_number after < day_number other
      → day_number (candidate k) ≤ day_number other
  least_of k none_before other v due later =
      let c = facts k in
      let from = none_before other v due later in
      elim (Bool-cases (ltb (month_index (candidate k)) (month_index other))) [
        | inl beyond ↦
            let lt = month_index-lt (candidate k) other c.real v (ltb→lt _ _ beyond) in omega arith
        | inr within ↦
            let same_month : month_index (candidate k) ≡ month_index other =
              ground (arith, c.month) in
            let same = due_of_month cadence_day (candidate k) other c.real v c.due due same_month in
            omega (arith, ap day_number same)
      ]

  next_of :
      (k : ℕ)
      → k ≤ 1
      → ltb (day_number after) (day_number (candidate k)) ≡ true
      → ((other : Date)
          → IsDate other
          → IsDue monthly cadence_day other
          → day_number after < day_number other
          → month_index after + k ≤ month_index other)
      → NextMonthly cadence_day after (ok (to_iso (candidate k)))
  next_of k small later none_before =
      let c = facts k in
      record {
        found = candidate k;
        returns = refl;
        real = c.real;
        since = c.since;
        due = c.due;
        later = ltb→lt _ _ later;
        soon = omega (arith, c.month);
        least = least_of k none_before;
      }

  -- If the due date of this month is over, the next is in a later month.
  none_this_month :
      ltb (day_number after) (day_number (candidate 0)) ≡ false
      → (other : Date) → IsDate other
      → IsDue monthly cadence_day other
      → day_number after < day_number other
      → month_index after + 1 ≤ month_index other
  none_this_month over other v due later =
      let c = facts 0 in
      let from = month_index-le after other r.real v (omega arith) in
      elim (Bool-cases (ltb (month_index after) (month_index other))) [
        | inl beyond ↦ ground arith
        | inr within ↦
            let same_month : month_index (candidate 0) ≡ month_index other =
              ground (arith, c.month) in
            let same = due_of_month cadence_day (candidate 0) other c.real v c.due due same_month in
            let number = ap day_number same in
            let early : day_number (candidate 0) ≤ day_number after = ground arith in
            absurd (omega arith)
      ]

  pub monthly_from-NextMonthly :
      NextMonthly cadence_day after (monthly_from 3 0 cadence_day after after_iso)
  unfolding candidate monthly_from
  monthly_from-NextMonthly = elim (Bool-cases (ltb (day_number after) (day_number (candidate 0)))) [
    | inl this_month ↦
        rw (compares 0 (omega arith), this_month)
          (next_of 0 (omega arith) this_month
            (λ other v due later. omega (arith, month_index-le after other r.real v (omega arith))))
    | inr next_month ↦
        let c = facts 1 in
        let later_month =
          month_index-lt after (candidate 1) r.real c.real (omega (arith, c.month)) in
        let later = lt→ltb _ _ later_month in
        rw (compares 0 (omega arith), next_month, compares 1 (omega arith), later)
          (next_of 1 (omega arith) later (none_this_month next_month))
  ]
