-- ===== src/Bills/Worker/CaughtUp.antt =====
-- The loop over the periods of a bill leaves out none.
use homi_v.Prelude.{
  ℕ, zero, suc, ◌≤◌, ◌<◌, ◌≡◌, ap, ◌∙◌, subst, ◌⊎◌, false, Option, String, List, arith, ltb,
  Bool-cases, inl, inr, any, ◌==◌,
}
use homi_v.Prelude.Decimal.{text_lt}
use homi_v.Prelude.Result.{Result, ok, err}
use homi_v.Db.{Error, BillTemplate}
use homi_v.Activity.{World}
use homi_v.Posting.{Env}
use homi_v.Bills.Calendar.{Date}
use homi_v.Bills.Calendar.Laws.{day_number}
use homi_v.Bills.Calendar.Order.{day_number-injective, earlier-eq-ltb}
use homi_v.Bills.Iso.{to_iso}
use homi_v.Bills.Iso.Order.{IsReal, text_lt-IsIso}
use homi_v.Bills.Schedule.{validate_schedule, next_due_date}
use homi_v.Bills.Schedule.Due.{IsDue}
use homi_v.Bills.Schedule.Next.{next_due_date-IsNext}
use homi_v.Bills.Schedule.Period.{real-IsIso, parse_iso-to_iso}
use homi_v.Bills.Worker.{Run, on_success, on_next, period_or, post_round, catch_up}
use homi_v.Bills.Worker.Rounds.{
  IsPosted, Grows, settled, Outcome, posted, used_up, paused, threw, Ends, goes_on, stops,
  fails_with, post_round-Ends,
}

not_after :
    (s t : Date)
    → IsReal s
    → IsReal t
    → day_number s ≤ day_number t
    → text_lt (to_iso t) (to_iso s) ≡ false
not_after s t rs rt h =
    text_lt-IsIso (to_iso t) (to_iso s) t s (real-IsIso t rt) (real-IsIso s rs)
    ∙ (earlier-eq-ltb t s rt.real rs.real ∙ ground arith)

before_last :
    (s t : Date) → IsReal s → IsReal t → t.year < 9999 → day_number s ≤ day_number t → s.year < 9999
before_last s t rs rt last_year h = let order = earlier-eq-ltb t s rt.real rs.real in ground arith

module _ (env : World → Env) (meanwhile : World → World)
    (fresh : (w : World) → any (λ e. e.id == (env w).new_id) w.db.expenses ≡ false)
    (others : (w : World) → Grows w (meanwhile w)) (b : BillTemplate) (currency : String) where
  -- A step of the loop from a round's end.
  after_round :
      (rounds : ℕ) (today period due_iso advanced : List ℕ) (run : Run) (r : Run × Option (List ℕ))
      → Ends b due_iso advanced run r
      → IsPosted b.id period run.world
      → ((run' : Run)
          → IsPosted b.id period run'.world
          → IsPosted b.id period
              (catch_up env meanwhile rounds b currency today advanced run').world)
      → IsPosted b.id period
          (on_next r.0 (λ due. catch_up env meanwhile rounds b currency today due r.0) r.1).world
  after_round rounds today period due_iso advanced run r (goes_on run' grows _ _) h go =
      go run' (grows b.id period h)
  after_round rounds today period due_iso advanced run r (stops run' grows _) h go =
      grows b.id period h
  after_round rounds today period due_iso advanced run r (fails_with run' e grows _) h go =
      grows b.id period h

  -- What is posted stays posted.
  catch_up-grows :
      (rounds : ℕ) (today next_run period : List ℕ) (run : Run)
      → IsPosted b.id period run.world
      → IsPosted b.id period (catch_up env meanwhile rounds b currency today next_run run).world
  unfolding catch_up
  catch_up-grows zero today next_run period run h = h
  catch_up-grows (suc rounds) today next_run period run h =
      elim (Bool-cases (text_lt today next_run)) [
        | inl over ↦ rw over h
        | inr due ↦ rw due (
            by_next (λ advanced run' k. catch_up-grows rounds today advanced period run' k)
              (next_due_date b.cadence b.cadence_day next_run))
      ]
    where
      by_next :
          ((advanced : List ℕ) (run' : Run)
            → IsPosted b.id period run'.world
            → IsPosted b.id period
                (catch_up env meanwhile rounds b currency today advanced run').world)
          → (n : Result Error (List ℕ))
          → IsPosted b.id period
              (on_success run
                (λ advanced.
                  let (run', next) = post_round env meanwhile b currency next_run advanced run in
                  on_next run'
                    (λ due. catch_up env meanwhile rounds b currency today due run')
                    next)
                n).world
      by_next go (err e) = h
      by_next go (ok advanced) =
          after_round rounds today period next_run advanced run _
            (post_round-Ends env meanwhile fresh others b currency next_run advanced run) h
            (go advanced)

  pushed :
      (rounds : ℕ) (period : List ℕ) (run run' final : Run)
      → settled run' ≡ suc (settled run)
      → Outcome b.id rounds period run' final
      → Outcome b.id (suc rounds) period run final
  pushed rounds period run run' final count (posted h) = posted h
  pushed rounds period run run' final count (used_up h) = used_up (omega (arith, count, h))
  pushed rounds period run run' final count (paused h) = paused h
  pushed rounds period run run' final count (threw e h) = threw e h

  -- A round for the date `from`, when the rest of the loop gives the date `due` an outcome if it
  -- is another.
  of_round :
      (rounds : ℕ) (today next_run advanced period : List ℕ) (run : Run) (r : Run × Option (List ℕ))
      → Ends b next_run advanced run r
      → ((period_or b.cadence next_run ≡ period)
          ⊎ ((run' : Run)
              → Outcome b.id rounds period run'
                  (catch_up env meanwhile rounds b currency today advanced run')))
      → Outcome b.id
          (suc rounds)
          period
          run
          (on_next r.0 (λ later. catch_up env meanwhile rounds b currency today later r.0) r.1)
  of_round rounds today next_run advanced period run r (goes_on run' grows here count) (inl this) =
      posted (
        catch_up-grows rounds today advanced period run'
          (subst (λ p. IsPosted b.id p run'.world) this here))
  of_round rounds today next_run advanced period run r (goes_on run' grows here count) (inr other) =
      pushed rounds period run run' _ count (other run')
  of_round rounds today next_run advanced period run r (stops run' grows stop) next = paused stop
  of_round rounds today next_run advanced period run r (fails_with run' e grows fails) next =
      threw e fails

  module _ (valid : validate_schedule b.cadence b.cadence_day ≡ ok tt) where
    -- A loop that starts at a due date deals with each due date from there to today: in the end
    -- the period of the date has an expense of the bill, unless the loop has used up its rounds,
    -- the bill is paused, or the run has thrown. Each insert has an id that no expense has, and what
    -- others commit before each transaction takes away no expense of a bill. The date is before the
    -- year 9999.
    pub catch_up-Outcome :
        (rounds : ℕ) (from due last : Date) (run : Run)
        → IsReal from
        → IsReal due
        → IsReal last
        → due.year < 9999
        → IsDue b.cadence b.cadence_day due
        → day_number from ≤ day_number due
        → day_number due ≤ day_number last
        → Outcome b.id rounds
            (period_or b.cadence (to_iso due))
            run
            (catch_up env meanwhile rounds b currency (to_iso last) (to_iso from) run)
    unfolding catch_up
    catch_up-Outcome zero from due last run rf rd rl last_year is_due lo hi = used_up (omega arith)
    catch_up-Outcome (suc rounds) from due last run rf rd rl last_year is_due lo hi =
        let n =
          next_due_date-IsNext b.cadence b.cadence_day (to_iso from) from valid
            (parse_iso-to_iso from rf) (before_last from due rf rd last_year lo) in
        rw (not_after from last rf rl (omega (arith, lo, hi)), n.returns)
          (of_round rounds (to_iso last) (to_iso from) (to_iso n.found)
            (period_or b.cadence (to_iso due)) run _
            (post_round-Ends env meanwhile fresh others b currency (to_iso from) (to_iso n.found)
              run)
            (elim (Bool-cases (ltb (day_number from) (day_number due))) [
              | inl later ↦ inr (λ run'.
                  catch_up-Outcome rounds n.found due last run' n.real rd rl last_year is_due
                    (n.least due rd.real is_due (ground arith)) hi)
              | inr same ↦ inl (
                  ap (λ x. period_or b.cadence (to_iso x))
                    (day_number-injective from due rf.real rd.real (ground arith)))
            ]))
