-- ===== src/Bills/Examples.antt =====
-- The theorems on bills at concrete inputs: rent that is due on the last day of each month.
use homi_v.Houses.{active_member_role}
use homi_v.Bills.Iso.{iso_add_days, days_in, parse_iso, to_iso}
use homi_v.Db.{House, StoredResponse, bill_body, Expense, monthly, BillTemplate}
use homi_v.Idempotency.{Options, store}
use homi_v.Ledger.{options_for, as_400, find_house, reply}
use homi_v.Bills.Service.Resumed.{Resumed, set_active-IsFirst}
use homi_v.Bills.Service.First.{create_bill_tx-IsFirst}
use homi_v.Bills.Service.{
  Format, CreateBillInput, create_bill_tx, bill_row, today_in_timezone, insert_bill, set_active,
  set_active_tx, switch_bill, next_run_for, switched,
}
use homi_v.Prelude.{
  ltb, ◌≡◌, ◌≤◌, refl, true, some, [], ◌∷◌, arith, any, ◌==◌, max, ◌+◌, ℕ, List, none, ◌++◌, false,
}
use homi_v.Prelude.Decimal.{codes, text_lt, decimal, pad_start}
use homi_v.Prelude.Result.{ok}
use homi_v.Money.Split.{
  equal, compute_splits, assert_valid_total, split_by_mode, split_equal, fill, remainder_recipient,
  give_rest,
}
use homi_v.Activity.{World, transact, log, Tx}
use homi_v.Posting.{
  Env, resolve_splits, members_for, lock_active_members, by_user, resolve_with, unknown_in,
  placeholder_in, split_among, weights_to_use, insert_expense, lock_acting_member, active_member,
}
use homi_v.Ledger.Examples.{home, alone, start}
use homi_v.Bills.Calendar.{
  Date, date, date_of, utc, day_from_year, days_before, length_at, is_leap, year_of, year_down,
  find_month,
}
use homi_v.Bills.Calendar.Laws.{day_number, days_in_month}
use homi_v.Bills.Fields.{take_digits, take_dash, iso_fields}
use homi_v.Bills.Iso.Order.{IsReal, text_lt-parse_iso, parse_iso-eq-ok}
use homi_v.Bills.Schedule.{
  validate_schedule, is_month_day, number_of, next_due_date, first_due_date, period_key, next_after,
  monthly_from, monthly_candidate,
}
use homi_v.Bills.Schedule.Due.{IsDue}
use homi_v.Bills.Schedule.Next.{IsNext, next_due_date-IsNext}
use homi_v.Bills.Schedule.Period.{parse_iso-to_iso, period_key-injective}
use homi_v.Bills.Schedule.Today.{IsFirst, first_due_date-IsFirst}
use homi_v.Bills.Worker.{
  start_run, post_one, post_one_tx, post_splits, post_due_bills, catch_up, period_or, Run,
}
use homi_v.Bills.Worker.Posted.{Posted, post_one-Posted}
use homi_v.Bills.Worker.Again.{Refused, post_one_again}
use homi_v.Bills.Worker.Rounds.{Outcome}
use homi_v.Bills.Worker.CaughtUp.{catch_up-Outcome}

abbrev january : Date
january = date 2026 1 31

abbrev february : Date
february = date 2026 2 28

valid : validate_schedule monthly (codes "31") ≡ ok tt
unfolding validate_schedule is_month_day number_of decimal
valid = refl

parsed : parse_iso (codes "2026-01-31") ≡ ok january
unfolding parse_iso iso_fields take_digits take_dash date_of find_month utc day_from_year
    days_before year_of year_down
parsed = refl

next_due_date-IsNext_example :
    IsNext monthly (codes "31") january (next_due_date monthly (codes "31") (codes "2026-01-31"))
next_due_date-IsNext_example =
    next_due_date-IsNext monthly (codes "31") (codes "2026-01-31") january valid parsed
      (omega arith)

parsed_february : parse_iso (codes "2026-02-28") ≡ ok february
unfolding parse_iso iso_fields take_digits take_dash date_of find_month utc day_from_year
    days_before year_of year_down is_leap
parsed_february = refl

january-IsReal : IsReal january
january-IsReal = (parse_iso-eq-ok (codes "2026-01-31") january parsed).1

february-IsReal : IsReal february
february-IsReal = (parse_iso-eq-ok (codes "2026-02-28") february parsed_february).1

first_due_date-IsFirst_example :
    IsFirst monthly (codes "31") january (first_due_date monthly (codes "31") (codes "2026-01-31"))
first_due_date-IsFirst_example =
    first_due_date-IsFirst monthly (codes "31") (codes "2026-01-31") january valid parsed
      (omega arith) (omega arith)

parse_iso-to_iso_example : parse_iso (to_iso january) ≡ ok january
parse_iso-to_iso_example = parse_iso-to_iso january january-IsReal

text_lt-parse_iso_example :
    text_lt (codes "2026-01-31") (codes "2026-02-28")
    ≡ ltb (day_number january) (day_number february)
text_lt-parse_iso_example =
    text_lt-parse_iso (codes "2026-01-31") (codes "2026-02-28") january february parsed
      parsed_february

IsDue-february : IsDue monthly (codes "31") february
unfolding days_in_month length_at is_leap
IsDue-february = refl

period_key-injective_example : february ≡ february
period_key-injective_example =
    period_key-injective monthly (codes "31") february february february-IsReal february-IsReal
      IsDue-february IsDue-february refl

abbrev rent : BillTemplate
rent = record {
  id = 300;
  house_id = 1;
  description = "Rent";
  amount_cents = 90_000;
  owner_id = 10;
  split_mode = equal;
  cadence = monthly;
  cadence_day = codes "31";
  next_run = codes "2026-01-31";
  active = true;
  created_by = 10;
}

abbrev rented : World
rented = record { db = record home { bills = rent ∷ [] }; published = [] }

abbrev env_of : World → Env
env_of w = record { new_id = 400; now = 1000 }

abbrev after_post : World
after_post =
    (post_one (env_of rented) rent "USD" (codes "2026-01-31") (codes "2026-02-28") rented).1

posted_rent :
    post_one (env_of rented) rent "USD" (codes "2026-01-31") (codes "2026-02-28") rented
    ≡ (ok 400, after_post)
unfolding post_one post_one_tx transact period_key parse_iso iso_fields take_digits take_dash
    date_of find_month utc day_from_year days_before year_of year_down lock_active_members
    resolve_splits members_for resolve_with log post_splits assert_valid_total compute_splits fill
    give_rest remainder_recipient split_by_mode split_equal by_user insert_expense placeholder_in
    split_among unknown_in weights_to_use
posted_rent = refl

post_one-Posted_example :
    Posted
      (env_of rented)
      rent
      "USD"
      (codes "2026-01-31")
      (codes "2026-02-28")
      400
      rented
      after_post
post_one-Posted_example =
    post_one-Posted (env_of rented) rent "USD" (codes "2026-01-31") (codes "2026-02-28") rented
      after_post 400 posted_rent

post_one_again_example :
    Refused after_post
      (post_one (env_of after_post) rent "USD" (codes "2026-01-31") (codes "2026-02-28") after_post)
post_one_again_example =
    post_one_again (env_of rented) (env_of after_post) rent rent "USD" "USD" (codes "2026-01-31")
      (codes "2026-02-28") (codes "2026-02-28") rented after_post 400 refl refl posted_rent

january_first : day_number january ≤ day_number february
unfolding day_number day_from_year days_before is_leap
january_first = omega arith

-- An id that is above those of the expenses.
abbrev above : List Expense → ℕ
above [] = 0
above (e ∷ es) = max (e.id + 1) (above es)

abbrev new_env : World → Env
new_env w = record { new_id = above w.db.expenses; now = 1000 }

none_from : (es : List Expense) (n : ℕ) → above es ≤ n → any (λ e. e.id == n) es ≡ false
none_from [] n h = refl
none_from (e ∷ es) n h = ground (arith, none_from es n (omega arith))

new_env-fresh : (w : World) → any (λ e. e.id == (new_env w).new_id) w.db.expenses ≡ false
new_env-fresh w = none_from w.db.expenses (above w.db.expenses) (omega arith)

catch_up-Outcome_example :
    Outcome 300 24
      (period_or monthly (to_iso february))
      (start_run rented)
      (catch_up new_env alone 24 rent "USD" (to_iso february) (to_iso january) (start_run rented))
catch_up-Outcome_example =
    catch_up-Outcome new_env alone new_env-fresh (λ w id period h. h) rent "USD" valid 24 january
      february february (start_run rented) january-IsReal february-IsReal february-IsReal
      (omega arith) IsDue-february january_first (omega arith)

abbrev in_february : Format
in_february zone now = some (codes "2026-02-28")

abbrev rent_input : CreateBillInput
rent_input = record {
  description = "Rent";
  amount_cents = 90_000;
  split_mode = equal;
  cadence = monthly;
  cadence_day = codes "31";
  owner_id = none;
}

abbrev rent_options : Options
rent_options = options_for 501 10 "POST /v1/houses/:houseId/bills" 79 1000

abbrev maple_street : House
maple_street = record {
  id = 1;
  name = "Maple Street";
  timezone = "UTC";
  currency = "USD";
  created_by = 10;
}

found_house : find_house 1 home ≡ some maple_street
unfolding find_house
found_house = refl

abbrev create_rent : Tx StoredResponse
create_rent = create_bill_tx in_february rent_options (env_of start) 1 10 rent_input

abbrev with_rent : World
with_rent = (transact create_rent start).1

created_rent : transact create_rent start ≡ (
  ok (record {
    status = 201;
    body = bill_body (bill_row (env_of start) 1 10 rent_input (codes "2026-02-28"));
  }),
  with_rent,
)
unfolding transact create_bill_tx as_400 lock_acting_member active_member find_house
    today_in_timezone first_due_date iso_add_days next_due_date validate_schedule is_month_day
    number_of decimal next_after monthly_from monthly_candidate days_in to_iso parse_iso iso_fields
    take_digits take_dash date_of find_month utc day_from_year days_before year_of year_down is_leap
    insert_bill reply log store pad_start
created_rent = refl

create_bill_tx-IsFirst_example :
    (next_run : List ℕ) × (with_rent.db.bills
      ≡ [] ++ bill_row (env_of start) 1 10 rent_input next_run ∷ [])
    × IsFirst monthly (codes "31") february (ok next_run)
create_bill_tx-IsFirst_example =
    create_bill_tx-IsFirst in_february 1 10 maple_street (codes "2026-02-28") february
      parsed_february (omega arith) (omega arith) rent_options (env_of start) rent_input start
      with_rent _ found_house refl created_rent

abbrev paused_rent : BillTemplate
paused_rent = record rent { active = false }

abbrev paused_world : World
paused_world = record { db = record home { bills = paused_rent ∷ [] }; published = [] }

abbrev resumed_world : World
resumed_world = (set_active in_february 1000 1 300 10 true paused_world).1

resumed_rent :
    set_active in_february 1000 1 300 10 true paused_world
    ≡ (ok (switched true (codes "2026-02-28") paused_rent), resumed_world)
unfolding set_active set_active_tx switch_bill next_run_for transact active_member_role find_house
    today_in_timezone first_due_date iso_add_days next_due_date validate_schedule is_month_day
    number_of decimal next_after monthly_from monthly_candidate days_in to_iso parse_iso iso_fields
    take_digits take_dash date_of find_month utc day_from_year days_before year_of year_down is_leap
    log pad_start active_member
resumed_rent = refl

set_active-IsFirst_example :
    Resumed in_february 1 10 maple_street
      (codes "2026-02-28")
      february
      parsed_february
      (omega arith)
      (omega arith)
      paused_rent
      (paused_rent ∷ [])
      resumed_world.db.bills
unfolding find_house
set_active-IsFirst_example =
    set_active-IsFirst in_february 1 10 maple_street (codes "2026-02-28") february parsed_february
      (omega arith) (omega arith) 1000 300 paused_rent
      (switched true (codes "2026-02-28") paused_rent) paused_world resumed_world refl refl refl
      refl resumed_rent

abbrev late : Run
late = post_due_bills in_february env_of alone 1_772_000_000_000 rented
