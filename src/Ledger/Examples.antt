-- ===== src/Ledger/Examples.antt =====
-- The theorems on the mutations at concrete inputs: a house of three, of whom one is a placeholder.
pub mod Payments
pub mod Edits
use homi_v.Prelude.{
  ℕ, ◌≡◌, ◌≢◌, refl, Bool, true, false, none, some, [], ◌∷◌, ltb, arith, ◌-◌, ◌++◌, find, keep,
  ◌==◌,
}
use homi_v.Prelude.Result.{Result, ok, err}
use homi_v.Money.Split.{
  equal, compute_splits, assert_valid_total, split_by_mode, split_equal, fill, remainder_recipient,
  give_rest, Splits,
}
use homi_v.Money.Balances.{PaymentStatus, recorded, disputed}
use homi_v.Db.{
  Db, Error, conflict, HouseMember, member, StoredResponse, Payment, IdempotencyKey, payment_body,
  Expense, expense_body,
}
use homi_v.Activity.{World, Tx, TxState, transact, log}
use homi_v.Activity.Laws.{Announced, Publishes, transact-Publishes}
use homi_v.Idempotency.{
  Options, find_stored_response, with_idempotency, proceed, finish, store, answer, key_row,
}
use homi_v.Idempotency.Laws.{with_idempotency-stored}
use homi_v.Posting.{
  Env, resolve_splits, members_for, lock_active_members, by_user, resolve_with, unknown_in,
  placeholder_in, split_among, weights_to_use, insert_expense, active_member, lock_acting_member,
  split_rows,
}
use homi_v.Posting.Resolve.{IsResolved, resolve_splits-IsResolved}
use homi_v.Ledger.{
  house_for, find_house, other_currency, currency_or, as_400, reply, options_for, event_of,
}
use homi_v.Ledger.Expenses.{
  ExpenseInput, create_expense, create_expense_tx, resolve_input, created, edit_expense,
  edit_expense_tx, find_expense, replace_expense, edited, revision_of,
}
use homi_v.Ledger.Expenses.Created.{create_expense_tx-Stores, create_expense_tx-Keeps}
use homi_v.Ledger.Keeps.{reply-Announced}
use homi_v.Posting.Insert.{insert_expense-Keeps}
use homi_v.Ledger.Payments.{
  dispute_payment, resolve_payment, has_status, dispute_window_ms, PaymentInput, record_payment,
  record_payment_tx, insert_payment,
}
use homi_v.Ledger.Payments.Dispute.{to_disputed, to_resolved}
use homi_v.Ledger.Payments.Accepts.{
  Asked, moved, dispute_payment_accepts, resolve_payment_accepts, dispute_payment-eq-ok,
  resolve_payment-eq-ok,
}
use homi_v.Ledger.Once.{
  create_expense_retry, create_expense_race, create_expense_conflict, edit_expense_retry,
  record_payment_retry,
}
use homi_v.Ledger.Reading.{get_balances}
use homi_v.Ledger.Reading.Restored.{get_balances-resolve_payment}
use homi_v.Ledger.Expenses.Revised.{edit_expense-revisions}
use homi_v.Ledger.History.{stay, creates}
use homi_v.Ledger.History.Steps.{IsSound}
use homi_v.Ledger.History.Sound.{Reaches-IsSound}

abbrev pub lives_in : ℕ → Bool → HouseMember
lives_in user_id is_placeholder = record {
  house_id = 1;
  user_id = user_id;
  role = member;
  display_name = none;
  is_placeholder = is_placeholder;
  claimed_by = none;
  room_id = none;
  joined_at = 0;
  left_at = none;
}

abbrev pub home : Db
home = record {
  users = [];
  houses =
      record { id = 1; name = "Maple Street"; timezone = "UTC"; currency = "USD"; created_by = 10 }
      ∷ [];
  rooms = [];
  members = lives_in 10 false ∷ lives_in 11 false ∷ lives_in 12 true ∷ [];
  invites = [];
  expenses = [];
  splits = [];
  revisions = [];
  bills = [];
  payments = [];
  keys = [];
  events = [];
}

abbrev pub start : World
start = record { db = home; published = [] }

abbrev pub lunch : ExpenseInput
lunch = record {
  description = "Lunch";
  amount_cents = 1000;
  currency = none;
  paid_by = 10;
  category = none;
  is_staple = none;
  mode = equal;
  participants = 10 ∷ 11 ∷ 12 ∷ [];
  exact_cents = none;
  weights_bp = none;
}

abbrev lunch_options : Options
lunch_options = options_for 500 10 "POST /v1/houses/:houseId/expenses" 77 1000

abbrev pub first : Env
first = record { new_id = 100; now = 1000 }

abbrev pub alone : World → World
alone w = w

abbrev after_lunch : World
after_lunch = (create_expense lunch_options first 1 10 lunch alone start).1

start-IsSound : IsSound start
start-IsSound = record {
  books = record { balanced = tt; referred = tt; unique = tt; keyed = tt };
  payments = tt;
  announced = refl;
  periods = tt;
}

Reaches-IsSound_example : IsSound after_lunch
Reaches-IsSound_example =
    Reaches-IsSound
      (creates lunch_options first 1 10 lunch alone start start (stay start) (stay start))
      start-IsSound

-- The same expense under another id, as a retry would insert it.
abbrev lunch_tx : ℕ → Tx StoredResponse
lunch_tx id = create_expense_tx lunch_options (record { new_id = id; now = 1000 }) 1 10 lunch

abbrev pub lunch_splits : Splits
lunch_splits = (10, 334) ∷ (11, 333) ∷ (12, 333) ∷ []

abbrev open_tx : TxState
open_tx = record { db = home; logged = [] }

resolved_lunch : resolve_splits 1 (resolve_input lunch) none open_tx ≡ ok (lunch_splits, open_tx)
unfolding resolve_splits members_for lock_active_members by_user resolve_with unknown_in
    placeholder_in split_among weights_to_use compute_splits assert_valid_total split_by_mode
    split_equal fill remainder_recipient give_rest
resolved_lunch = refl

resolve_splits-IsResolved_example :
    (open_tx ≡ open_tx) × IsResolved 1 (resolve_input lunch) home lunch_splits
resolve_splits-IsResolved_example =
    resolve_splits-IsResolved 1 (resolve_input lunch) open_tx lunch_splits open_tx resolved_lunch

-- The call of the first request, and what it leaves.
abbrev post : World → Result Error StoredResponse × World
post = with_idempotency lunch_options (transact (lunch_tx 100)) alone

abbrev pub posted : World
posted = (post start).1

abbrev pub lunch_response : StoredResponse
lunch_response =
    created
      (record {
        id = 100;
        house_id = 1;
        description = "Lunch";
        amount_cents = 1000;
        currency = "USD";
        paid_by = 10;
        category = none;
        is_staple = false;
        template_id = none;
        period = none;
        created_by = 10;
        created_at = 1000;
        deleted_at = none;
      })
      lunch_splits

post_result : post start ≡ (ok lunch_response, posted)
unfolding with_idempotency proceed finish find_stored_response answer transact create_expense_tx
    house_for find_house other_currency currency_or as_400 insert_expense reply log store
    resolve_splits members_for lock_active_members by_user resolve_with unknown_in placeholder_in
    split_among weights_to_use compute_splits assert_valid_total split_by_mode split_equal fill
    remainder_recipient give_rest
post_result = refl

nothing_stored : find_stored_response start.db lunch_options ≡ ok none
unfolding find_stored_response answer
nothing_stored = refl

stored_meanwhile : find_stored_response (post start).1.db lunch_options ≡ ok (some lunch_response)
stored_meanwhile =
    with_idempotency-stored lunch_options (lunch_tx 100)
      (create_expense_tx-Stores lunch_options first 1 10 lunch) alone start posted lunch_response
      post_result

abbrev pub second : Env
second = record { new_id = 101; now = 1500 }

created_lunch :
    create_expense lunch_options first 1 10 lunch alone start ≡ (ok lunch_response, posted)
unfolding create_expense
created_lunch = post_result

abbrev posts_lunch : World → World
posts_lunch w = (create_expense lunch_options first 1 10 lunch alone w).1

posted_meanwhile :
    find_stored_response (posts_lunch start).db lunch_options ≡ ok (some lunch_response)
unfolding create_expense
posted_meanwhile = stored_meanwhile

create_expense_retry_example :
    create_expense lunch_options second 1 10 lunch alone posted ≡ (ok lunch_response, posted)
create_expense_retry_example =
    create_expense_retry lunch_options first second 1 10 lunch alone alone start posted
      lunch_response created_lunch

create_expense_race_example :
    (create_expense lunch_options second 1 10 lunch posts_lunch start).1 ≡ posts_lunch start
create_expense_race_example =
    create_expense_race lunch_options second 1 10 lunch posts_lunch start lunch_response
      nothing_stored posted_meanwhile

another_request : ◌≢◌ {A = ℕ} 78 77
another_request h = omega arith

-- The same key, with a dinner in place of the lunch.
create_expense_conflict_example :
    create_expense
      (record lunch_options { request_hash = 78; now = 2000 })
      second
      1
      10
      (record lunch { description = "Dinner" })
      alone
      posted
    ≡ (err (conflict "Idempotency-Key was already used with a different request"), posted)
create_expense_conflict_example =
    create_expense_conflict lunch_options first second 1 10 78 2000 lunch
      (record lunch { description = "Dinner" }) alone alone start posted lunch_response
      created_lunch another_request
