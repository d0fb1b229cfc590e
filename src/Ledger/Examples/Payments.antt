-- ===== src/Ledger/Examples/Payments.antt =====
-- The theorems on payments at concrete inputs.
use homi_v.Prelude.{◌≡◌, refl, true, false, none, [], ◌∷◌, ltb, ◌-◌}
use homi_v.Prelude.Result.{ok}
use homi_v.Money.Balances.{PaymentStatus, recorded, disputed}
use homi_v.Db.{StoredResponse, Payment, payment_body}
use homi_v.Activity.{World, transact, log}
use homi_v.Idempotency.{
  Options, find_stored_response, with_idempotency, proceed, finish, store, answer,
}
use homi_v.Posting.{Env, active_member, lock_acting_member}
use homi_v.Ledger.{
  house_for, find_house, other_currency, currency_or, as_400, reply, options_for, event_of,
}
use homi_v.Ledger.Payments.{
  dispute_payment, resolve_payment, has_status, dispute_window_ms, PaymentInput, record_payment,
  record_payment_tx, insert_payment,
}
use homi_v.Ledger.Payments.Dispute.{to_disputed, to_resolved}
use homi_v.Ledger.Payments.Accepts.{
  Asked, moved, dispute_payment_accepts, resolve_payment_accepts, dispute_payment-eq-ok,
  resolve_payment-eq-ok,
}
use homi_v.Ledger.Once.{record_payment_retry}
use homi_v.Ledger.Reading.{get_balances}
use homi_v.Ledger.Reading.Restored.{get_balances-resolve_payment}
use homi_v.Ledger.Examples.{home, start, alone, second}

abbrev pub paid : PaymentStatus → Payment
paid status = record {
  id = 300;
  house_id = 1;
  from_user = 11;
  to_user = 10;
  amount_cents = 333;
  currency = "USD";
  method = none;
  status = status;
  created_at = 1000;
  disputed_at = none;
  resolved_at = none;
}

abbrev pub with_payment : PaymentStatus → World
with_payment status = record { db = (record home { payments = paid status ∷ [] }); published = [] }

asked : (status : PaymentStatus) → Asked 300 10 (with_payment status).db (paid status)
unfolding active_member
asked status = record { found = refl; membership = refl; recipient = refl }

dispute_payment_accepts_example : dispute_payment 5000 300 10 (with_payment recorded) ≡ (
  ok (to_disputed 5000 (paid recorded)),
  moved 300 recorded
      (to_disputed 5000)
      (event_of 1 10 "payment.disputed" "payment" 300)
      (with_payment recorded),
)
dispute_payment_accepts_example =
    dispute_payment_accepts 5000 300 10 (with_payment recorded) (paid recorded) (asked recorded)
      refl refl

resolve_payment_accepts_example : resolve_payment 9000 300 10 (with_payment disputed) ≡ (
  ok (to_resolved 9000 (paid disputed)),
  moved 300 disputed
      (to_resolved 9000)
      (event_of 1 10 "payment.resolved" "payment" 300)
      (with_payment disputed),
)
resolve_payment_accepts_example =
    resolve_payment_accepts 9000 300 10 (with_payment disputed) (paid disputed) (asked disputed)
      refl

dispute_payment_accepts_instance : dispute_payment 5000 300 10 (with_payment recorded) ≡ (
  ok (to_disputed 5000 (paid recorded)),
  moved 300 recorded
      (to_disputed 5000)
      (event_of 1 10 "payment.disputed" "payment" 300)
      (with_payment recorded),
)
dispute_payment_accepts_instance =
    dispute_payment_accepts 5000 300 10 (with_payment recorded) (paid recorded) (asked recorded)
      refl refl

resolve_payment_accepts_instance : resolve_payment 9000 300 10 (with_payment disputed) ≡ (
  ok (to_resolved 9000 (paid disputed)),
  moved 300 disputed
      (to_resolved 9000)
      (event_of 1 10 "payment.resolved" "payment" 300)
      (with_payment disputed),
)
resolve_payment_accepts_instance =
    resolve_payment_accepts 9000 300 10 (with_payment disputed) (paid disputed) (asked disputed)
      refl

dispute_payment-eq-ok_example :
    (p : Payment) × Asked 300 10 (with_payment recorded).db p
    × (has_status recorded p ≡ true)
    × (ltb dispute_window_ms (5000 - p.created_at) ≡ false)
dispute_payment-eq-ok_example =
    dispute_payment-eq-ok 5000 300 10 (with_payment recorded)
      (moved 300 recorded (to_disputed 5000) (event_of 1 10 "payment.disputed" "payment" 300)
        (with_payment recorded))
      (to_disputed 5000 (paid recorded)) dispute_payment_accepts_instance

resolve_payment-eq-ok_example :
    (p : Payment) × Asked 300 10 (with_payment disputed).db p × (has_status disputed p ≡ true)
resolve_payment-eq-ok_example =
    resolve_payment-eq-ok 9000 300 10 (with_payment disputed)
      (moved 300 disputed (to_resolved 9000) (event_of 1 10 "payment.resolved" "payment" 300)
        (with_payment disputed))
      (to_resolved 9000 (paid disputed)) resolve_payment_accepts_instance

abbrev disputed_world : World
disputed_world =
    moved 300 recorded (to_disputed 5000) (event_of 1 10 "payment.disputed" "payment" 300)
      (with_payment recorded)

disputed-Asked : Asked 300 10 disputed_world.db (to_disputed 5000 (paid recorded))
unfolding active_member
disputed-Asked = record { found = refl; membership = refl; recipient = refl }

get_balances-resolve_payment_example :
    get_balances 1
      (moved 300 disputed
        (to_resolved 9000)
        (event_of 1 10 "payment.resolved" "payment" 300)
        disputed_world).db
    ≡ get_balances 1 (with_payment recorded).db
get_balances-resolve_payment_example =
    get_balances-resolve_payment 5000 9000 300 10 10 1 (with_payment recorded) disputed_world
      (moved 300 disputed (to_resolved 9000) (event_of 1 10 "payment.resolved" "payment" 300)
        disputed_world)
      (to_disputed 5000 (paid recorded)) (to_resolved 9000 (to_disputed 5000 (paid recorded)))
      (refl, tt) dispute_payment_accepts_instance
      (resolve_payment_accepts 9000 300 10 disputed_world (to_disputed 5000 (paid recorded))
        disputed-Asked refl)

abbrev repay : PaymentInput
repay = record { to_user = 10; amount_cents = 333; currency = none; method = none }

abbrev pay_options : Options
pay_options = options_for 502 11 "POST /v1/houses/:houseId/payments" 80 1000

abbrev pay_env : Env
pay_env = record { new_id = 300; now = 1000 }

abbrev repaid : World
repaid = (record_payment pay_options pay_env 1 11 repay alone start).1

abbrev repay_response : StoredResponse
repay_response = record { status = 201; body = payment_body (paid recorded) }

repaid_result :
    record_payment pay_options pay_env 1 11 repay alone start ≡ (ok repay_response, repaid)
unfolding record_payment record_payment_tx insert_payment lock_acting_member active_member house_for
    find_house other_currency currency_or as_400 with_idempotency proceed finish
    find_stored_response answer transact reply log store
repaid_result = refl

record_payment_retry_example :
    record_payment pay_options second 1 11 repay alone repaid ≡ (ok repay_response, repaid)
record_payment_retry_example =
    record_payment_retry pay_options pay_env second 1 11 repay alone alone start repaid
      repay_response repaid_result
