-- ===== src/Ledger/Payments.antt =====
-- LedgerService.recordPayment, disputePayment and resolvePayment.
pub mod Lifecycle
pub mod Dispute
pub mod Accepts
use homi_v.Prelude.{
  ℕ, ◌-◌, ◌*◌, Bool, true, false, not, ◌&&◌, Option, none, some, String, List, [], ◌∷◌, ◌++◌, find,
  update_where, any, ltb, ◌==◌, if◌then◌else◌,
}
use homi_v.Prelude.Result.{Result, ok, err}
use homi_v.Money.Balances.{PaymentStatus, recorded, disputed, resolved}
use homi_v.Db.{
  Db, Error, bad_request, not_found, forbidden, check_violation, unique_violation, Payment,
  StoredResponse, payment_body,
}
use homi_v.Activity.{
  Tx, ◌>>=◌, ◌>>◌, query, or_throw, throw_if, pure, execute, log, World, transact,
}
use homi_v.Idempotency.{Options, store, with_idempotency}
use homi_v.Posting.{lock_acting_member, Env, active_member}
use homi_v.Ledger.{as_400, house_for, currency_or, reply, event_of}

-- HOMI-11: how long the recipient can dispute a recorded payment.
abbrev pub dispute_window_ms : ℕ
dispute_window_ms = 72 * 60 * 60 * 1000

pub record PaymentInput : Type 0 where
  pub to_user : ℕ
  pub amount_cents : ℕ
  pub currency : Option String
  pub method : Option String

abbrev pub recorded_payment : Env → ℕ → ℕ → PaymentInput → String → Payment
recorded_payment env house_id user_id input currency = record {
  id = env.new_id;
  house_id = house_id;
  from_user = user_id;
  to_user = input.to_user;
  amount_cents = input.amount_cents;
  currency = currency;
  method = input.method;
  status = recorded;
  created_at = env.now;
  disputed_at = none;
  resolved_at = none;
}

-- The insert, with the checks of the table and its primary key.
unfoldable pub insert_payment : Env → ℕ → ℕ → PaymentInput → String → Tx Payment
insert_payment env house_id user_id input currency = do
  rows ← query (λ db. db.payments)
  throw_if (input.amount_cents == 0) (check_violation "chk_payments_amount_positive")
  throw_if (user_id == input.to_user) (check_violation "chk_payments_distinct_parties")
  throw_if (any (λ p. p.id == env.new_id) rows) (unique_violation "payments_pkey")
  execute (λ db. record db {
    payments = db.payments ++ recorded_payment env house_id user_id input currency ∷ [];
  })
  pure (recorded_payment env house_id user_id input currency)

unfoldable pub record_payment_tx : Options → Env → ℕ → ℕ → PaymentInput → Tx StoredResponse
record_payment_tx o env house_id user_id input = do
  house ← house_for house_id input.currency
  as_400 (lock_acting_member house_id input.to_user)
  payment ← insert_payment env house_id user_id input (currency_or input.currency house)
  reply o (event_of house_id user_id "payment.recorded" "payment" payment.id)
      (record { status = 201; body = payment_body payment })

unfoldable pub record_payment :
    Options
    → Env
    → ℕ
    → ℕ
    → PaymentInput
    → (World → World)
    → World
    → Result Error StoredResponse × World
record_payment o env house_id user_id input meanwhile w =
    if input.to_user == user_id
    then (err (bad_request "You cannot record a payment to yourself"), w)
    else with_idempotency o (transact (record_payment_tx o env house_id user_id input)) meanwhile w

abbrev pub has_status : PaymentStatus → Payment → Bool
has_status recorded p = elim p.status [ recorded ↦ true | _ ↦ false ]
has_status disputed p = elim p.status [ disputed ↦ true | _ ↦ false ]
has_status resolved p = elim p.status [ resolved ↦ true | _ ↦ false ]

unfoldable pub find_payment : ℕ → Db → Option Payment
find_payment id db = find (λ p. p.id == id) db.payments

-- A payment that a member of its house asks about, who must be its recipient.
unfoldable pub as_recipient : ℕ → Error → Payment → Tx Payment
as_recipient user_id not_recipient payment = do
  membership ← query (active_member payment.house_id user_id)
  _ ← or_throw membership (not_found "Payment not found")
  throw_if (not (payment.to_user == user_id)) not_recipient
  pure payment

unfoldable pub payment_for : ℕ → ℕ → Error → Tx Payment
payment_for payment_id user_id not_recipient = do
  row ← query (find_payment payment_id)
  payment ← or_throw row (not_found "Payment not found")
  as_recipient user_id not_recipient payment

-- `UPDATE payments SET ... WHERE id = ? AND status = ? RETURNING *`, which must return a row.
unfoldable pub move_payment : ℕ → PaymentStatus → (Payment → Payment) → Error → Tx Payment
move_payment payment_id status change nothing = do
  rows ← query (λ db. db.payments)
  found ← or_throw (find (λ p. p.id == payment_id && has_status status p) rows) nothing
  execute (λ db. record db {
    payments = update_where (λ p. p.id == payment_id && has_status status p) change db.payments;
  })
  pure (change found)

unfoldable pub dispute_payment_tx : ℕ → ℕ → ℕ → Tx Payment
dispute_payment_tx now payment_id user_id = do
  payment ← payment_for payment_id user_id (forbidden "Only the payment recipient can dispute it")
  throw_if (not (has_status recorded payment)) (bad_request "This payment is not open for dispute")
  throw_if (ltb dispute_window_ms (now - payment.created_at))
      (bad_request "The 72-hour dispute window has closed")
  moved ←
      move_payment payment_id recorded (λ p. record p { status = disputed; disputed_at = some now })
        (bad_request "This payment is not open for dispute")
  log (event_of payment.house_id user_id "payment.disputed" "payment" payment_id)
  pure moved

pub resolve_payment_tx : ℕ → ℕ → ℕ → Tx Payment
resolve_payment_tx now payment_id user_id = do
  payment ←
      payment_for payment_id user_id
        (forbidden "Only the payment recipient can resolve their dispute")
  throw_if (not (has_status disputed payment))
      (bad_request "Only a disputed payment can be resolved")
  moved ←
      move_payment payment_id disputed (λ p. record p { status = resolved; resolved_at = some now })
        (bad_request "Only a disputed payment can be resolved")
  log (event_of payment.house_id user_id "payment.resolved" "payment" payment_id)
  pure moved

unfoldable pub dispute_payment : ℕ → ℕ → ℕ → World → Result Error Payment × World
dispute_payment now payment_id user_id = transact (dispute_payment_tx now payment_id user_id)

unfoldable pub resolve_payment : ℕ → ℕ → ℕ → World → Result Error Payment × World
resolve_payment now payment_id user_id = transact (resolve_payment_tx now payment_id user_id)
