-- ===== src/Ledger/Once.antt =====
-- Retries and races of the mutations of money: each request is executed once.
use homi_v.Idempotency.Laws.{
  with_idempotency-stored, with_idempotency_conflict, with_idempotency_retry, with_idempotency_race,
}
use homi_v.Prelude.{ℕ, ◌≡◌, ◌≢◌, none, some, ◌==◌, Bool-cases, inl, inr}
use homi_v.Prelude.Result.{Result, ok, err}
use homi_v.Db.{Error, StoredResponse, bad_request, conflict}
use homi_v.Activity.{World, transact}
use homi_v.Idempotency.{Options, find_stored_response}
use homi_v.Posting.{Env}
use homi_v.Ledger.Expenses.{
  ExpenseInput, create_expense, create_expense_tx, edit_expense, edit_expense_tx,
}
use homi_v.Ledger.Expenses.Created.{create_expense_tx-Stores}
use homi_v.Ledger.Expenses.Edited.{edit_expense_tx-Stores}
use homi_v.Ledger.Payments.{PaymentInput, record_payment, record_payment_tx}
use homi_v.Ledger.Payments.Lifecycle.{record_payment_tx-Stores}

-- Once `createExpense` has answered with a response, whatever others committed during the call, each
-- retry with its key and request has the same response and leaves the world as it is, whatever id
-- and time the retry would use and whatever commits during it.
pub create_expense_retry :
    (o : Options) (env again : Env) (house_id user_id : ℕ) (input : ExpenseInput)
    (meanwhile later : World → World) (w w' : World) (r : StoredResponse)
    → create_expense o env house_id user_id input meanwhile w ≡ (ok r, w')
    → create_expense o again house_id user_id input later w' ≡ (ok r, w')
unfolding create_expense
create_expense_retry o env again house_id user_id input meanwhile later w w' r h =
    with_idempotency_retry o (create_expense_tx o env house_id user_id input)
      (create_expense_tx-Stores o env house_id user_id input) meanwhile w w' r h
      (transact (create_expense_tx o again house_id user_id input)) later

-- Once `editExpense` has answered with a response, whatever others committed during the call, each
-- retry with its key and request has the same response and leaves the world as it is, whatever
-- commits during the retry.
pub edit_expense_retry :
    (o : Options) (expense_id user_id : ℕ) (input : ExpenseInput) (meanwhile later : World → World)
    (w w' : World) (r : StoredResponse)
    → edit_expense o expense_id user_id input meanwhile w ≡ (ok r, w')
    → edit_expense o expense_id user_id input later w' ≡ (ok r, w')
unfolding edit_expense
edit_expense_retry o expense_id user_id input meanwhile later w w' r h =
    with_idempotency_retry o (edit_expense_tx o expense_id user_id input)
      (edit_expense_tx-Stores o expense_id user_id input) meanwhile w w' r h
      (transact (edit_expense_tx o expense_id user_id input)) later

-- Once `recordPayment` has answered with a response, whatever others committed during the call, each
-- retry with its key and request has the same response and leaves the world as it is, whatever id
-- and time the retry would use and whatever commits during it.
pub record_payment_retry :
    (o : Options) (env again : Env) (house_id user_id : ℕ) (input : PaymentInput)
    (meanwhile later : World → World) (w w' : World) (r : StoredResponse)
    → record_payment o env house_id user_id input meanwhile w ≡ (ok r, w')
    → record_payment o again house_id user_id input later w' ≡ (ok r, w')
unfolding record_payment
record_payment_retry o env again house_id user_id input meanwhile later w w' r h =
    elim (Bool-cases (input.to_user == user_id)) [
      | inl oneself ↦ absurd (refused (rw oneself at h))
      | inr other ↦ rw other (
          with_idempotency_retry o (record_payment_tx o env house_id user_id input)
            (record_payment_tx-Stores o env house_id user_id input) meanwhile w w' r (rw other at h)
            (transact (record_payment_tx o again house_id user_id input)) later)
    ]
  where
    refused :
        ◌≢◌ {A = Result Error StoredResponse × World}
          (err (bad_request "You cannot record a payment to yourself"), w)
          (ok r, w')
    refused h = cc

-- Once `createExpense` has answered with a response, whatever others committed during the call, a
-- `createExpense` of the same user with its key but with another request is refused as a conflict
-- and leaves the world as it is.
pub create_expense_conflict :
    (o : Options) (env again : Env) (house_id user_id hash at : ℕ) (input other : ExpenseInput)
    (meanwhile later : World → World) (w w' : World) (r : StoredResponse)
    → create_expense o env house_id user_id input meanwhile w ≡ (ok r, w')
    → hash ≢ o.request_hash
    → create_expense
        (record o { request_hash = hash; now = at })
        again
        house_id
        user_id
        other
        later
        w'
      ≡ (err (conflict "Idempotency-Key was already used with a different request"), w')
unfolding create_expense
create_expense_conflict o env again house_id user_id hash at input other meanwhile later w w' r h
      ne =
    with_idempotency_conflict o hash at _ later w' r ne (
      with_idempotency-stored o (create_expense_tx o env house_id user_id input)
        (create_expense_tx-Stores o env house_id user_id input) meanwhile w w' r h)

-- If `createExpense` finds no response for its key, and another call stores one before it executes,
-- then it commits nothing: the world is what was committed meanwhile.
pub create_expense_race :
    (o : Options) (env : Env) (house_id user_id : ℕ) (input : ExpenseInput)
    (meanwhile : World → World) (w : World) (q : StoredResponse)
    → find_stored_response w.db o ≡ ok none
    → find_stored_response (meanwhile w).db o ≡ ok (some q)
    → (create_expense o env house_id user_id input meanwhile w).1 ≡ meanwhile w
unfolding create_expense
create_expense_race o env house_id user_id input meanwhile w q nothing stored =
    with_idempotency_race o (create_expense_tx o env house_id user_id input)
      (create_expense_tx-Stores o env house_id user_id input) meanwhile w q nothing stored
