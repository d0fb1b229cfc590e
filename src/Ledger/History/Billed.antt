-- ===== src/Ledger/History/Billed.antt =====
-- The mutations of bills, and the steps of the worker that posts them, keep the ledger sound.
use homi_v.Prelude.{ℕ, Bool, String, List}
use homi_v.Prelude.Result.{Result, ok, err}
use homi_v.Money.Split.{Splits}
use homi_v.Db.{Error, BillTemplate, ActivityEvent, StoredResponse}
use homi_v.Activity.{TxState, World, transact}
use homi_v.Activity.Laws.{Keeps, Announced, log-Announced}
use homi_v.Activity.Hoare.{Ensures}
use homi_v.Activity.Unrelated.{log-Keeps}
use homi_v.Idempotency.{Options, with_idempotency}
use homi_v.Posting.{Env, ExpenseSpec, insert_expense}
use homi_v.Posting.Insert.{insert_expense-Keeps}
use homi_v.Ledger.Periods.{PostedOnceOf, insert_expense-PostedOnce}
use homi_v.Ledger.Keeps.{reply-Announced, reply-Keeps}
use homi_v.Ledger.Expenses.Created.{BooksOf, BooksOf-Unrelated, insert_expense-BooksOf}
use homi_v.Ledger.Payments.Lifecycle.{PaymentsOf}
use homi_v.Bills.Schedule.{validate_schedule}
use homi_v.Bills.Service.{
  Format, CreateBillInput, create_bill, create_bill_tx, set_active, set_active_tx, schedule_as_400,
}
use homi_v.Bills.Service.Keeps.{create_bill_tx-Keeps, set_active_tx-Keeps}
use homi_v.Bills.Worker.{post_one, post_one_tx, pause, pause_tx, skip_period}
use homi_v.Bills.Worker.Keeps.{Postable, Exact, post_one_tx-Keeps, pause_tx-Keeps}
use homi_v.Ledger.History.Steps.{
  IsSound, KeepsSound, transact-IsSound, idempotent-IsSound, payments_alone, PostedOnce-Unrelated,
}

-- What the insert of any expense keeps is kept if the splits are exact.
always :
    {P : TxState → Type 0} (env : Env) (spec : ExpenseSpec) (s : Splits)
    → Keeps P (insert_expense env spec s)
    → Ensures (λ t. (P t) × Exact spec s) (insert_expense env spec s) (λ _. P)
always env spec s k = record { after = λ t e t' h r. k.at t e t' h.0 r }

books_postable : Postable BooksOf
books_postable = record {
  bills = λ t bs h. h;
  logs = λ e. log-Keeps e (λ t es ls h. h);
  inserts = insert_expense-BooksOf;
}

payments_postable : Postable PaymentsOf
payments_postable = record {
  bills = λ t bs h. h;
  logs = λ e. log-Keeps e (λ t es ls h. h);
  inserts = λ env spec s.
      always env spec s (insert_expense-Keeps PaymentsOf env spec s (λ t es rows h. h));
}

feed_postable : (base : List ActivityEvent) → Postable (Announced base)
feed_postable base = record {
  bills = λ t bs h. h;
  logs = log-Announced base;
  inserts = λ env spec s.
      always env spec s (insert_expense-Keeps (Announced base) env spec s (λ t es rows h. h));
}

periods_postable : Postable PostedOnceOf
periods_postable = record {
  bills = λ t bs h. h;
  logs = λ e. log-Keeps e (λ t es ls h. h);
  inserts = λ env spec s. always env spec s (insert_expense-PostedOnce env spec s);
}

post-KeepsSound :
    (env : Env) (b : BillTemplate) (currency : String) (due_iso advanced : List ℕ)
    → KeepsSound (post_one_tx env b currency due_iso advanced)
post-KeepsSound env b currency due_iso advanced = record {
  books = post_one_tx-Keeps BooksOf books_postable env b currency due_iso advanced;
  payments = post_one_tx-Keeps PaymentsOf payments_postable env b currency due_iso advanced;
  announced = λ base.
      post_one_tx-Keeps (Announced base) (feed_postable base) env b currency due_iso advanced;
  periods = post_one_tx-Keeps PostedOnceOf periods_postable env b currency due_iso advanced;
}

pause-KeepsSound : (id house_id actor_id : ℕ) → KeepsSound (pause_tx id house_id actor_id)
pause-KeepsSound id house_id actor_id = record {
  books = pause_tx-Keeps BooksOf books_postable id house_id actor_id;
  payments = pause_tx-Keeps PaymentsOf payments_postable id house_id actor_id;
  announced = λ base. pause_tx-Keeps (Announced base) (feed_postable base) id house_id actor_id;
  periods = pause_tx-Keeps PostedOnceOf periods_postable id house_id actor_id;
}

create_bill-KeepsSound :
    (format : Format) (o : Options) (env : Env) (house_id user_id : ℕ) (input : CreateBillInput)
    → KeepsSound (create_bill_tx format o env house_id user_id input)
create_bill-KeepsSound format o env house_id user_id input = record {
  books =
      create_bill_tx-Keeps BooksOf (λ t bs h. h)
        (λ p e r. reply-Keeps BooksOf p e r BooksOf-Unrelated) format o env house_id user_id input;
  payments =
      create_bill_tx-Keeps PaymentsOf (λ t bs h. h)
        (λ p e r. reply-Keeps PaymentsOf p e r payments_alone) format o env house_id user_id input;
  announced = λ base.
      create_bill_tx-Keeps (Announced base) (λ t bs h. h) (reply-Announced base) format o env
        house_id user_id input;
  periods =
      create_bill_tx-Keeps PostedOnceOf (λ t bs h. h)
        (λ p e r. reply-Keeps PostedOnceOf p e r PostedOnce-Unrelated) format o env house_id user_id
        input;
}

switch_bill-KeepsSound :
    (format : Format) (now house_id bill_id user_id : ℕ) (active : Bool)
    → KeepsSound (set_active_tx format now house_id bill_id user_id active)
switch_bill-KeepsSound format now house_id bill_id user_id active = record {
  books =
      set_active_tx-Keeps BooksOf (λ t bs h. h) books_postable.logs format now house_id bill_id
        user_id active;
  payments =
      set_active_tx-Keeps PaymentsOf (λ t bs h. h) payments_postable.logs format now house_id
        bill_id user_id active;
  announced = λ base.
      set_active_tx-Keeps (Announced base) (λ t bs h. h) (log-Announced base) format now house_id
        bill_id user_id active;
  periods =
      set_active_tx-Keeps PostedOnceOf (λ t bs h. h) periods_postable.logs format now house_id
        bill_id user_id active;
}

pub create_bill-IsSound :
    (format : Format) (o : Options) (env : Env) (house_id user_id : ℕ) (input : CreateBillInput)
    (meanwhile : World → World) (v : World)
    → IsSound v
    → IsSound (meanwhile v)
    → IsSound (create_bill format o env house_id user_id input meanwhile v).1
unfolding create_bill
create_bill-IsSound format o env house_id user_id input meanwhile v s between =
    by_check (validate_schedule input.cadence input.cadence_day)
  where
    by_check :
        (r : Result Error (Unit {0}))
        → (let out : Result Error StoredResponse × World = elim r [
          | err e ↦ (err (schedule_as_400 e), v)
          | ok _ ↦
              with_idempotency o
                (transact (create_bill_tx format o env house_id user_id input))
                meanwhile
                v
        ] in
            IsSound out.1)
    by_check (err e) = s
    by_check (ok _) =
        idempotent-IsSound o (create_bill_tx format o env house_id user_id input)
          (create_bill-KeepsSound format o env house_id user_id input) meanwhile v s between

pub set_active-IsSound :
    (format : Format) (now house_id bill_id user_id : ℕ) (active : Bool) (v : World)
    → IsSound v
    → IsSound (set_active format now house_id bill_id user_id active v).1
unfolding set_active
set_active-IsSound format now house_id bill_id user_id active v s =
    transact-IsSound (set_active_tx format now house_id bill_id user_id active)
      (switch_bill-KeepsSound format now house_id bill_id user_id active) v s

pub post_one-IsSound :
    (env : Env) (b : BillTemplate) (currency : String) (due_iso advanced : List ℕ) (v : World)
    → IsSound v
    → IsSound (post_one env b currency due_iso advanced v).1
unfolding post_one
post_one-IsSound env b currency due_iso advanced v s =
    transact-IsSound (post_one_tx env b currency due_iso advanced)
      (post-KeepsSound env b currency due_iso advanced) v s

pub pause-IsSound : (b : BillTemplate) (v : World) → IsSound v → IsSound (pause b v)
unfolding pause
pause-IsSound b v s =
    transact-IsSound (pause_tx b.id b.house_id b.owner_id)
      (pause-KeepsSound b.id b.house_id b.owner_id) v s

pub skip_period-IsSound :
    (id : ℕ) (due_iso advanced : List ℕ) (v : World)
    → IsSound v
    → IsSound (skip_period id due_iso advanced v)
unfolding skip_period
skip_period-IsSound id due_iso advanced v s = record {
  books = s.books;
  payments = s.payments;
  announced = s.announced;
  periods = s.periods;
}
