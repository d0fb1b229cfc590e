-- ===== src/Ledger/History/Steps.antt =====
-- The ledger is sound, and every mutation keeps it so.
use homi_v.Prelude.{
  ℕ, ◌≡◌, refl, sym, ap, ◌∙◌, List, [], ◌∷◌, ◌++◌, map, All, ◌==◌, Bool-cases, inl, inr,
}
use homi_v.Prelude.Result.{Result, ok, err}
use homi_v.Db.{Error, StoredResponse, ActivityEvent}
use homi_v.Activity.{Tx, World, transact, hint_of}
use homi_v.Activity.Laws.{Keeps, Announced, Publishes, transact-Publishes, transact-Keeps}
use homi_v.Activity.Unrelated.{Unrelated}
use homi_v.Posting.{Env}
use homi_v.Idempotency.{Options, with_idempotency}
use homi_v.Idempotency.Laws.{with_idempotency_keeps}
use homi_v.Ledger.Books.{Books}
use homi_v.Ledger.Keeps.{reply-Announced, reply-Keeps}
use homi_v.Ledger.Expenses.{ExpenseInput, create_expense_tx, edit_expense_tx}
use homi_v.Ledger.Expenses.Created.{
  BooksOf, BooksOf-Unrelated, create_expense_tx-BooksOf, create_expense_tx-Keeps,
}
use homi_v.Ledger.Expenses.Edited.{
  edit_expense_tx-BooksOf, edit_expense_tx-Keeps, replace_expense-Keeps,
}
use homi_v.Posting.Insert.{insert_expense-Keeps}
use homi_v.Ledger.Periods.{
  PostedOnce, PostedOnceOf, insert_expense-PostedOnce, replace_expense-PostedOnce,
}
use homi_v.Ledger.Payments.{
  PaymentInput, record_payment, record_payment_tx, dispute_payment_tx, resolve_payment_tx,
}
use homi_v.Ledger.Payments.Lifecycle.{
  IsPayment, PaymentsOf, record_payment_tx-Announced, record_payment_tx-PaymentsOf,
  record_payment_tx_unrelated,
}
use homi_v.Ledger.Payments.Dispute.{
  dispute_payment_tx-PaymentsOf, dispute_payment_tx-Announced, dispute_payment_tx_unrelated,
  resolve_payment_tx-PaymentsOf, resolve_payment_tx-Announced, resolve_payment_tx_unrelated,
}

-- The splits of every expense add up to it, every payment is consistent, no period of a bill has two
-- expenses, and what was announced is what is on the feed, in its order.
pub record IsSound (w : World) : Type 0 where
  pub books : Books w.db.expenses w.db.splits
  pub payments : All IsPayment w.db.payments
  pub announced : w.published ≡ map hint_of w.db.events
  pub periods : PostedOnce w.db.expenses

pub payments_alone : Unrelated PaymentsOf
payments_alone = record { events = λ t es ls h. h; keys = λ t ks h. h }

pub PostedOnce-Unrelated : Unrelated PostedOnceOf
PostedOnce-Unrelated = record { events = λ t es ls h. h; keys = λ t ks h. h }

-- A transaction that keeps all four.
pub record KeepsSound {A : Type 0} (m : Tx A) : Type 0 where
  pub books : Keeps BooksOf m
  pub payments : Keeps PaymentsOf m
  pub announced : (base : List ActivityEvent) → Keeps (Announced base) m
  pub periods : Keeps PostedOnceOf m

map-append :
    (xs ys : List ActivityEvent) → map hint_of (xs ++ ys) ≡ map hint_of xs ++ map hint_of ys
map-append [] ys = refl
map-append (x ∷ xs) ys = ap (λ l. hint_of x ∷ l) (map-append xs ys)

pub published-IsFeed :
    {A : Type 0} (w : World) (r : Result Error A × World)
    → Publishes w r
    → w.published ≡ map hint_of w.db.events
    → r.1.published ≡ map hint_of r.1.db.events
published-IsFeed w (err e, w') p h = rw p h
published-IsFeed w (ok a, w') (added, feed, out) h =
    rw (feed, out) (ap (λ l. l ++ map hint_of added) h ∙ sym (map-append w.db.events added))

pub transact-IsSound :
    {A : Type 0} (m : Tx A) → KeepsSound m → (w : World) → IsSound w → IsSound (transact m w).1
transact-IsSound m k w s = record {
  books = transact-Keeps BooksOf m w (λ d l l' h. h) k.books s.books;
  payments = transact-Keeps PaymentsOf m w (λ d l l' h. h) k.payments s.payments;
  announced =
      published-IsFeed w (transact m w) (transact-Publishes m w (k.announced w.db.events))
        s.announced;
  periods = transact-Keeps PostedOnceOf m w (λ d l l' h. h) k.periods s.periods;
}

pub create-KeepsSound :
    (o : Options) (env : Env) (house_id user_id : ℕ) (input : ExpenseInput)
    → KeepsSound (create_expense_tx o env house_id user_id input)
create-KeepsSound o env house_id user_id input = record {
  books = create_expense_tx-BooksOf o env house_id user_id input;
  payments =
      create_expense_tx-Keeps PaymentsOf
        (λ e spec s. insert_expense-Keeps PaymentsOf e spec s (λ t es rows h. h))
        (λ p e r. reply-Keeps PaymentsOf p e r payments_alone) o env house_id user_id input;
  announced = λ base.
      create_expense_tx-Keeps (Announced base)
        (λ e spec s. insert_expense-Keeps (Announced base) e spec s (λ t es rows h. h))
        (reply-Announced base) o env house_id user_id input;
  periods =
      create_expense_tx-Keeps PostedOnceOf insert_expense-PostedOnce
        (λ p e r. reply-Keeps PostedOnceOf p e r PostedOnce-Unrelated) o env house_id user_id input;
}

pub edit-KeepsSound :
    (o : Options) (expense_id user_id : ℕ) (input : ExpenseInput)
    → KeepsSound (edit_expense_tx o expense_id user_id input)
edit-KeepsSound o expense_id user_id input = record {
  books = edit_expense_tx-BooksOf o expense_id user_id input;
  payments =
      edit_expense_tx-Keeps PaymentsOf
        (λ id i s. replace_expense-Keeps PaymentsOf id i s (λ t es rows h. h)) (λ t rs h. h)
        (λ p e r. reply-Keeps PaymentsOf p e r payments_alone) o expense_id user_id input;
  announced = λ base.
      edit_expense_tx-Keeps (Announced base)
        (λ id i s. replace_expense-Keeps (Announced base) id i s (λ t es rows h. h)) (λ t rs h. h)
        (reply-Announced base) o expense_id user_id input;
  periods =
      edit_expense_tx-Keeps PostedOnceOf replace_expense-PostedOnce (λ t rs h. h)
        (λ p e r. reply-Keeps PostedOnceOf p e r PostedOnce-Unrelated) o expense_id user_id input;
}

record-KeepsSound :
    (o : Options) (env : Env) (house_id user_id : ℕ) (input : PaymentInput)
    → KeepsSound (record_payment_tx o env house_id user_id input)
record-KeepsSound o env house_id user_id input = record {
  books =
      record_payment_tx_unrelated o env house_id user_id input BooksOf BooksOf-Unrelated
        (λ t ps h. h);
  payments = record_payment_tx-PaymentsOf o env house_id user_id input;
  announced = record_payment_tx-Announced o env house_id user_id input;
  periods =
      record_payment_tx_unrelated o env house_id user_id input PostedOnceOf PostedOnce-Unrelated
        (λ t ps h. h);
}

pub dispute-KeepsSound :
    (now payment_id user_id : ℕ) → KeepsSound (dispute_payment_tx now payment_id user_id)
dispute-KeepsSound now id user_id = record {
  books = dispute_payment_tx_unrelated now id user_id BooksOf BooksOf-Unrelated (λ t ps h. h);
  payments = dispute_payment_tx-PaymentsOf now id user_id;
  announced = dispute_payment_tx-Announced now id user_id;
  periods =
      dispute_payment_tx_unrelated now id user_id PostedOnceOf PostedOnce-Unrelated (λ t ps h. h);
}

pub resolve-KeepsSound :
    (now payment_id user_id : ℕ) → KeepsSound (resolve_payment_tx now payment_id user_id)
resolve-KeepsSound now id user_id = record {
  books = resolve_payment_tx_unrelated now id user_id BooksOf BooksOf-Unrelated (λ t ps h. h);
  payments = resolve_payment_tx-PaymentsOf now id user_id;
  announced = resolve_payment_tx-Announced now id user_id;
  periods =
      resolve_payment_tx_unrelated now id user_id PostedOnceOf PostedOnce-Unrelated (λ t ps h. h);
}

pub idempotent-IsSound :
    (o : Options) (m : Tx StoredResponse)
    → KeepsSound m
    → (meanwhile : World → World) (v : World) → IsSound v
    → IsSound (meanwhile v)
    → IsSound (with_idempotency o (transact m) meanwhile v).1
idempotent-IsSound o m k meanwhile v s between =
    with_idempotency_keeps IsSound o (transact m) meanwhile v (transact-IsSound m k) s between

pub record_payment-IsSound :
    (o : Options) (env : Env) (house_id user_id : ℕ) (input : PaymentInput)
    (meanwhile : World → World) (v : World)
    → IsSound v
    → IsSound (meanwhile v)
    → IsSound (record_payment o env house_id user_id input meanwhile v).1
unfolding record_payment
record_payment-IsSound o env house_id user_id input meanwhile v s between =
    elim (Bool-cases (input.to_user == user_id)) [
      | inl oneself ↦ rw oneself s
      | inr other ↦ rw other (
          idempotent-IsSound o (record_payment_tx o env house_id user_id input)
            (record-KeepsSound o env house_id user_id input) meanwhile v s between)
    ]
