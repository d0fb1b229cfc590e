-- ===== src/Ledger/Expenses/Created.antt =====
-- What `createExpense` stores, announces and does to the books.
use homi_v.Prelude.{
  Distinct, ℕ, ◌≡◌, refl, sym, subst, false, none, List, [], ◌∷◌, any, sum, contains, arith, ◌==◌,
}
use homi_v.Prelude.Dict.{keys, values}
use homi_v.Money.Split.{Splits}
use homi_v.Db.{Expense, StoredResponse, ActivityEvent, IdempotencyKey}
use homi_v.Activity.{TxState}
use homi_v.Activity.Laws.{Keeps, Keeps-bind}
use homi_v.Activity.Hoare.{Ensures, Ensures-bind, Ensures-then, Ensures-Keeps, Keeps-Ensures}
use homi_v.Activity.Unrelated.{Unrelated}
use homi_v.Idempotency.{Options}
use homi_v.Idempotency.Stores.{Stores, Stores-bind, KeysAre}
use homi_v.Posting.{
  resolve_splits, ResolveSplitsInput, insert_expense, Env, ExpenseSpec, expense_row,
}
use homi_v.Posting.Resolve.{resolve_splits-Keeps, resolve_splits-IsResolved}
use homi_v.Posting.Insert.{insert_expense-Keeps, insert_expense-eq-ok}
use homi_v.Ledger.{as_400, event_of, reply}
use homi_v.Ledger.Books.{Books, Books-insert, ids_of}
use homi_v.Ledger.Keeps.{as_400-Keeps, as_400-eq-ok, house_for-Keeps, reply-Stores, reply-Keeps}
use homi_v.Ledger.Expenses.{ExpenseInput, create_expense_tx, resolve_input, created_spec, created}

insert-KeysAre :
    (env : Env) (spec : ExpenseSpec) (s : Splits) (ks : List IdempotencyKey)
    → Keeps (KeysAre ks) (insert_expense env spec s)
insert-KeysAre env spec s ks = insert_expense-Keeps (KeysAre ks) env spec s (λ t es rows h. h)

pub create_expense_tx-Stores :
    (o : Options) (env : Env) (house_id user_id : ℕ) (input : ExpenseInput)
    → Stores o (create_expense_tx o env house_id user_id input)
unfolding create_expense_tx
create_expense_tx-Stores o env house_id user_id input =
    Stores-bind o _ _ (λ ks. house_for-Keeps house_id input.currency)
      (λ house.
        Stores-bind o _ _
          (λ ks. as_400-Keeps _ (resolve_splits-Keeps house_id (resolve_input input) none))
          (λ s.
            Stores-bind o (insert_expense env (created_spec house_id user_id input house) s) _
              (λ ks. insert-KeysAre env (created_spec house_id user_id input house) s ks)
              (λ e.
                reply-Stores o (event_of house_id user_id "expense.created" "expense" e.id)
                  (created e s))))

module _ (P : TxState → Type 0)
    (inserts : (env : Env) (spec : ExpenseSpec) (s : Splits) → Keeps P (insert_expense env spec s))
    (replies : (o : Options) (e : ActivityEvent) (r : StoredResponse) → Keeps P (reply o e r)) where
  -- What the insert of an expense and the reply keep.
  pub create_expense_tx-Keeps :
      (o : Options) (env : Env) (house_id user_id : ℕ) (input : ExpenseInput)
      → Keeps P (create_expense_tx o env house_id user_id input)
  unfolding create_expense_tx
  create_expense_tx-Keeps o env house_id user_id input =
      Keeps-bind _ _ (house_for-Keeps house_id input.currency) (λ house.
        Keeps-bind _ _ (as_400-Keeps _ (resolve_splits-Keeps house_id (resolve_input input) none))
          (λ s. Keeps-bind _ _ (inserts env (created_spec house_id user_id input house) s) (λ e.
            replies o (event_of house_id user_id "expense.created" "expense" e.id) (created e s))))

-- The books of the tables in a transaction.
abbrev pub BooksOf : TxState → Type 0
BooksOf t = Books t.db.expenses t.db.splits

pub BooksOf-Unrelated : Unrelated BooksOf
BooksOf-Unrelated = record { events = λ t es ls h. h; keys = λ t ks h. h }

pub resolved-BooksOf :
    (P : TxState → Type 0) (house_id : ℕ) (input : ResolveSplitsInput)
    → Ensures P
        (as_400 (resolve_splits house_id input none))
        (λ s t. (P t) × ((sum (values s) ≡ input.amount_cents) × Distinct (keys s)))
resolved-BooksOf P house_id input = record {
  after = λ t s t' h e.
      let (same, r) = resolve_splits-IsResolved house_id input t s t' (as_400-eq-ok _ t e) in
      (subst P (sym same) h, (r.adds_up, subst Distinct (sym r.names) r.distinct));
}

fresh-ids :
    (id : ℕ) (es : List Expense)
    → any (λ e. e.id == id) es ≡ false
    → contains id (ids_of es) ≡ false
fresh-ids id [] h = refl
fresh-ids id (e ∷ es) h = ground (arith, fresh-ids id es)

-- The insert of an expense whose splits add up keeps the books.
pub insert_expense-BooksOf :
    (env : Env) (spec : ExpenseSpec) (s : Splits)
    → Ensures
        (λ t. (BooksOf t) × ((sum (values s) ≡ spec.amount_cents) × Distinct (keys s)))
        (insert_expense env spec s)
        (λ _. BooksOf)
insert_expense-BooksOf env spec s = record {
  after = λ t e t' h k.
      let inserted = insert_expense-eq-ok env spec s t t' e k in
      subst BooksOf (sym inserted.state) (
        Books-insert t.db.expenses t.db.splits (expense_row env spec) s h.0
          (fresh-ids env.new_id t.db.expenses inserted.fresh) h.1.0 h.1.1);
}

pub create_expense_tx-BooksOf :
    (o : Options) (env : Env) (house_id user_id : ℕ) (input : ExpenseInput)
    → Keeps BooksOf (create_expense_tx o env house_id user_id input)
unfolding create_expense_tx
create_expense_tx-BooksOf o env house_id user_id input = Keeps-Ensures _ (
    Ensures-then _ _ (house_for-Keeps house_id input.currency) (λ house.
      Ensures-bind _ _ _ (resolved-BooksOf BooksOf house_id (resolve_input input)) (λ s.
        Ensures-bind _ _ _
          (insert_expense-BooksOf env (created_spec house_id user_id input house) s)
          (λ e. Ensures-Keeps _ (
            reply-Keeps BooksOf o (event_of house_id user_id "expense.created" "expense" e.id)
              (created e s) BooksOf-Unrelated)))))
