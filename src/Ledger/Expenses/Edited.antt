-- ===== src/Ledger/Expenses/Edited.antt =====
-- What `editExpense` stores, announces and does to the books.
use homi_v.Prelude.{
  Distinct, ℕ, ◌≡◌, refl, sym, ◌∙◌, subst, true, Option, none, some, List, [], ◌∷◌, ◌++◌, find, sum,
  contains, arith, ◌==◌, update_where, delete_where,
}
use homi_v.Prelude.Dict.{keys, values}
use homi_v.Prelude.Result.{ok}
use homi_v.Money.Split.{Splits}
use homi_v.Db.{
  Db, Expense, ExpenseSplit, Revision, StoredResponse, ActivityEvent, not_found, expense_body,
}
use homi_v.Activity.{TxState, query, or_throw, execute}
use homi_v.Activity.Laws.{
  Keeps, Keeps-bind, Keeps-query, Keeps-or_throw, Keeps-execute, or_throw-eq-ok,
}
use homi_v.Activity.Hoare.{Ensures, Ensures-bind, Ensures-then, Ensures-Keeps, Keeps-Ensures}
use homi_v.Activity.Unrelated.{Unrelated}
use homi_v.Idempotency.{Options}
use homi_v.Idempotency.Stores.{Stores, Stores-bind, KeysAre}
use homi_v.Posting.{active_member, split_rows}
use homi_v.Posting.Resolve.{resolve_splits-Keeps}
use homi_v.Ledger.{event_of, reply}
use homi_v.Ledger.Books.{Books-replace, ids_of}
use homi_v.Ledger.Keeps.{as_400-Keeps, reply-Stores, reply-Keeps}
use homi_v.Ledger.Expenses.{
  ExpenseInput, edit_expense_tx, resolve_input, find_expense, is_live, rows_of, revision_of, edited,
  replace_expense,
}
use homi_v.Ledger.Expenses.Created.{BooksOf, resolved-BooksOf}

abbrev pub add_revision : Revision → Db → Db
add_revision r db = record db { revisions = db.revisions ++ r ∷ [] }

pub replace-state :
    (id : ℕ) (input : ExpenseInput) (s : Splits) (t t' : TxState)
    → replace_expense id input s t ≡ ok (tt, t')
    → t' ≡ record t {
      db =
          (let d = t.db in
            record d {
              expenses = update_where (λ e. e.id == id) (edited input) d.expenses;
              splits = delete_where (λ r. r.expense_id == id) d.splits ++ split_rows id s;
            });
    }
unfolding replace_expense
replace-state id input s t t' h = ground arith

-- What depends neither on the expenses nor on their splits.
pub replace_expense-Keeps :
    (P : TxState → Type 0) (id : ℕ) (input : ExpenseInput) (s : Splits)
    → ((t : TxState) (es : List Expense) (rows : List ExpenseSplit)
        → P t
        → P (record t { db = (let d = t.db in record d { expenses = es; splits = rows }) }))
    → Keeps P (replace_expense id input s)
replace_expense-Keeps P id input s u = record {
  at = λ t a t' h k. subst P (sym (replace-state id input s t t' k)) (
      u t (update_where (λ e. e.id == id) (edited input) t.db.expenses)
        (delete_where (λ r. r.expense_id == id) t.db.splits ++ split_rows id s) h);
}

pub edit_expense_tx-Stores :
    (o : Options) (expense_id user_id : ℕ) (input : ExpenseInput)
    → Stores o (edit_expense_tx o expense_id user_id input)
unfolding edit_expense_tx
edit_expense_tx-Stores o expense_id user_id input =
    Stores-bind o (query (find_expense expense_id)) _ (λ ks. Keeps-query (find_expense expense_id))
      (λ row.
        Stores-bind o (or_throw (is_live row) (not_found "Expense not found")) _
          (λ ks. Keeps-or_throw (is_live row) (not_found "Expense not found"))
          (λ e.
            Stores-bind o (query (active_member e.house_id user_id)) _
              (λ ks. Keeps-query (active_member e.house_id user_id))
              (λ editor.
                Stores-bind o (or_throw editor (not_found "Expense not found")) _
                  (λ ks. Keeps-or_throw editor (not_found "Expense not found"))
                  (λ _.
                    Stores-bind o (query (rows_of expense_id)) _
                      (λ ks. Keeps-query (rows_of expense_id))
                      (λ previous.
                        Stores-bind o (execute (add_revision (revision_of user_id e previous))) _
                          (λ ks.
                            Keeps-execute (add_revision (revision_of user_id e previous))
                              (λ t h. h))
                          (λ _.
                            Stores-bind o _ _
                              (λ ks.
                                as_400-Keeps _
                                  (resolve_splits-Keeps e.house_id (resolve_input input) none))
                              (λ s.
                                Stores-bind o (replace_expense expense_id input s) _
                                  (λ ks.
                                    replace_expense-Keeps (KeysAre ks) expense_id input s
                                      (λ t es rows h. h))
                                  (λ _.
                                    reply-Stores o
                                      (event_of e.house_id user_id "expense.edited" "expense"
                                        expense_id)
                                      (record {
                                        status = 200;
                                        body = expense_body (edited input e) s;
                                      })))))))))

module _ (P : TxState → Type 0)
    (replaces : (id : ℕ) (input : ExpenseInput) (s : Splits) → Keeps P (replace_expense id input s))
    (kr : (t : TxState) (rs : List Revision)
      → P t
      → P (record t { db = (let d = t.db in record d { revisions = rs }) }))
    (replies : (o : Options) (e : ActivityEvent) (r : StoredResponse) → Keeps P (reply o e r)) where
  -- What the replacement of an expense, a new revision and the reply keep.
  pub edit_expense_tx-Keeps :
      (o : Options) (expense_id user_id : ℕ) (input : ExpenseInput)
      → Keeps P (edit_expense_tx o expense_id user_id input)
  unfolding edit_expense_tx
  edit_expense_tx-Keeps o expense_id user_id input =
      Keeps-bind _ _ (Keeps-query (find_expense expense_id)) (λ row.
        Keeps-bind _ _ (Keeps-or_throw (is_live row) (not_found "Expense not found")) (λ e.
          Keeps-bind _ _ (Keeps-query (active_member e.house_id user_id)) (λ editor.
            Keeps-bind _ _ (Keeps-or_throw editor (not_found "Expense not found")) (λ _.
              Keeps-bind _ _ (Keeps-query (rows_of expense_id)) (λ previous.
                Keeps-bind (execute (add_revision (revision_of user_id e previous))) _
                  (Keeps-execute (add_revision (revision_of user_id e previous))
                    (λ t h. kr t (t.db.revisions ++ revision_of user_id e previous ∷ []) h))
                  (λ _.
                    Keeps-bind _ _
                      (as_400-Keeps _ (resolve_splits-Keeps e.house_id (resolve_input input) none))
                      (λ s.
                        Keeps-bind (replace_expense expense_id input s) _
                          (replaces expense_id input s)
                          (λ _.
                            replies o
                              (event_of e.house_id user_id "expense.edited" "expense" expense_id)
                              (record {
                                status = 200;
                                body = expense_body (edited input e) s;
                              })))))))))

-- The books, and the expense that the edit has found in them.
abbrev Known : ℕ → TxState → Type 0
Known id t = (BooksOf t) × (contains id (ids_of t.db.expenses) ≡ true)

known-find :
    (id : ℕ) (es : List Expense) (e : Expense)
    → find (λ x. x.id == id) es ≡ some e
    → contains id (ids_of es) ≡ true
known-find id [] e h = cc
known-find id (x ∷ es) e h = ground (arith, known-find id es e)

pub known-live : (row : Option Expense) (e : Expense) → is_live row ≡ some e → row ≡ some e
known-live none e h = cc
known-live (some x) e h = ground arith

find-Known :
    (id : ℕ)
    → Ensures BooksOf
        (query (find_expense id))
        (λ row t. (BooksOf t) × (find (λ x. x.id == id) t.db.expenses ≡ row))
unfolding find_expense
find-Known id = record { after = λ t row t' h e. settled t t' row h e }
  where
    settled :
        (t t' : TxState) (row : Option Expense)
        → BooksOf t
        → query (find_expense id) t ≡ ok (row, t')
        → (BooksOf t') × (find (λ x. x.id == id) t'.db.expenses ≡ row)
    settled t t' row h e =
        let same : t ≡ t' = cc in
        let is_row : find (λ x. x.id == id) t.db.expenses ≡ row = cc in
        subst (λ x. (BooksOf x) × (find (λ y. y.id == id) x.db.expenses ≡ row)) same (h, is_row)

live-Known :
    (id : ℕ) (row : Option Expense)
    → Ensures
        (λ t. (BooksOf t) × (find (λ x. x.id == id) t.db.expenses ≡ row))
        (or_throw (is_live row) (not_found "Expense not found"))
        (λ _. Known id)
live-Known id row = record {
  after = λ t e t' h k.
      let (live, same) = or_throw-eq-ok (is_live row) (not_found "Expense not found") t k in
      subst (Known id) (sym same)
        (h.0, known-find id t.db.expenses e (h.1 ∙ known-live row e live));
}

Known-Unrelated : (id : ℕ) → Unrelated (Known id)
Known-Unrelated id = record { events = λ t es ls h. h; keys = λ t ks h. h }

-- The replacement of an expense of the books keeps them.
replace_expense-Books :
    (id : ℕ) (input : ExpenseInput) (s : Splits)
    → Ensures
        (λ t. (Known id t) × ((sum (values s) ≡ input.amount_cents) × Distinct (keys s)))
        (replace_expense id input s)
        (λ _. BooksOf)
replace_expense-Books id input s = record {
  after = λ t a t' h k. subst BooksOf (sym (replace-state id input s t t' k)) (
      Books-replace id (edited input) (λ e. refl) t.db.splits s (λ e. h.1.0) t.db.expenses h.0.0
        h.0.1 h.1.1);
}

pub edit_expense_tx-BooksOf :
    (o : Options) (expense_id user_id : ℕ) (input : ExpenseInput)
    → Keeps BooksOf (edit_expense_tx o expense_id user_id input)
unfolding edit_expense_tx
edit_expense_tx-BooksOf o expense_id user_id input = Keeps-Ensures _ (
    Ensures-bind _ _ _ (find-Known expense_id) (λ row.
      Ensures-bind _ _ _ (live-Known expense_id row) (λ e.
        Ensures-then _ _ (Keeps-query (active_member e.house_id user_id)) (λ editor.
          Ensures-then _ _ (Keeps-or_throw editor (not_found "Expense not found")) (λ _.
            Ensures-then _ _ (Keeps-query (rows_of expense_id)) (λ previous.
              Ensures-then (execute (add_revision (revision_of user_id e previous))) _
                (Keeps-execute (add_revision (revision_of user_id e previous)) (λ t h. h))
                (λ _.
                  Ensures-bind _ _ _
                    (resolved-BooksOf (Known expense_id) e.house_id (resolve_input input))
                    (λ s. Ensures-bind _ _ _ (replace_expense-Books expense_id input s) (λ _.
                      Ensures-Keeps _ (
                        reply-Keeps BooksOf o
                          (event_of e.house_id user_id "expense.edited" "expense" expense_id)
                          (record { status = 200; body = expense_body (edited input e) s })
                          (record { events = λ t es ls h. h; keys = λ t ks h. h })))))))))))
