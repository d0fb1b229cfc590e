-- ===== src/Ledger/Expenses/Revised.antt =====
-- What `editExpense` saves of the expense before it changes it.
use homi_v.Prelude.{
  ℕ, ◌≡◌, refl, sym, ap, ◌∙◌, subst, Option, none, some, List, [], ◌∷◌, ◌++◌, find, keep, map,
  Distinct, ◌==◌,
}
use mathlib.Core.List.{append-nil, append_assoc}
use homi_v.Prelude.Dict.{keys, insert, insert_new, Fresh, Fresh-nil, Fresh-snoc, keys-append}
use homi_v.Prelude.Result.{ok}
use homi_v.Money.Split.{Splits}
use homi_v.Db.{Expense, ExpenseSplit, Revision, StoredResponse, not_found, expense_body}
use homi_v.Activity.{TxState, World, transact, query, or_throw, execute}
use homi_v.Activity.Laws.{Keeps-query, Keeps-or_throw, or_throw-eq-ok, transact-eq-ok}
use homi_v.Activity.Hoare.{Ensures, Ensures-bind, Ensures-then, Ensures-Keeps}
use homi_v.Idempotency.{Options}
use homi_v.Posting.{resolve_splits, active_member}
use homi_v.Posting.Resolve.{resolve_splits-Keeps}
use homi_v.Ledger.{as_400, event_of}
use homi_v.Ledger.Keeps.{as_400-Keeps, reply-Keeps}
use homi_v.Ledger.Expenses.{
  ExpenseInput, edit_expense_tx, resolve_input, find_expense, is_live, rows_of, from_rows,
  revision_of, edited, replace_expense,
}
use homi_v.Ledger.Expenses.Edited.{add_revision, replace_expense-Keeps, known-live}

-- The tables that an edit starts from.
module _ (id user_id : ℕ) (es : List Expense) (ss : List ExpenseSplit) (rs : List Revision) where
  abbrev Before : TxState → Type 0
  Before t = (t.db.expenses ≡ es) × (t.db.splits ≡ ss) × (t.db.revisions ≡ rs)

  abbrev Found : Option Expense → TxState → Type 0
  Found row t = (Before t) × (find (λ e. e.id == id) es ≡ row)

  abbrev WithSplits : Expense → List ExpenseSplit → TxState → Type 0
  WithSplits e previous t = (Found (some e) t) × (previous ≡ keep (λ s. s.expense_id == id) ss)

  -- The expense as it was, and its splits, are the last revision.
  abbrev pub Revised : TxState → Type 0
  Revised t =
      (e : Expense) × (find (λ x. x.id == id) es ≡ some e)
      × (t.db.revisions ≡ rs ++ revision_of user_id e (keep (λ s. s.expense_id == id) ss) ∷ [])

  find-Found : Ensures Before (query (find_expense id)) Found
  unfolding find_expense
  find-Found = record {
    after = λ t row t' h k.
        let same : t ≡ t' = cc in
        let found : find (λ e. e.id == id) t.db.expenses ≡ row = cc in
        (subst Before same h, ap (find (λ e. e.id == id)) (sym h.0) ∙ found);
  }

  live-Found :
      (row : Option Expense)
      → Ensures
          (Found row)
          (or_throw (is_live row) (not_found "Expense not found"))
          (λ e. Found (some e))
  live-Found row = record {
    after = λ t e t' h k.
        let (live, same) = or_throw-eq-ok (is_live row) (not_found "Expense not found") t k in
        (subst Before (sym same) h.0, h.1 ∙ known-live row e live);
  }

  rows-WithSplits : (e : Expense) → Ensures (Found (some e)) (query (rows_of id)) (WithSplits e)
  rows-WithSplits e = record {
    after = λ t previous t' h k.
        let same : t ≡ t' = cc in
        let read : keep (λ s. s.expense_id == id) t.db.splits ≡ previous = cc in
        (subst (Found (some e)) same h, sym read ∙ ap (keep (λ s. s.expense_id == id)) h.0.1);
  }

  add-Revised :
      (e : Expense) (previous : List ExpenseSplit)
      → Ensures
          (WithSplits e previous)
          (execute (add_revision (revision_of user_id e previous)))
          (λ _. Revised)
  add-Revised e previous = record {
    after = λ t a t' h k.
        let r = revision_of user_id e previous in
        let same : record t { db = add_revision r t.db } ≡ t' = cc in
        let grown : t.db.revisions ++ r ∷ []
            ≡ rs ++ revision_of user_id e (keep (λ s. s.expense_id == id) ss) ∷ [] =
          ap (λ l. l ++ r ∷ []) h.0.0.2 ∙ ap (λ p. rs ++ revision_of user_id e p ∷ []) h.1 in
        subst Revised same (e, h.0.1, grown);
  }

  edit-Revised :
      (o : Options) (input : ExpenseInput)
      → Ensures Before (edit_expense_tx o id user_id input) (λ _. Revised)
  unfolding edit_expense_tx
  edit-Revised o input = Ensures-bind Found _ _ find-Found (λ row.
      Ensures-bind (λ e. Found (some e)) _ _ (live-Found row)
        (λ e.
          Ensures-then (query (active_member e.house_id user_id)) _
            (Keeps-query (active_member e.house_id user_id))
            (λ editor.
              Ensures-then (or_throw editor (not_found "Expense not found")) _
                (Keeps-or_throw editor (not_found "Expense not found"))
                (λ _. Ensures-bind (WithSplits e) _ _ (rows-WithSplits e) (λ previous.
                  Ensures-bind (λ _. Revised) _ _ (add-Revised e previous)
                    (λ _.
                      Ensures-then (as_400 (resolve_splits e.house_id (resolve_input input) none)) _
                        (as_400-Keeps _
                          (resolve_splits-Keeps e.house_id (resolve_input input) none))
                        (λ s.
                          Ensures-then (replace_expense id input s) _
                            (replace_expense-Keeps Revised id input s (λ t xs ys h. h))
                            (λ _. Ensures-Keeps _ (
                              reply-Keeps Revised o
                                (event_of e.house_id user_id "expense.edited" "expense" id)
                                (record { status = 200; body = expense_body (edited input e) s })
                                (record { events = λ t xs ls h. h; keys = λ t ks h. h }))))))))))

-- A revision holds an expense, with these rows of its splits, as it was when a user changed it.
pub record Holds (user_id : ℕ) (e : Expense) (rows : List ExpenseSplit) (r : Revision)
    : Type 0 where
  pub expense : r.expense_id ≡ e.id
  pub by : r.changed_by ≡ user_id
  pub description : r.description ≡ e.description
  pub amount : r.amount_cents ≡ e.amount_cents
  pub currency : r.currency ≡ e.currency
  pub paid_by : r.paid_by ≡ e.paid_by
  pub category : r.category ≡ e.category
  pub is_staple : r.is_staple ≡ e.is_staple
  pub splits : r.splits ≡ map (λ s. (s.user_id, s.amount_cents)) rows

from_rows_lem :
    (rows : List ExpenseSplit) (d : Splits)
    → Distinct (map (λ s. s.user_id) rows)
    → Fresh (map (λ s. s.user_id) rows) (keys d)
    → from_rows rows d ≡ d ++ map (λ s. (s.user_id, s.amount_cents)) rows
unfolding from_rows
from_rows_lem [] d distinct fresh = sym (append-nil d)
from_rows_lem (s ∷ rows) d (new, distinct) (absent, fresh) =
    let added = insert_new s.user_id s.amount_cents d absent in
    let ids = ap keys added ∙ keys-append d ((s.user_id, s.amount_cents) ∷ []) in
    let still = Fresh-snoc (map (λ x. x.user_id) rows) s.user_id (keys d) fresh new in
    from_rows_lem rows (insert s.user_id s.amount_cents d) distinct
      (subst (Fresh (map (λ x. x.user_id) rows)) (sym ids) still)
    ∙ (ap (λ x. x ++ map (λ y. (y.user_id, y.amount_cents)) rows) added
        ∙ append_assoc d ((s.user_id, s.amount_cents) ∷ [])
            (map (λ y. (y.user_id, y.amount_cents)) rows))

-- A committed edit of an expense of which no user has two splits leaves every revision as it was,
-- and adds exactly one. It holds the expense that the edit found, with the splits that it had, and
-- the user who edits it.
pub edit_expense-revisions :
    (o : Options) (id user_id : ℕ) (input : ExpenseInput) (w w' : World) (r : StoredResponse)
    → Distinct (map (λ s. s.user_id) (keep (λ s. s.expense_id == id) w.db.splits))
    → transact (edit_expense_tx o id user_id input) w ≡ (ok r, w')
    → (e : Expense) × (revision : Revision) × (find (λ x. x.id == id) w.db.expenses ≡ some e)
      × (w'.db.revisions ≡ w.db.revisions ++ revision ∷ [])
      × Holds user_id e (keep (λ s. s.expense_id == id) w.db.splits) revision
edit_expense-revisions o id user_id input w w' r distinct h =
    let (t, run, same) = transact-eq-ok (edit_expense_tx o id user_id input) w w' r h in
    let (e, found, grown) =
      (edit-Revised id user_id w.db.expenses w.db.splits w.db.revisions o input).after
        (record { db = w.db; logged = [] }) r t (refl, refl, refl) run in
    let rows = keep (λ s. s.expense_id == id) w.db.splits in
    (
      e,
      revision_of user_id e rows,
      found,
      ap (λ d. d.revisions) same ∙ grown,
      record {
        expense = refl;
        by = refl;
        description = refl;
        amount = refl;
        currency = refl;
        paid_by = refl;
        category = refl;
        is_staple = refl;
        splits = from_rows_lem rows [] distinct (Fresh-nil _);
      },
    )
