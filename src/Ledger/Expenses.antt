-- ===== src/Ledger/Expenses.antt =====
-- LedgerService.createExpense and editExpense.
pub mod Created
pub mod Edited
pub mod Revised
use homi_v.Prelude.{
  ℕ, Bool, true, false, not, ◌&&◌, ◌||◌, Option, none, some, String, List, [], ◌∷◌, ◌++◌, find,
  keep, map, update_where, delete_where, ◌==◌, if◌then◌else◌,
}
use homi_v.Prelude.Dict.{Dict, insert}
use homi_v.Prelude.Result.{Result, ok, err}
use homi_v.Money.Split.{SplitMode, Splits}
use homi_v.Db.{
  Db, Error, not_found, House, Expense, ExpenseSplit, Revision, StoredResponse, expense_body,
}
use homi_v.Activity.{
  Tx, ◌>>=◌, ◌>>◌, query, or_throw, throw_if, pure, execute, log, World, transact,
}
use homi_v.Idempotency.{Options, store, with_idempotency}
use homi_v.Posting.{
  ResolveSplitsInput, resolve_splits, insert_expense, Env, ExpenseSpec, is_null, active_member,
  split_rows,
}
use homi_v.Ledger.{as_400, house_for, currency_or, options_for, reply, event_of}

-- `CreateExpenseInput`; an edit has no currency.
pub record ExpenseInput : Type 0 where
  pub description : String
  pub amount_cents : ℕ
  pub currency : Option String
  pub paid_by : ℕ
  pub category : Option String
  pub is_staple : Option Bool
  pub mode : SplitMode
  pub participants : List ℕ
  pub exact_cents : Option (Dict ℕ)
  pub weights_bp : Option (Dict ℕ)

abbrev pub resolve_input : ExpenseInput → ResolveSplitsInput
resolve_input i = record {
  amount_cents = i.amount_cents;
  paid_by = i.paid_by;
  mode = i.mode;
  participants = i.participants;
  exact_cents = i.exact_cents;
  weights_bp = i.weights_bp;
}

abbrev pub created : Expense → Splits → StoredResponse
created e s = record { status = 201; body = expense_body e s }

abbrev pub created_spec : ℕ → ℕ → ExpenseInput → House → ExpenseSpec
created_spec house_id user_id input house = record {
  house_id = house_id;
  description = input.description;
  amount_cents = input.amount_cents;
  currency = currency_or input.currency house;
  paid_by = input.paid_by;
  category = input.category;
  is_staple = input.is_staple;
  template_id = none;
  period = none;
  created_by = user_id;
}

-- The transaction of `createExpense`.
unfoldable pub create_expense_tx : Options → Env → ℕ → ℕ → ExpenseInput → Tx StoredResponse
create_expense_tx o env house_id user_id input = do
  house ← house_for house_id input.currency
  splits ← as_400 (resolve_splits house_id (resolve_input input) none)
  expense ← insert_expense env (created_spec house_id user_id input house) splits
  reply o (event_of house_id user_id "expense.created" "expense" expense.id)
      (created expense splits)

unfoldable pub create_expense :
    Options
    → Env
    → ℕ
    → ℕ
    → ExpenseInput
    → (World → World)
    → World
    → Result Error StoredResponse × World
create_expense o env house_id user_id input =
    with_idempotency o (transact (create_expense_tx o env house_id user_id input))

unfoldable pub find_expense : ℕ → Db → Option Expense
find_expense id db = find (λ e. e.id == id) db.expenses

abbrev pub rows_of : ℕ → Db → List ExpenseSplit
rows_of expense_id db = keep (λ s. s.expense_id == expense_id) db.splits

-- `Object.fromEntries(previousSplits.map((s) => [s.userId, s.amountCents]))`
pub from_rows : List ExpenseSplit → Splits → Splits
from_rows [] d = d
from_rows (s ∷ rows) d = from_rows rows (insert s.user_id s.amount_cents d)

-- What an edit or a claim saves of an expense before it changes.
abbrev pub revision_of : ℕ → Expense → List ExpenseSplit → Revision
revision_of changed_by e rows = record {
  expense_id = e.id;
  changed_by = changed_by;
  description = e.description;
  amount_cents = e.amount_cents;
  currency = e.currency;
  paid_by = e.paid_by;
  category = e.category;
  is_staple = e.is_staple;
  splits = from_rows rows [];
}

abbrev pub edited : ExpenseInput → Expense → Expense
edited i e = record e {
  description = i.description;
  amount_cents = i.amount_cents;
  paid_by = i.paid_by;
  category = i.category;
  is_staple = elim i.is_staple [ none ↦ false | some b ↦ b ];
}

abbrev pub is_live : Option Expense → Option Expense
is_live none = none
is_live (some e) = if is_null e.deleted_at then some e else none

-- The writes of an edit after the splits are known: the head is replaced, and so are its splits.
unfoldable pub replace_expense : ℕ → ExpenseInput → Splits → Tx (Unit {0})
replace_expense expense_id input splits = do
  execute (λ db. record db {
    expenses = update_where (λ e. e.id == expense_id) (edited input) db.expenses;
  })
  execute (λ db. record db { splits = delete_where (λ s. s.expense_id == expense_id) db.splits })
  execute (λ db. record db { splits = db.splits ++ split_rows expense_id splits })

-- The transaction of `editExpense`.
unfoldable pub edit_expense_tx : Options → ℕ → ℕ → ExpenseInput → Tx StoredResponse
edit_expense_tx o expense_id user_id input = do
  row ← query (find_expense expense_id)
  expense ← or_throw (is_live row) (not_found "Expense not found")
  editor ← query (active_member expense.house_id user_id)
  _ ← or_throw editor (not_found "Expense not found")
  previous ← query (rows_of expense_id)
  execute
      (λ db. record db { revisions = db.revisions ++ revision_of user_id expense previous ∷ [] })
  splits ← as_400 (resolve_splits expense.house_id (resolve_input input) none)
  replace_expense expense_id input splits
  reply o (event_of expense.house_id user_id "expense.edited" "expense" expense_id)
      (record { status = 200; body = expense_body (edited input expense) splits })

unfoldable pub edit_expense :
    Options → ℕ → ℕ → ExpenseInput → (World → World) → World → Result Error StoredResponse × World
edit_expense o expense_id user_id input =
    with_idempotency o (transact (edit_expense_tx o expense_id user_id input))
