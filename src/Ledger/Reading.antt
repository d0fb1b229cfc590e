-- ===== src/Ledger/Reading.antt =====
-- LedgerService.getBalances: the rows of a house, as the balance function takes them.
pub mod Restored
use homi_v.Prelude.{
  ℕ, Bool, true, false, ◌&&◌, Option, none, some, List, [], ◌∷◌, ◌++◌, map, keep, ◌==◌,
  if◌then◌else◌,
}
use homi_v.Prelude.Dict.{Dict, insert, get_or, values}
use homi_v.Prelude.Int.{ℤ, pos}
use homi_v.Money.Balances.{ExpenseRow, PaymentRow, Balances, compute_balances}
use homi_v.Db.{Db, Expense, ExpenseSplit, Payment}
use homi_v.Posting.{is_null}

-- A row of the join of expenses and splits.
pub record JoinedRow : Type 0 where
  pub expense_id : ℕ
  pub paid_by : ℕ
  pub split_user_id : ℕ
  pub split_cents : ℕ

abbrev is_counted : ℕ → Expense → Bool
is_counted house_id e = e.house_id == house_id && is_null e.deleted_at

-- The rows of one expense in the join.
pub join_splits : Expense → List ExpenseSplit → List JoinedRow
join_splits e [] = []
join_splits e (s ∷ splits) =
    if s.expense_id == e.id
    then record {
      expense_id = e.id;
      paid_by = e.paid_by;
      split_user_id = s.user_id;
      split_cents = s.amount_cents;
    }
      ∷ join_splits e splits
    else join_splits e splits

pub join_expenses : ℕ → List Expense → List ExpenseSplit → List JoinedRow
join_expenses house_id [] splits = []
join_expenses house_id (e ∷ es) splits =
    if is_counted house_id e
    then join_splits e splits ++ join_expenses house_id es splits
    else join_expenses house_id es splits

-- The loop over the rows, with its map `byExpense`.
pub group_rows : List JoinedRow → Dict ExpenseRow → Dict ExpenseRow
group_rows [] by_expense = by_expense
group_rows (row ∷ rows) by_expense =
    let entry = get_or by_expense row.expense_id (record { paid_by = row.paid_by; splits = [] }) in
    group_rows rows (
      insert row.expense_id
        (record entry { splits = insert row.split_user_id (pos row.split_cents) entry.splits })
        by_expense)

abbrev pub payment_row : Payment → PaymentRow
payment_row p = record {
  from_user = p.from_user;
  to_user = p.to_user;
  amount_cents = pos p.amount_cents;
  status = p.status;
}

abbrev pub payments_of : ℕ → List Payment → List PaymentRow
payments_of house_id ps = map payment_row (keep (λ p. p.house_id == house_id) ps)

pub get_balances : ℕ → Db → Balances
get_balances house_id db =
    compute_balances (values (group_rows (join_expenses house_id db.expenses db.splits) []))
      (payments_of house_id db.payments)
