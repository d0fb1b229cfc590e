-- ===== src/Houses/Claim.antt =====
-- InvitesService.claimHistory: a placeholder's lines become the claimer's.
pub mod Shares
pub mod Keys
use homi_v.Prelude.{
  ℕ, ◌+◌, Bool, true, false, not, ◌&&◌, ◌||◌, Option, none, some, String, List, [], ◌∷◌, ◌++◌, map,
  keep, any, find, update_where, delete_where, ◌==◌, if◌then◌else◌,
}
use homi_v.Prelude.Result.{Result, ok, err}
use homi_v.Db.{Db, Error, Expense, ExpenseSplit, User, HouseMember, Revision}
use homi_v.Activity.{Tx, ◌>>=◌, ◌>>◌, query, pure, execute, log}
use homi_v.Ledger.{event_of}
use homi_v.Ledger.Expenses.{revision_of, rows_of}
use homi_v.Ledger.Shares.{is_share, has_share}
use homi_v.Houses.{is_row}

-- The expenses that both have a share in.
unfoldable pub folded_expenses : ℕ → ℕ → Db → List Expense
folded_expenses placeholder_id claimer_id db =
    keep (λ e. has_share e.id placeholder_id db.splits && has_share e.id claimer_id db.splits)
      db.expenses

-- `UPDATE expense_splits AS mine SET amount_cents = mine + theirs FROM ... AS theirs`
unfoldable pub add_share : Option ExpenseSplit → ExpenseSplit → ExpenseSplit
add_share none mine = mine
add_share (some theirs) mine = record mine {
  amount_cents = mine.amount_cents + theirs.amount_cents;
}

unfoldable pub grow : ℕ → ℕ → List ExpenseSplit → ExpenseSplit → ExpenseSplit
grow placeholder_id claimer_id rows mine =
    if mine.user_id == claimer_id
    then add_share (find (is_share mine.expense_id placeholder_id) rows) mine
    else mine

unfoldable pub fold_shares : ℕ → ℕ → List ExpenseSplit → List ExpenseSplit
fold_shares placeholder_id claimer_id rows = map (grow placeholder_id claimer_id rows) rows

-- `DELETE FROM expense_splits AS theirs ... AND EXISTS (...)`
unfoldable pub drop_folded : ℕ → ℕ → List ExpenseSplit → List ExpenseSplit
drop_folded placeholder_id claimer_id rows =
    delete_where
      (λ theirs. theirs.user_id == placeholder_id && has_share theirs.expense_id claimer_id rows)
      rows

-- `UPDATE expense_splits SET user_id = ... WHERE user_id = ...`
abbrev pub renamed : ℕ → ℕ → ExpenseSplit → ExpenseSplit
renamed placeholder_id claimer_id s =
    if s.user_id == placeholder_id then record s { user_id = claimer_id } else s

unfoldable pub rename : ℕ → ℕ → List ExpenseSplit → List ExpenseSplit
rename placeholder_id claimer_id rows = map (renamed placeholder_id claimer_id) rows

-- The three statements, in their order.
unfoldable pub claim_splits : ℕ → ℕ → List ExpenseSplit → List ExpenseSplit
claim_splits placeholder_id claimer_id rows =
    rename placeholder_id claimer_id
      (drop_folded placeholder_id claimer_id (fold_shares placeholder_id claimer_id rows))

-- `for (const expense of folded) await log(...)`
unfoldable pub log_folded : ℕ → ℕ → List Expense → Tx (Unit {0})
log_folded house_id claimer_id [] = pure tt
log_folded house_id claimer_id (e ∷ es) = do
  log (event_of house_id claimer_id "expense.edited" "expense" e.id)
  log_folded house_id claimer_id es

unfoldable pub claim_history : ℕ → ℕ → ℕ → ℕ → Tx (Unit {0})
claim_history now house_id placeholder_id claimer_id = do
  folded ← query (folded_expenses placeholder_id claimer_id)
  execute (λ db. record db {
    revisions = db.revisions ++ map (λ e. revision_of claimer_id e (rows_of e.id db)) folded;
  })
  log_folded house_id claimer_id folded
  execute (λ db. record db { splits = claim_splits placeholder_id claimer_id db.splits })
  execute (λ db. record db {
    members =
        update_where (is_row house_id placeholder_id)
          (λ m. record m { claimed_by = some claimer_id; left_at = some now; room_id = none })
          db.members;
  })
  execute (λ db. record db {
    users =
        update_where (λ u. u.id == placeholder_id) (λ u. record u { deleted_at = some now })
          db.users;
  })
