-- ===== src/Ledger/Feed.antt =====
-- LedgerService.getLedger: the pages of the expenses and payments of a house, the newest first.
pub mod Page
pub mod Falling
pub mod Walk
pub mod Examples
use homi_v.Ledger.Cursor.{
  Cursor, Platform, encode_cursor, decode_cursor, texts_of, position_of, is_blank,
}
use homi_v.Prelude.{
  ℕ, zero, suc, ◌+◌, Bool, true, false, not, ◌&&◌, ◌||◌, Option, none, some, List, [], ◌∷◌, ◌++◌,
  map, keep, length, contains, ltb, ◌==◌, if◌then◌else◌,
}
use homi_v.Prelude.Dict.{Dict, insert, get_or}
use homi_v.Prelude.Result.{Result, ok, err}
use homi_v.Prelude.Sort.{take, sort_by}
use homi_v.Money.Split.{Splits}
use homi_v.Db.{Db, Error, bad_request, Expense, ExpenseSplit, Payment}
use homi_v.Posting.{is_null}

-- The comparison of the sort: `a` may stand before `b`.
abbrev pub goes_before : Cursor → Cursor → Bool
goes_before a b = ltb b.t a.t || (b.t == a.t && not (ltb a.id b.id))

-- The condition on the rows of a page: a row comparison of SQL.
abbrev pub is_below : Option Cursor → Cursor → Bool
is_below none k = true
is_below (some c) k = ltb k.t c.t || (k.t == c.t && ltb k.id c.id)

abbrev pub expense_key : Expense → Cursor
expense_key e = record { t = e.created_at; id = e.id }

abbrev pub payment_key : Payment → Cursor
payment_key p = record { t = p.created_at; id = p.id }

-- A row of either table, with its `kind`.
pub data LedgerRow : Type 0 where
  expense : Expense → LedgerRow
  payment : Payment → LedgerRow

abbrev pub row_key : LedgerRow → Cursor
row_key (expense e) = expense_key e
row_key (payment p) = payment_key p

abbrev pub row_before : LedgerRow → LedgerRow → Bool
row_before a b = goes_before (row_key a) (row_key b)

abbrev pub select_expenses : ℕ → Option Cursor → List Expense → List Expense
select_expenses house_id cursor =
    keep (λ e. e.house_id == house_id && is_null e.deleted_at && is_below cursor (expense_key e))

abbrev pub select_payments : ℕ → Option Cursor → List Payment → List Payment
select_payments house_id cursor =
    keep (λ p. p.house_id == house_id && is_below cursor (payment_key p))

abbrev pub expense_rows : ℕ → Option Cursor → ℕ → List Expense → List Expense
expense_rows house_id cursor fetch es = take fetch (
    sort_by (λ a b. goes_before (expense_key a) (expense_key b))
      (select_expenses house_id cursor es))

abbrev pub payment_rows : ℕ → Option Cursor → ℕ → List Payment → List Payment
payment_rows house_id cursor fetch ps = take fetch (
    sort_by (λ a b. goes_before (payment_key a) (payment_key b))
      (select_payments house_id cursor ps))

-- The rows of both tables, sorted together.
unfoldable pub merged_rows : ℕ → Option Cursor → ℕ → Db → List LedgerRow
merged_rows house_id cursor fetch db = sort_by row_before (
    map expense (expense_rows house_id cursor fetch db.expenses)
    ++ map payment (payment_rows house_id cursor fetch db.payments))

-- The ids of the expenses of a page.
abbrev pub expense_ids : List LedgerRow → List ℕ
expense_ids [] = []
expense_ids (expense e ∷ rows) = e.id ∷ expense_ids rows
expense_ids (payment p ∷ rows) = expense_ids rows

-- The loop over the splits, with its map `splitsByExpense`.
unfoldable pub group_splits : List ExpenseSplit → Dict Splits → Dict Splits
group_splits [] by_expense = by_expense
group_splits (s ∷ rows) by_expense =
    let entry = get_or by_expense s.expense_id [] in
    group_splits rows (insert s.expense_id (insert s.user_id s.amount_cents entry) by_expense)

pub data FeedEntry : Type 0 where
  expense_entry : Expense → Splits → FeedEntry
  payment_entry : Payment → FeedEntry

abbrev pub entry_of : Dict Splits → LedgerRow → FeedEntry
entry_of splits_by_expense (expense e) = expense_entry e (get_or splits_by_expense e.id [])
entry_of splits_by_expense (payment p) = payment_entry p

abbrev pub last_of : List LedgerRow → Option LedgerRow
last_of [] = none
last_of (row ∷ []) = some row
last_of (row ∷ next ∷ rows) = last_of (next ∷ rows)

-- The answer to a request for a page.
pub record LedgerPage : Type 0 where
  pub entries : List FeedEntry
  pub next_cursor : Option (List ℕ)

module _ (platform : Platform) where
  abbrev pub next_of : Bool → Option LedgerRow → Option (List ℕ)
  next_of true (some row) = some (encode_cursor platform (texts_of platform (row_key row)))
  next_of true none = none
  next_of false o = none

  -- `getLedgerPage`
  unfoldable pub get_ledger_page : ℕ → Option Cursor → ℕ → ℕ → Db → LedgerPage
  get_ledger_page house_id cursor fetch limit db =
      let merged = merged_rows house_id cursor fetch db in
      let page = take limit merged in
      let split_rows = keep (λ s. contains s.expense_id (expense_ids page)) db.splits in
      record {
        entries = map (entry_of (group_splits split_rows [])) page;
        next_cursor = next_of (ltb limit (length merged)) (last_of page);
      }

  -- `opts.cursor ? decodeCursor(opts.cursor) : undefined`
  unfoldable pub cursor_of : Option (List ℕ) → Result Error (Option Cursor)
  cursor_of none = ok none
  cursor_of (some raw) = if is_blank raw then ok none else (elim (decode_cursor platform raw) [
    | err e ↦ err e
    | ok c ↦ ok (some (position_of platform c))
  ])

  -- `getLedger`
  unfoldable pub get_ledger : ℕ → Option (List ℕ) → ℕ → Db → Result Error LedgerPage
  get_ledger house_id cursor limit db = elim (cursor_of cursor) [
    | err e ↦ err e
    | ok c ↦ ok (get_ledger_page house_id c (limit + 1) limit db)
  ]
