-- ===== src/Ledger/Feed/Page.antt =====
-- What a page of the feed holds: the newest rows below its cursor, each expense with its splits.
use homi_v.Prelude.{
  ℕ, ◌+◌, ◌≡◌, refl, sym, ap, ◌∙◌, Bool, true, false, ◌&&◌, Option, List, [], ◌∷◌, ◌++◌, map, keep,
  length, length-append, contains, arith, ltb, ◌==◌, ==_refl, Bool-cases, inl, inr, if◌then◌else◌,
}
use homi_v.Prelude.Dict.{Dict, insert, get_or, get_or-insert}
use homi_v.Prelude.Sort.{take, sort_by, length-take, length-sort_by, map-take, map-sort_by, IsOrder}
use homi_v.Prelude.Sort.Laws.{take-sort_by, keep-sort_by}
use homi_v.Money.Split.{Splits}
use homi_v.Db.{Db, Expense, ExpenseSplit, Payment}
use homi_v.Posting.{is_null}
use homi_v.Ledger.Feed.{
  goes_before, is_below, expense_key, payment_key, LedgerRow, expense, payment, row_key, row_before,
  select_expenses, select_payments, expense_rows, payment_rows, merged_rows, expense_ids,
  group_splits, FeedEntry, expense_entry, payment_entry, entry_of, last_of, next_of,
  get_ledger_page,
}
use homi_v.Ledger.Cursor.{Cursor, Platform}

-- The rows of a house that count: its expenses that are not deleted, and its payments.
abbrev pub listed : ℕ → Db → List LedgerRow
listed house_id db =
    map expense (keep (λ e. e.house_id == house_id && is_null e.deleted_at) db.expenses)
    ++ map payment (keep (λ p. p.house_id == house_id) db.payments)

-- All of them, the newest first.
abbrev pub feed : ℕ → Db → List LedgerRow
feed house_id db = sort_by row_before (listed house_id db)

abbrev pub rows_below : Option Cursor → List LedgerRow → List LedgerRow
rows_below cursor = keep (λ r. is_below cursor (row_key r))

-- The splits of an expense, a later row of a user over an earlier one.
abbrev pub splits_of : ℕ → List ExpenseSplit → Splits → Splits
splits_of id [] acc = acc
splits_of id (s ∷ rows) acc =
    splits_of id rows (if s.expense_id == id then insert s.user_id s.amount_cents acc else acc)

abbrev pub shown : Db → LedgerRow → FeedEntry
shown db (expense e) = expense_entry e (splits_of e.id db.splits [])
shown db (payment p) = payment_entry p

pub row_before-IsOrder : IsOrder row_before
row_before-IsOrder = record {
  trans = λ x y z. trans (row_key x) (row_key y) (row_key z);
  total = λ x y. total (row_key x) (row_key y);
}
  where
    trans :
        (x y z : Cursor) → goes_before x y ≡ true → goes_before y z ≡ true → goes_before x z ≡ true
    trans x y z h k = ground arith

    total : (x y : Cursor) → goes_before x y ≡ false → goes_before y x ≡ true
    total x y h = ground arith

below_expenses :
    (house_id : ℕ) (cursor : Option Cursor) (es : List Expense)
    → map expense (select_expenses house_id cursor es)
      ≡ rows_below cursor
          (map expense (keep (λ e. e.house_id == house_id && is_null e.deleted_at) es))
below_expenses house_id cursor [] = refl
below_expenses house_id cursor (e ∷ es) = ground (arith, below_expenses house_id cursor es)

below_payments :
    (house_id : ℕ) (cursor : Option Cursor) (ps : List Payment)
    → map payment (select_payments house_id cursor ps)
      ≡ rows_below cursor (map payment (keep (λ p. p.house_id == house_id) ps))
below_payments house_id cursor [] = refl
below_payments house_id cursor (p ∷ ps) = ground (arith, below_payments house_id cursor ps)

keep-append :
    {A : Type 0} (p : A → Bool) (xs ys : List A) → keep p (xs ++ ys) ≡ keep p xs ++ keep p ys
keep-append p [] ys = refl
keep-append p (x ∷ xs) ys = ground (arith, keep-append p xs ys)

module _ (house_id : ℕ) (cursor : Option Cursor) (db : Db) where
  abbrev chosen_expenses : List LedgerRow
  chosen_expenses =
      rows_below cursor
        (map expense (keep (λ e. e.house_id == house_id && is_null e.deleted_at) db.expenses))

  abbrev chosen_payments : List LedgerRow
  chosen_payments = rows_below cursor (map payment (keep (λ p. p.house_id == house_id) db.payments))

  expenses_of_page :
      (fetch : ℕ)
      → map expense (expense_rows house_id cursor fetch db.expenses)
        ≡ take fetch (sort_by row_before chosen_expenses)
  expenses_of_page fetch =
      map-take expense fetch _
      ∙ ap (take fetch) (
          map-sort_by expense (λ a b. goes_before (expense_key a) (expense_key b)) row_before
            (λ x y. refl) (select_expenses house_id cursor db.expenses)
          ∙ ap (sort_by row_before) (below_expenses house_id cursor db.expenses))

  payments_of_page :
      (fetch : ℕ)
      → map payment (payment_rows house_id cursor fetch db.payments)
        ≡ take fetch (sort_by row_before chosen_payments)
  payments_of_page fetch =
      map-take payment fetch _
      ∙ ap (take fetch) (
          map-sort_by payment (λ a b. goes_before (payment_key a) (payment_key b)) row_before
            (λ x y. refl) (select_payments house_id cursor db.payments)
          ∙ ap (sort_by row_before) (below_payments house_id cursor db.payments))

  below_feed :
      rows_below cursor (feed house_id db) ≡ sort_by row_before (chosen_expenses ++ chosen_payments)
  below_feed =
      keep-sort_by row_before row_before-IsOrder (λ r. is_below cursor (row_key r))
        (listed house_id db)
      ∙ ap (sort_by row_before) (keep-append (λ r. is_below cursor (row_key r)) _ _)

  merged_rows_lem :
      (fetch : ℕ)
      → merged_rows house_id cursor fetch db
        ≡ sort_by row_before (
            take fetch (sort_by row_before chosen_expenses)
            ++ take fetch (sort_by row_before chosen_payments))
  unfolding merged_rows
  merged_rows_lem fetch =
      ap
        (λ l.
          sort_by row_before (l ++ map payment (payment_rows house_id cursor fetch db.payments)))
        (expenses_of_page fetch)
      ∙ ap (λ l. sort_by row_before (take fetch (sort_by row_before chosen_expenses) ++ l))
          (payments_of_page fetch)

  -- The rows of a page are the first of the feed below its cursor.
  pub take-merged_rows :
      (limit : ℕ)
      → take limit (merged_rows house_id cursor (limit + 1) db)
        ≡ take limit (rows_below cursor (feed house_id db))
  take-merged_rows limit =
      ap (take limit) (merged_rows_lem (limit + 1))
      ∙ (take-sort_by row_before row_before-IsOrder limit (limit + 1) chosen_expenses
            chosen_payments (omega arith)
          ∙ ap (take limit) (sym below_feed))

  -- There are more rows than the page holds just if the feed has more below the cursor.
  pub more-merged_rows :
      (limit : ℕ)
      → ltb limit (length (merged_rows house_id cursor (limit + 1) db))
        ≡ ltb limit (length (rows_below cursor (feed house_id db)))
  more-merged_rows limit =
      let a = sort_by row_before chosen_expenses in
      let b = sort_by row_before chosen_payments in
      let many =
        ap length (merged_rows_lem (limit + 1))
        ∙ (length-sort_by row_before (take (limit + 1) a ++ take (limit + 1) b)
            ∙ length-append (take (limit + 1) a) (take (limit + 1) b)) in
      let all =
        ap length below_feed
        ∙ (length-sort_by row_before (chosen_expenses ++ chosen_payments)
            ∙ length-append chosen_expenses chosen_payments) in
      ground (
        arith,
        many,
        all,
        length-take (limit + 1) a,
        length-take (limit + 1) b,
        length-sort_by row_before chosen_expenses,
        length-sort_by row_before chosen_payments,
      )

grouped :
    (id : ℕ) (rows : List ExpenseSplit) (d : Dict Splits)
    → get_or (group_splits rows d) id [] ≡ splits_of id rows (get_or d id [])
unfolding group_splits
grouped id [] d = refl
grouped id (s ∷ rows) d =
    grouped id rows
      (insert s.expense_id (insert s.user_id s.amount_cents (get_or d s.expense_id [])) d)
    ∙ ap (splits_of id rows) inserted
  where
    inserted :
        get_or
          (insert s.expense_id (insert s.user_id s.amount_cents (get_or d s.expense_id [])) d)
          id
          []
        ≡ (if s.expense_id == id
            then insert s.user_id s.amount_cents (get_or d id [])
            else get_or d id [])
    inserted = get_or-insert s.expense_id id _ [] d ∙ (elim (Bool-cases (s.expense_id == id)) [
      | inl here ↦
          let same : s.expense_id ≡ id = ground arith in
          rw here (ap (λ i. insert s.user_id s.amount_cents (get_or d i [])) same)
      | inr other ↦ rw other refl
    ])

splits_of-keep :
    (id : ℕ) (ids : List ℕ) (rows : List ExpenseSplit) (acc : Splits)
    → contains id ids ≡ true
    → splits_of id (keep (λ s. contains s.expense_id ids) rows) acc ≡ splits_of id rows acc
splits_of-keep id ids [] acc h = refl
splits_of-keep id ids (s ∷ rows) acc h = elim (Bool-cases (contains s.expense_id ids)) [
  | inl kept ↦ rw kept (splits_of-keep id ids rows _ h)
  | inr left_out ↦ elim (Bool-cases (s.expense_id == id)) [
    | inl here ↦
        let same : s.expense_id ≡ id = ground arith in absurd (cc (ap (λ i. contains i ids) same))
    | inr other ↦ rw (left_out, other) (splits_of-keep id ids rows acc h)
  ]
]

-- Each row of a page is shown with all the splits of its expense.
entries_lem :
    (db : Db) (ids : List ℕ) (rows : List LedgerRow)
    → ((id : ℕ) → contains id (expense_ids rows) ≡ true → contains id ids ≡ true)
    → map (entry_of (group_splits (keep (λ s. contains s.expense_id ids) db.splits) [])) rows
      ≡ map (shown db) rows
entries_lem db ids [] h = refl
entries_lem db ids (expense e ∷ rows) h =
    let there = h e.id (ground (arith, ==_refl e.id)) in
    let these =
      grouped e.id (keep (λ s. contains s.expense_id ids) db.splits) []
      ∙ splits_of-keep e.id ids db.splits [] there in
    ap
      (λ s.
        expense_entry e s
        ∷ map (entry_of (group_splits (keep (λ s. contains s.expense_id ids) db.splits) [])) rows)
      these
    ∙ ap (λ l. shown db (expense e) ∷ l)
        (entries_lem db ids rows (λ id k. h id (ground (arith, k))))
entries_lem db ids (payment p ∷ rows) h = ap (λ l. payment_entry p ∷ l) (entries_lem db ids rows h)

-- A page holds the first rows of the feed below its cursor, each expense with all its splits, and
-- has a next cursor, the key of its last row, just if the feed has more rows below the cursor.
pub get_ledger_page_lem :
    (platform : Platform) (house_id : ℕ) (cursor : Option Cursor) (limit : ℕ) (db : Db)
    → get_ledger_page platform house_id cursor (limit + 1) limit db ≡ (
        let rows : List LedgerRow = rows_below cursor (feed house_id db) in
        record {
          entries = map (shown db) (take limit rows);
          next_cursor = next_of platform (ltb limit (length rows)) (last_of (take limit rows));
        })
unfolding get_ledger_page
get_ledger_page_lem platform house_id cursor limit db =
    let merged = merged_rows house_id cursor (limit + 1) db in
    ap
      (λ l. record {
        entries = l;
        next_cursor = next_of platform (ltb limit (length merged)) (last_of (take limit merged));
      })
      (entries_lem db (expense_ids (take limit merged)) (take limit merged) (λ id k. k))
    ∙ (ap
          (λ b. record {
            entries = map (shown db) (take limit merged);
            next_cursor = next_of platform b (last_of (take limit merged));
          })
          (more-merged_rows house_id cursor db limit)
        ∙ ap
            (λ l. record {
              entries = map (shown db) l;
              next_cursor =
                  next_of platform (ltb limit (length (rows_below cursor (feed house_id db))))
                    (last_of l);
            })
            (take-merged_rows house_id cursor db limit))
