-- ===== src/Ledger/Feed/Walk.antt =====
-- A walk through the pages of the feed, from the head to the page without a next cursor.
use homi_v.Ledger.Cursor.{
  Documented, Printed, encode_cursor, texts_of, decode_cursor-encode_cursor, Cursor, Platform,
}
use homi_v.Prelude.{
  ℕ, zero, suc, ◌≤◌, ◌<◌, ◌≡◌, refl, sym, ap, ◌∙◌, true, Option, none, some, List, [], ◌∷◌, ◌++◌,
  map, length, All, arith, ltb, Bool-cases, inl, inr, Bool, keep,
}
use homi_v.Prelude.Result.{Result, ok, err}
use homi_v.Prelude.Sort.{take, drop, take-drop, take-all}
use homi_v.Prelude.Sort.Laws.{sort_by-Sorted}
use homi_v.Db.{Db, Error}
use homi_v.Ledger.Feed.{
  LedgerRow, row_key, row_before, last_of, LedgerPage, FeedEntry, next_of, cursor_of, get_ledger,
}
use homi_v.Ledger.Feed.Page.{
  listed, feed, rows_below, shown, row_before-IsOrder, get_ledger_page_lem,
}
use homi_v.Ledger.Feed.Falling.{
  Apart, Falling, keep-Falling, falls, sort_by-Apart, rows_below_twice, last-All, kept_each,
  drop_below, last_there, length-drop, map-append, keep_whole,
}

keep-All :
    (P : LedgerRow → Type 0) (p : LedgerRow → Bool) (xs : List LedgerRow)
    → All P xs
    → All P (keep p xs)
keep-All P p [] h = tt
keep-All P p (x ∷ xs) (q, h) = elim (Bool-cases (p x)) [
  | inl kept ↦ rw kept (q, keep-All P p xs h)
  | inr left_out ↦ rw left_out (keep-All P p xs h)
]

abbrev followed : List FeedEntry → Result Error (List FeedEntry) → Result Error (List FeedEntry)
followed entries (err e) = err e
followed entries (ok rest) = ok (entries ++ rest)

-- What a reader of a page does, when `rest` reads on from a cursor.
abbrev read_on :
    (Option (List ℕ) → Result Error (List FeedEntry))
    → Result Error LedgerPage
    → Result Error (List FeedEntry)
read_on rest (err e) = err e
read_on rest (ok page) = elim page.next_cursor [
  | none ↦ ok page.entries
  | some next ↦ followed page.entries (rest (some next))
]

module _ (platform : Platform) (house_id limit : ℕ) (db : Db) where
  -- Each page is asked for with the next cursor of the last, at most `n` of them.
  unfoldable pub walk : ℕ → Option (List ℕ) → Result Error (List FeedEntry)
  walk zero cursor = ok []
  walk (suc n) cursor = read_on (walk n) (get_ledger platform house_id cursor limit db)

  abbrev left : Option Cursor → List LedgerRow
  left c = rows_below c (feed house_id db)

  abbrev page_below : Option Cursor → LedgerPage
  page_below c = record {
    entries = map (shown db) (take limit (left c));
    next_cursor = next_of platform (ltb limit (length (left c))) (last_of (take limit (left c)));
  }

  get_ledger_lem :
      (cursor : Option (List ℕ)) (c : Option Cursor)
      → cursor_of platform cursor ≡ ok c
      → get_ledger platform house_id cursor limit db ≡ ok (page_below c)
  unfolding get_ledger
  get_ledger_lem cursor c e =
      rw (e, get_ledger) (ap ok (get_ledger_page_lem platform house_id c limit db))

  module _ (documented : Documented platform)
      (printed : All (λ r. Printed platform (row_key r)) (feed house_id db))
      (apart : Apart (listed house_id db)) (some_rows : 1 ≤ limit) where
    left-Falling : (c : Option Cursor) → Falling (left c)
    left-Falling c = keep-Falling _ (feed house_id db) (
        falls (feed house_id db) (sort_by-Sorted row_before row_before-IsOrder (listed house_id db))
          (sort_by-Apart (listed house_id db) apart))

    -- What is left after a page.
    left-next :
        (c : Option Cursor) (l : LedgerRow)
        → last_of (take limit (left c)) ≡ some l
        → left (some (row_key l)) ≡ drop limit (left c)
    left-next c l e =
        sym (
          rows_below_twice c (row_key l) (feed house_id db)
            (last-All _ limit (left c) l (kept_each _ (feed house_id db)) e))
        ∙ drop_below limit (left c) l (left-Falling c) e

    cursor_of-encode_cursor :
        (k : Cursor)
        → Printed platform k
        → cursor_of platform (some (encode_cursor platform (texts_of platform k))) ≡ ok (some k)
    unfolding cursor_of encode_cursor
    cursor_of-encode_cursor k p =
        let (decoded, same) = decode_cursor-encode_cursor platform documented k p in
        rw (documented.filled (texts_of platform k), decoded) (ap (λ x. ok (some x)) same)

    walk_from :
        (n : ℕ) (cursor : Option (List ℕ)) (c : Option Cursor)
        → cursor_of platform cursor ≡ ok c
        → length (left c) < n
        → walk n cursor ≡ ok (map (shown db) (left c))
    unfolding walk
    walk_from zero cursor c e enough = absurd (omega arith)
    walk_from (suc n) cursor c e enough =
        ap (read_on (walk n)) (get_ledger_lem cursor c e)
        ∙ elim (Bool-cases (ltb limit (length (left c)))) [
          | inl more ↦
              let (l, is_last) = last_there limit (left c) some_rows (ground arith) in
              let next = left-next c l is_last in
              let shorter = ap length next ∙ length-drop limit (left c) in
              let rest =
                walk_from n (some (encode_cursor platform (texts_of platform (row_key l))))
                  (some (row_key l))
                  (cursor_of-encode_cursor (row_key l)
                    (last-All _ limit (left c) l (keep-All _ _ (feed house_id db) printed) is_last))
                  (ground (arith, shorter)) in
              rw (more, is_last, rest, next)
                (ap ok (
                  sym (map-append (shown db) (take limit (left c)) (drop limit (left c)))
                  ∙ ap (map (shown db)) (take-drop limit (left c))))
          | inr over ↦
              rw over (ap (λ l. ok (map (shown db) l)) (take-all limit (left c) (ground arith)))
        ]

    -- A walk through the pages shows the whole feed: each expense that is not deleted and each
    -- payment of the house once, the newest first, each expense with all its splits. It takes at most
    -- one page more than there are rows, and no page is refused. JSON and base64url read back what
    -- they write, the times and ids of the feed's rows have texts that stand for them, no two rows
    -- have both the time and the id in common, and a page has room for one row.
    pub walk-feed :
        (n : ℕ)
        → length (feed house_id db) < n
        → walk n none ≡ ok (map (shown db) (feed house_id db))
    unfolding cursor_of
    walk-feed n enough =
        let all = keep_whole (λ r. true) (feed house_id db) (every (feed house_id db)) in
        walk_from n none none refl (omega (arith, ap length all))
        ∙ ap (λ l. ok (map (shown db) l)) all
      where
        every : (xs : List LedgerRow) → All (λ x. true ≡ true) xs
        every [] = tt
        every (x ∷ xs) = (refl, every xs)
