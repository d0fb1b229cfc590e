-- ===== src/Ledger/Feed/Falling.antt =====
-- Rows of which each is below those before it, and what is left of them below a page.
use homi_v.Prelude.{
  ℕ, zero, suc, ◌-◌, ◌≤◌, ◌≡◌, refl, ap, subst, Bool, true, false, ◌&&◌, Option, none, some, List,
  [], ◌∷◌, ◌++◌, map, keep, length, All, arith, ◌==◌, Bool-cases, inl, inr, if◌then◌else◌,
}
use homi_v.Prelude.Sort.{take, drop, sort_by, insert_by}
use homi_v.Prelude.Sort.Laws.{All-insert_by, All-sort_by, All-keep, Sorted}
use homi_v.Ledger.Feed.{is_below, goes_before, LedgerRow, row_key, row_before, last_of}
use homi_v.Ledger.Cursor.{Cursor}
use homi_v.Ledger.Feed.Page.{rows_below, row_before-IsOrder}

abbrev pub same_key : Cursor → Cursor → Bool
same_key a b = a.t == b.t && a.id == b.id

-- No two rows have the same time and id.
abbrev pub Apart : List LedgerRow → Type 0
Apart [] = Unit
Apart (x ∷ xs) = All (λ y. same_key (row_key x) (row_key y) ≡ false) xs × Apart xs

-- Each row is below those before it.
abbrev pub Falling : List LedgerRow → Type 0
Falling [] = Unit
Falling (x ∷ xs) = All (λ y. is_below (some (row_key x)) (row_key y) ≡ true) xs × Falling xs

insert_by-Apart :
    (x : LedgerRow) (xs : List LedgerRow)
    → All (λ y. same_key (row_key x) (row_key y) ≡ false) xs
    → Apart xs
    → Apart (insert_by row_before x xs)
insert_by-Apart x [] h a = (tt, tt)
insert_by-Apart x (y ∷ ys) (p, h) (q, a) = elim (Bool-cases (row_before x y)) [
  | inl first ↦ rw first ((p, h), (q, a))
  | inr later ↦ rw later (
    All-insert_by row_before row_before-IsOrder (λ z. same_key (row_key y) (row_key z) ≡ false) x ys
        (turned (row_key x) (row_key y) p) q,
    insert_by-Apart x ys h a,
  )
]
  where
    turned : (a b : Cursor) → same_key a b ≡ false → same_key b a ≡ false
    turned a b e = ground arith

pub sort_by-Apart : (xs : List LedgerRow) → Apart xs → Apart (sort_by row_before xs)
sort_by-Apart [] a = tt
sort_by-Apart (x ∷ xs) (h, a) =
    insert_by-Apart x (sort_by row_before xs) (All-sort_by row_before row_before-IsOrder _ xs h)
      (sort_by-Apart xs a)

below_each :
    (x : LedgerRow) (ys : List LedgerRow)
    → All (λ y. row_before x y ≡ true) ys
    → All (λ y. same_key (row_key x) (row_key y) ≡ false) ys
    → All (λ y. is_below (some (row_key x)) (row_key y) ≡ true) ys
below_each x [] h a = tt
below_each x (y ∷ ys) (p, h) (q, a) = (strict (row_key x) (row_key y) p q, below_each x ys h a)
  where
    strict :
        (a b : Cursor) → goes_before a b ≡ true → same_key a b ≡ false → is_below (some a) b ≡ true
    strict a b p q = ground arith

pub falls : (xs : List LedgerRow) → Sorted row_before row_before-IsOrder xs → Apart xs → Falling xs
falls [] s a = tt
falls (x ∷ xs) (h, s) (k, a) = (below_each x xs h k, falls xs s a)

pub keep-Falling : (p : LedgerRow → Bool) (xs : List LedgerRow) → Falling xs → Falling (keep p xs)
keep-Falling p [] f = tt
keep-Falling p (x ∷ xs) (h, f) = elim (Bool-cases (p x)) [
  | inl kept ↦ rw kept (All-keep row_before row_before-IsOrder _ p xs h, keep-Falling p xs f)
  | inr left_out ↦ rw left_out (keep-Falling p xs f)
]

pub keep_whole :
    (p : LedgerRow → Bool) (xs : List LedgerRow) → All (λ x. p x ≡ true) xs → keep p xs ≡ xs
keep_whole p [] h = refl
keep_whole p (x ∷ xs) (q, h) = rw q (ap (λ l. x ∷ l) (keep_whole p xs h))

some-same : {x y : LedgerRow} → ◌≡◌ {A = Option LedgerRow} (some x) (some y) → x ≡ y
some-same h = cc

pub last-All :
    (P : LedgerRow → Type 0) (n : ℕ) (xs : List LedgerRow) (l : LedgerRow)
    → All P xs
    → last_of (take n xs) ≡ some l
    → P l
last-All P zero xs l h e = absurd (cc)
last-All P (suc n) [] l h e = absurd (cc)
last-All P (suc zero) (x ∷ xs) l (p, h) e = subst P (some-same e) p
last-All P (suc (suc n)) (x ∷ []) l (p, h) e = subst P (some-same e) p
last-All P (suc (suc n)) (x ∷ y ∷ xs) l (p, h) e = last-All P (suc n) (y ∷ xs) l h e

-- What is left below the last row of a page is what follows the page.
pub drop_below :
    (n : ℕ) (xs : List LedgerRow) (l : LedgerRow)
    → Falling xs
    → last_of (take n xs) ≡ some l
    → rows_below (some (row_key l)) xs ≡ drop n xs
drop_below zero xs l f e = absurd (cc)
drop_below (suc n) [] l f e = refl
drop_below (suc zero) (x ∷ xs) l (h, f) e =
    let same = some-same e in
    let below = subst (λ r. All (λ y. is_below (some (row_key r)) (row_key y) ≡ true) xs) same h in
    rw (← same) (rw (not_below_itself (row_key x)) (keep_whole _ xs below))
  where
    not_below_itself : (k : Cursor) → is_below (some k) k ≡ false
    not_below_itself k = ground arith
drop_below (suc (suc n)) (x ∷ []) l (h, f) e =
    rw (← some-same e) (rw (not_below_itself (row_key x)) refl)
  where
    not_below_itself : (k : Cursor) → is_below (some k) k ≡ false
    not_below_itself k = ground arith
drop_below (suc (suc n)) (x ∷ y ∷ xs) l (h, f) e =
    let above = not_below (row_key x) (row_key l) (last-All _ (suc n) (y ∷ xs) l h e) in
    rw above (drop_below (suc n) (y ∷ xs) l f e)
  where
    not_below : (a b : Cursor) → is_below (some a) b ≡ true → is_below (some b) a ≡ false
    not_below a b h = ground arith

not_below_higher :
    (c : Option Cursor) (k y : Cursor)
    → is_below c k ≡ true
    → is_below c y ≡ false
    → is_below (some k) y ≡ false
not_below_higher none k y h e = absurd (cc)
not_below_higher (some c) k y h e = ground arith

-- The rows below a lower cursor are among those below a higher one.
pub rows_below_twice :
    (c : Option Cursor) (k : Cursor) (xs : List LedgerRow)
    → is_below c k ≡ true
    → rows_below (some k) (rows_below c xs) ≡ rows_below (some k) xs
rows_below_twice c k [] h = refl
rows_below_twice c k (x ∷ xs) h = elim (Bool-cases (is_below c (row_key x))) [
  | inl kept ↦
      rw kept
        (ap (λ l. if is_below (some k) (row_key x) then x ∷ l else l) (rows_below_twice c k xs h))
  | inr left_out ↦
      rw (left_out, not_below_higher c k (row_key x) h left_out) (rows_below_twice c k xs h)
]

pub kept_each : (p : LedgerRow → Bool) (xs : List LedgerRow) → All (λ x. p x ≡ true) (keep p xs)
kept_each p [] = tt
kept_each p (x ∷ xs) = elim (Bool-cases (p x)) [
  | inl kept ↦ rw kept (kept, kept_each p xs)
  | inr left_out ↦ rw left_out (kept_each p xs)
]

pub length-drop : (n : ℕ) (xs : List LedgerRow) → length (drop n xs) ≡ length xs - n
length-drop zero xs = omega arith
length-drop (suc n) [] = omega arith
length-drop (suc n) (x ∷ xs) = omega (arith, length-drop n xs)

pub last_there :
    (n : ℕ) (xs : List LedgerRow)
    → 1 ≤ n
    → 1 ≤ length xs
    → (l : LedgerRow) × (last_of (take n xs) ≡ some l)
last_there zero xs h k = absurd (omega arith)
last_there (suc n) [] h k = absurd (omega arith)
last_there (suc zero) (x ∷ xs) h k = (x, refl)
last_there (suc (suc n)) (x ∷ []) h k = (x, refl)
last_there (suc (suc n)) (x ∷ y ∷ xs) h k = last_there (suc n) (y ∷ xs) (omega arith) (omega arith)

pub map-append :
    {A B : Type 0} (f : A → B) (xs ys : List A) → map f (xs ++ ys) ≡ map f xs ++ map f ys
map-append f [] ys = refl
map-append f (x ∷ xs) ys = ap (λ l. f x ∷ l) (map-append f xs ys)
