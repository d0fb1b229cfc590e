-- ===== src/Ledger/Shares.antt =====
-- The primary key of the splits: one row for an expense and a user.
use homi_v.Prelude.{
  ℕ, ◌≡◌, refl, ◌∙◌, Bool, false, ◌&&◌, ◌||◌, List, [], ◌∷◌, ◌++◌, any, contains, Distinct,
  delete_where, All, arith, ◌==◌, Bool-cases, inl, inr,
}
use homi_v.Prelude.Dict.{keys}
use homi_v.Money.Split.{Splits}
use homi_v.Db.{ExpenseSplit}
use homi_v.Posting.{split_rows}

-- The row of the splits with this primary key.
abbrev pub is_share : ℕ → ℕ → ExpenseSplit → Bool
is_share expense_id user_id s = s.expense_id == expense_id && s.user_id == user_id

abbrev pub has_share : ℕ → ℕ → List ExpenseSplit → Bool
has_share expense_id user_id rows = any (is_share expense_id user_id) rows

abbrev pub Keyed : List ExpenseSplit → Type 0
Keyed [] = Unit
Keyed (s ∷ rows) = (has_share s.expense_id s.user_id rows ≡ false) × Keyed rows

has_share-append :
    (e u : ℕ) (xs ys : List ExpenseSplit)
    → has_share e u (xs ++ ys) ≡ (has_share e u xs || has_share e u ys)
has_share-append e u [] ys = refl
has_share-append e u (x ∷ xs) ys = ground (arith, has_share-append e u xs ys)

has_share-rows :
    (e u id : ℕ) (s : Splits) → has_share e u (split_rows id s) ≡ (id == e && contains u (keys s))
has_share-rows e u id [] = ground arith
has_share-rows e u id ((k, v) ∷ s) = ground (arith, has_share-rows e u id s)

Keyed-rows : (id : ℕ) (s : Splits) → Distinct (keys s) → Keyed (split_rows id s)
Keyed-rows id [] d = tt
Keyed-rows id ((k, v) ∷ s) (absent, d) =
    (has_share-rows id k id s ∙ ground arith, Keyed-rows id s d)

-- The rows of an expense that has none yet.
pub Keyed-append :
    (id : ℕ) (s : Splits) (rows : List ExpenseSplit)
    → Distinct (keys s)
    → All (λ r. (r.expense_id == id) ≡ false) rows
    → Keyed rows
    → Keyed (rows ++ split_rows id s)
Keyed-append id s [] d a k = Keyed-rows id s d
Keyed-append id s (r ∷ rows) d (other, a) (absent, k) =
    let flipped : (id == r.expense_id) ≡ false = ground arith in
    (
      has_share-append r.expense_id r.user_id rows (split_rows id s)
          ∙ ground (arith, has_share-rows r.expense_id r.user_id id s),
      Keyed-append id s rows d a k,
    )

module _ (p : ExpenseSplit → Bool) where
  pub has_share-delete :
      (e u : ℕ) (rows : List ExpenseSplit)
      → has_share e u rows ≡ false
      → has_share e u (delete_where p rows) ≡ false
  has_share-delete e u [] h = refl
  has_share-delete e u (r ∷ rows) h = ground (arith, has_share-delete e u rows)

  pub Keyed-delete : (rows : List ExpenseSplit) → Keyed rows → Keyed (delete_where p rows)
  Keyed-delete [] k = tt
  Keyed-delete (r ∷ rows) (absent, k) = elim (Bool-cases (p r)) [
    | inl gone ↦ rw gone (Keyed-delete rows k)
    | inr kept ↦ rw kept (has_share-delete r.expense_id r.user_id rows absent, Keyed-delete rows k)
  ]

pub All-deleted :
    (id : ℕ) (rows : List ExpenseSplit)
    → All (λ r. (r.expense_id == id) ≡ false) (delete_where (λ s. s.expense_id == id) rows)
All-deleted id [] = tt
All-deleted id (r ∷ rows) = elim (Bool-cases (r.expense_id == id)) [
  | inl gone ↦ rw gone (All-deleted id rows)
  | inr kept ↦ rw kept (kept, All-deleted id rows)
]
