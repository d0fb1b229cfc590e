-- ===== src/Houses/Claim/Keys.antt =====
-- After a claim no user has two splits of one expense, and the books are as before.
use homi_v.Prelude.{
  ℕ, ◌≡◌, ◌≢◌, refl, sym, ap, ◌∙◌, subst, Bool, true, false, ◌&&◌, ◌||◌, List, [], ◌∷◌, map,
  contains, delete_where, All, arith, ◌==◌, ==_refl, ||-right, Bool-cases, inl, inr,
}
use homi_v.Db.{Expense, ExpenseSplit}
use homi_v.Ledger.Shares.{is_share, has_share, Keyed, Keyed-delete, has_share-delete}
use homi_v.Ledger.Books.{Books, ids_of, total_of, All-map}
use homi_v.Houses.Claim.{grow, fold_shares, drop_folded, renamed, rename, claim_splits}
use homi_v.Houses.Claim.Shares.{Keyed-grow, grow-expense, total_of-claim_splits}

no_both : {b : Bool} → b ≡ true → b ≢ false
no_both h k = cc

refuted : {a b : Bool} → (a ≡ true → b ≡ true) → b ≡ false → a ≡ false
refuted {a = true} f h = absurd (no_both (f refl) h)
refuted {a = false} f h = refl

not_false : {a b : Bool} → (a ≡ false → b ≡ false) → b ≡ true → a ≡ true
not_false {a = true} f h = refl
not_false {a = false} f h = absurd (no_both h (f refl))

flip : (a b : ℕ) → (a == b) ≡ false → (b == a) ≡ false
flip a b h = ground arith

module _ (p c : ℕ) (differ : (p == c) ≡ false) where
  has_share-rename_claimer :
      (e : ℕ) (rows : List ExpenseSplit)
      → has_share e c (map (renamed p c) rows) ≡ (has_share e c rows || has_share e p rows)
  has_share-rename_claimer e [] = refl
  has_share-rename_claimer e (r ∷ rows) = ground (arith, has_share-rename_claimer e rows, differ)

  has_share-rename_other :
      (e u : ℕ) (rows : List ExpenseSplit)
      → (c == u) ≡ false
      → (p == u) ≡ false
      → has_share e u (map (renamed p c) rows) ≡ has_share e u rows
  has_share-rename_other e u [] h k = refl
  has_share-rename_other e u (r ∷ rows) h k = ground (arith, has_share-rename_other e u rows h k)

  -- An expense that the placeholder has a split of is one that the claimer has none of.
  abbrev Apart : List ExpenseSplit → ExpenseSplit → Type 0
  Apart all r = (r.user_id == p) ≡ true → has_share r.expense_id c all ≡ false

  none_of_Apart :
      (all : List ExpenseSplit) (e : ℕ) (rows : List ExpenseSplit)
      → has_share e c all ≡ true
      → All (Apart all) rows
      → has_share e p rows ≡ false
  none_of_Apart all e [] h a = refl
  none_of_Apart all e (r ∷ rows) h (apart, a) = elim (Bool-cases (is_share e p r)) [
    | inl here ↦
        let expense : r.expense_id ≡ e = ground arith in
        let none_there : has_share r.expense_id c all ≡ false = apart (ground arith) in
        let none_here : has_share e c all ≡ false =
          ap (λ x. has_share x c all) (sym expense) ∙ none_there in
        absurd (cc)
    | inr other ↦ rw other (none_of_Apart all e rows h a)
  ]

  Keyed-rename :
      (all rows : List ExpenseSplit)
      → ((e : ℕ) → has_share e c rows ≡ true → has_share e c all ≡ true)
      → All (Apart all) rows
      → Keyed rows
      → Keyed (map (renamed p c) rows)
  Keyed-rename all [] sub a k = tt
  Keyed-rename all (r ∷ rows) sub (apart, a) (absent, k) =
      (head_absent, Keyed-rename all rows (λ e h. sub e (ground arith)) a k)
    where
      head_absent :
          has_share (renamed p c r).expense_id (renamed p c r).user_id (map (renamed p c) rows)
          ≡ false
      head_absent = elim (Bool-cases (r.user_id == p)) [
        | inl theirs ↦
            let same : r.user_id ≡ p = ground arith in
            let none_of_placeholder : has_share r.expense_id p rows ≡ false =
              ap (λ u. has_share r.expense_id u rows) (sym same) ∙ absent in
            let none_of_claimer : has_share r.expense_id c rows ≡ false =
              refuted (λ yes. sub r.expense_id (||-right _ _ yes)) (apart theirs) in
            rw theirs (
              has_share-rename_claimer r.expense_id rows
              ∙ rw (none_of_claimer, none_of_placeholder) refl)
        | inr other ↦ elim (Bool-cases (r.user_id == c)) [
          | inl mine ↦
              let same : r.user_id ≡ c = ground arith in
              let none_of_claimer : has_share r.expense_id c rows ≡ false =
                ap (λ u. has_share r.expense_id u rows) (sym same) ∙ absent in
              let here : is_share r.expense_id c r ≡ true = ground (arith, ==_refl r.expense_id) in
              let none_of_placeholder =
                none_of_Apart all r.expense_id rows (sub r.expense_id (rw here refl)) a in
              rw other (
                ap (λ u. has_share r.expense_id u (map (renamed p c) rows)) same
                ∙ has_share-rename_claimer r.expense_id rows
                ∙ rw (none_of_claimer, none_of_placeholder) refl)
          | inr neither ↦ rw other (
              has_share-rename_other r.expense_id r.user_id rows (flip r.user_id c neither)
                (flip r.user_id p other)
              ∙ absent)
        ]
      ]

  kept_Apart :
      (all rows : List ExpenseSplit)
      → All (Apart all) (delete_where (λ r. r.user_id == p && has_share r.expense_id c all) rows)
  kept_Apart all [] = tt
  kept_Apart all (r ∷ rows) = elim (Bool-cases (r.user_id == p && has_share r.expense_id c all)) [
    | inl gone ↦ rw gone (kept_Apart all rows)
    | inr kept ↦ rw kept ((λ theirs. rw theirs at kept), kept_Apart all rows)
  ]

  -- A claim of a table without two rows for a user and an expense makes no such two rows.
  pub Keyed-claim_splits : (rows : List ExpenseSplit) → Keyed rows → Keyed (claim_splits p c rows)
  unfolding claim_splits rename drop_folded fold_shares
  Keyed-claim_splits rows k =
      let f = map (grow p c rows) rows in
      let folded : ExpenseSplit → Bool = λ r. r.user_id == p && has_share r.expense_id c f in
      Keyed-rename f (delete_where folded f)
        (λ e h. not_false (λ none. has_share-delete folded e c f none) h) (kept_Apart f f)
        (Keyed-delete folded f (Keyed-grow p c rows rows k))

  All-claim_splits :
      (P : ℕ → Type 0) (rows : List ExpenseSplit)
      → All (λ r. P r.expense_id) rows
      → All (λ r. P r.expense_id) (claim_splits p c rows)
  unfolding claim_splits rename drop_folded fold_shares
  All-claim_splits P rows h = renames _ (deletes _ _ (grows rows h))
    where
      grows :
          (xs : List ExpenseSplit)
          → All (λ r. P r.expense_id) xs
          → All (λ r. P r.expense_id) (map (grow p c rows) xs)
      grows [] h = tt
      grows (x ∷ xs) (q, h) = (subst P (sym (grow-expense p c rows x)) q, grows xs h)

      deletes :
          (d : ExpenseSplit → Bool) (xs : List ExpenseSplit)
          → All (λ r. P r.expense_id) xs
          → All (λ r. P r.expense_id) (delete_where d xs)
      deletes d [] h = tt
      deletes d (x ∷ xs) (q, h) = elim (Bool-cases (d x)) [
        | inl gone ↦ rw gone (deletes d xs h)
        | inr kept ↦ rw kept (q, deletes d xs h)
      ]

      renames :
          (xs : List ExpenseSplit)
          → All (λ r. P r.expense_id) xs
          → All (λ r. P r.expense_id) (map (renamed p c) xs)
      renames [] h = tt
      renames (x ∷ xs) (q, h) = elim (Bool-cases (x.user_id == p)) [
        | inl theirs ↦ rw theirs (q, renames xs h)
        | inr other ↦ rw other (q, renames xs h)
      ]

  -- A claim keeps the books.
  pub Books-claim_splits :
      (es : List Expense) (rows : List ExpenseSplit)
      → Books es rows
      → Books es (claim_splits p c rows)
  Books-claim_splits es rows b = record {
    balanced =
        All-map (λ e. total_of e.id rows ≡ e.amount_cents)
          (λ e. total_of e.id (claim_splits p c rows) ≡ e.amount_cents) es
          (λ e h. total_of-claim_splits p c e.id rows differ b.keyed ∙ h) b.balanced;
    referred = All-claim_splits (λ i. contains i (ids_of es) ≡ true) rows b.referred;
    unique = b.unique;
    keyed = Keyed-claim_splits rows b.keyed;
  }
