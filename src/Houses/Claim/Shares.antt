-- ===== src/Houses/Claim/Shares.antt =====
-- A claim moves shares, and changes the total of no expense.
use homi_v.Prelude.{
  ℕ, ◌+◌, ◌≡◌, refl, sym, ap, ◌∙◌, Bool, true, false, ◌&&◌, Option, none, some, List, [], ◌∷◌, map,
  find, arith, ◌==◌, delete_where, if◌then◌else◌, Bool-cases, inl, inr,
}
use homi_v.Db.{ExpenseSplit}
use homi_v.Ledger.Books.{total_of}
use homi_v.Ledger.Shares.{is_share, has_share, Keyed}
use homi_v.Houses.Claim.{add_share, grow, fold_shares, drop_folded, rename, claim_splits}

abbrev cents : Option ExpenseSplit → ℕ
cents none = 0
cents (some s) = s.amount_cents

-- The share of a user in an expense.
abbrev pub share_of : ℕ → ℕ → List ExpenseSplit → ℕ
share_of e u rows = cents (find (is_share e u) rows)

-- A row of the fold, as numbers.
grown :
    (b : Bool) (f : ℕ → ℕ) (sid e amt t t' r : ℕ)
    → t' ≡ t + r
    → (if sid == e then amt + (if b then f sid else 0) else 0) + t'
      ≡ (if sid == e then amt else 0) + t + ((if sid == e && b then f e else 0) + r)
grown b f sid e amt t t' r h = elim (Bool-cases (sid == e)) [
  | inl here ↦ let same : sid ≡ e = ground arith in rw (here, same) (ground arith)
  | inr other ↦ rw other (ground arith)
]

grow-amount :
    (p c : ℕ) (all : List ExpenseSplit) (s : ExpenseSplit)
    → (grow p c all s).amount_cents
      ≡ s.amount_cents + (if s.user_id == c then share_of s.expense_id p all else 0)
unfolding grow add_share
grow-amount p c all s = ground arith

pub grow-expense :
    (p c : ℕ) (all : List ExpenseSplit) (s : ExpenseSplit)
    → (grow p c all s).expense_id ≡ s.expense_id
unfolding grow add_share
grow-expense p c all s = ground arith

grow-user :
    (p c : ℕ) (all : List ExpenseSplit) (s : ExpenseSplit) → (grow p c all s).user_id ≡ s.user_id
unfolding grow add_share
grow-user p c all s = ground arith

has_share-absent :
    (e u : ℕ) (s : ExpenseSplit) (rows : List ExpenseSplit)
    → is_share e u s ≡ true
    → has_share s.expense_id s.user_id rows ≡ false
    → has_share e u rows ≡ false
has_share-absent e u s rows h k =
    let expense : s.expense_id ≡ e = ground arith in
    let user : s.user_id ≡ u = ground arith in
    ap (λ x. has_share x u rows) (sym expense)
    ∙ ap (λ x. has_share s.expense_id x rows) (sym user)
    ∙ k

module _ (p c : ℕ) where
  -- The cents by which the fold of `all` raises the rows of an expense.
  abbrev raised : List ExpenseSplit → ℕ → List ExpenseSplit → ℕ
  raised all e [] = 0
  raised all e (s ∷ rows) = (if is_share e c s then share_of e p all else 0) + raised all e rows

  total_of-grow :
      (all : List ExpenseSplit) (e : ℕ) (rows : List ExpenseSplit)
      → total_of e (map (grow p c all) rows) ≡ total_of e rows + raised all e rows
  total_of-grow all e [] = omega arith
  total_of-grow all e (s ∷ rows) =
      rw (grow-expense p c all s, grow-amount p c all s)
        (grown (s.user_id == c) (λ x. share_of x p all) s.expense_id e s.amount_cents
          (total_of e rows) (total_of e (map (grow p c all) rows)) (raised all e rows)
          (total_of-grow all e rows))

  raised_none :
      (all : List ExpenseSplit) (e : ℕ) (rows : List ExpenseSplit)
      → has_share e c rows ≡ false
      → raised all e rows ≡ 0
  raised_none all e [] h = refl
  raised_none all e (s ∷ rows) h = ground (arith, raised_none all e rows)

  raised_one :
      (all : List ExpenseSplit) (e : ℕ) (rows : List ExpenseSplit)
      → Keyed rows
      → has_share e c rows ≡ true
      → raised all e rows ≡ share_of e p all
  raised_one all e [] k h = cc
  raised_one all e (s ∷ rows) k h = elim (Bool-cases (is_share e c s)) [
    | inl here ↦
        rw here (omega (arith, raised_none all e rows (has_share-absent e c s rows here k.0)))
    | inr other ↦ rw other (omega (arith, raised_one all e rows k.1 (rw other at h)))
  ]

  -- The cents of the rows of an expense that the deletion takes away.
  abbrev dropped : (ℕ → Bool) → ℕ → List ExpenseSplit → ℕ
  dropped has e [] = 0
  dropped has e (s ∷ rows) =
      (if is_share e p s && has e then s.amount_cents else 0) + dropped has e rows

  total_of-dropped :
      (has : ℕ → Bool) (e : ℕ) (rows : List ExpenseSplit)
      → total_of e (delete_where (λ s. s.user_id == p && has s.expense_id) rows)
          + dropped has e rows
        ≡ total_of e rows
  total_of-dropped has e [] = omega arith
  total_of-dropped has e (s ∷ rows) = elim (Bool-cases (s.expense_id == e)) [
    | inl here ↦
        let same : s.expense_id ≡ e = ground arith in
        rw (here, same) (ground (arith, total_of-dropped has e rows))
    | inr other ↦ rw other (ground (arith, total_of-dropped has e rows))
  ]

  dropped_none :
      (has : ℕ → Bool) (e : ℕ) (rows : List ExpenseSplit)
      → has_share e p rows ≡ false
      → dropped has e rows ≡ 0
  dropped_none has e [] h = refl
  dropped_none has e (s ∷ rows) h = ground (arith, dropped_none has e rows)

  dropped_lem :
      (has : ℕ → Bool) (e : ℕ) (rows : List ExpenseSplit)
      → Keyed rows
      → dropped has e rows ≡ (if has e then share_of e p rows else 0)
  dropped_lem has e [] k = ground arith
  dropped_lem has e (s ∷ rows) k = elim (Bool-cases (is_share e p s)) [
    | inl here ↦
        let rest = dropped_none has e rows (has_share-absent e p s rows here k.0) in
        rw here (ground arith)
    | inr other ↦ rw other (omega (arith, dropped_lem has e rows k.1))
  ]

  total_of-rename :
      (e : ℕ) (rows : List ExpenseSplit) → total_of e (rename p c rows) ≡ total_of e rows
  unfolding rename
  total_of-rename e [] = refl
  total_of-rename e (s ∷ rows) = ground (arith, total_of-rename e rows)

  is_share-grow :
      (all : List ExpenseSplit) (e u : ℕ) (s : ExpenseSplit)
      → is_share e u (grow p c all s) ≡ is_share e u s
  is_share-grow all e u s = rw (grow-expense p c all s, grow-user p c all s) refl

  pub has_share-grow :
      (all : List ExpenseSplit) (e u : ℕ) (rows : List ExpenseSplit)
      → has_share e u (map (grow p c all) rows) ≡ has_share e u rows
  has_share-grow all e u [] = refl
  has_share-grow all e u (s ∷ rows) =
      rw (grow-expense p c all s, grow-user p c all s, has_share-grow all e u rows) refl

  pub Keyed-grow : (all rows : List ExpenseSplit) → Keyed rows → Keyed (map (grow p c all) rows)
  Keyed-grow all [] k = tt
  Keyed-grow all (s ∷ rows) (absent, k) = (
    rw (grow-expense p c all s, grow-user p c all s)
        (has_share-grow all s.expense_id s.user_id rows ∙ absent),
    Keyed-grow all rows k,
  )

  share_of-grow :
      (all : List ExpenseSplit) (e : ℕ) (rows : List ExpenseSplit)
      → (p == c) ≡ false
      → share_of e p (map (grow p c all) rows) ≡ share_of e p rows
  share_of-grow all e [] d = refl
  share_of-grow all e (s ∷ rows) d = elim (Bool-cases (is_share e p s)) [
    | inl here ↦
        let grown_here : is_share e p (grow p c all s) ≡ true = is_share-grow all e p s ∙ here in
        let user : s.user_id ≡ p = ground arith in
        let other : (s.user_id == c) ≡ false = rw user d in
        rw (grown_here, here) (grow-amount p c all s ∙ rw other (omega arith))
    | inr other ↦
        let grown_other : is_share e p (grow p c all s) ≡ false = is_share-grow all e p s ∙ other in
        rw (grown_other, other) (share_of-grow all e rows d)
  ]

  -- The fold adds to an expense what the deletion then takes from it.
  dropped-fold :
      (e : ℕ) (rows : List ExpenseSplit)
      → (p == c) ≡ false
      → Keyed rows
      → dropped (λ x. has_share x c (map (grow p c rows) rows)) e (map (grow p c rows) rows)
        ≡ raised rows e rows
  dropped-fold e rows d k =
      dropped_lem (λ x. has_share x c (map (grow p c rows) rows)) e (map (grow p c rows) rows)
        (Keyed-grow rows rows k)
      ∙ elim (Bool-cases (has_share e c rows)) [
        | inl both ↦
            rw (has_share-grow rows e c rows, both)
              (share_of-grow rows e rows d ∙ sym (raised_one rows e rows k both))
        | inr alone ↦ rw (has_share-grow rows e c rows, alone) (sym (raised_none rows e rows alone))
      ]

  -- If the claimer is not the placeholder, and no user has two rows for one expense, a claim changes
  -- the total of no expense.
  pub total_of-claim_splits :
      (e : ℕ) (rows : List ExpenseSplit)
      → (p == c) ≡ false
      → Keyed rows
      → total_of e (claim_splits p c rows) ≡ total_of e rows
  unfolding claim_splits drop_folded fold_shares
  total_of-claim_splits e rows d k =
      let f = map (grow p c rows) rows in
      total_of-rename e (delete_where (λ s. s.user_id == p && has_share s.expense_id c f) f)
      ∙ omega (
        arith,
        total_of-dropped (λ x. has_share x c f) e f,
        total_of-grow rows e rows,
        dropped-fold e rows d k,
      )
