-- ===== src/Ledger/Books.antt =====
-- The books of the expenses: what the split rows of an expense add up to.
use homi_v.Prelude.{
  ℕ, ◌+◌, ◌≡◌, refl, sym, ap, subst, ◌∙◌, Bool, true, false, ◌||◌, List, [], ◌∷◌, ◌++◌, map, sum,
  all, All, update_where, delete_where, Distinct, contains, arith, ◌==◌, ==_refl, if◌then◌else◌,
  Bool-cases, inl, inr,
}
use homi_v.Prelude.Dict.{keys, values}
use homi_v.Money.Split.{Splits}
use homi_v.Db.{Expense, ExpenseSplit}
use homi_v.Posting.{split_rows}
use homi_v.Ledger.Shares.{Keyed, Keyed-append, Keyed-delete, All-deleted}

-- The cents that the rows of an expense split.
abbrev pub total_of : ℕ → List ExpenseSplit → ℕ
total_of id [] = 0
total_of id (s ∷ rows) = (if s.expense_id == id then s.amount_cents else 0) + total_of id rows

abbrev pub ids_of : List Expense → List ℕ
ids_of = map (λ e. e.id)

-- The splits of every expense add up to its amount, every split belongs to an expense, no two
-- expenses share an id, and no user has two splits of one expense.
pub record Books (expenses : List Expense) (splits : List ExpenseSplit) : Type 0 where
  pub balanced : All (λ e. total_of e.id splits ≡ e.amount_cents) expenses
  pub referred : All (λ s. contains s.expense_id (ids_of expenses) ≡ true) splits
  pub unique : Distinct (ids_of expenses)
  pub keyed : Keyed splits

total_of-append :
    (id : ℕ) (xs ys : List ExpenseSplit) → total_of id (xs ++ ys) ≡ total_of id xs + total_of id ys
total_of-append id [] ys = omega arith
total_of-append id (x ∷ xs) ys = ground (arith, total_of-append id xs ys)

total_of-rows : (id : ℕ) (s : Splits) → total_of id (split_rows id s) ≡ sum (values s)
total_of-rows id [] = refl
total_of-rows id ((k, v) ∷ s) = ground (arith, ==_refl id, total_of-rows id s)

total_of-rows_other : (id a : ℕ) (s : Splits) → (id == a) ≡ false → total_of a (split_rows id s) ≡ 0
total_of-rows_other id a [] h = refl
total_of-rows_other id a ((k, v) ∷ s) h = ground (arith, total_of-rows_other id a s h)

abbrev without : ℕ → List ExpenseSplit → List ExpenseSplit
without id = delete_where (λ s. s.expense_id == id)

total_of-without : (id : ℕ) (rows : List ExpenseSplit) → total_of id (without id rows) ≡ 0
total_of-without id [] = refl
total_of-without id (x ∷ rows) = ground (arith, total_of-without id rows)

total_of-without_other :
    (id a : ℕ) (rows : List ExpenseSplit)
    → (id == a) ≡ false
    → total_of a (without id rows) ≡ total_of a rows
total_of-without_other id a [] h = refl
total_of-without_other id a (x ∷ rows) h = ground (arith, total_of-without_other id a rows h)

total_of_unknown :
    (id : ℕ) (ids : List ℕ) (rows : List ExpenseSplit)
    → contains id ids ≡ false
    → All (λ s. contains s.expense_id ids ≡ true) rows
    → total_of id rows ≡ 0
total_of_unknown id ids [] h r = refl
total_of_unknown id ids (x ∷ rows) h (here, r) = elim (Bool-cases (x.expense_id == id)) [
  | inl same ↦ let e : x.expense_id ≡ id = ground arith in absurd (cc (rw e at here))
  | inr other ↦ ground (arith, total_of_unknown id ids rows h r)
]

contains-snoc : (a b : ℕ) (xs : List ℕ) → contains a (xs ++ b ∷ []) ≡ (contains a xs || b == a)
contains-snoc a b [] = ground arith
contains-snoc a b (x ∷ xs) = ground (arith, contains-snoc a b xs)

Distinct-snoc :
    (b : ℕ) (xs : List ℕ) → Distinct xs → contains b xs ≡ false → Distinct (xs ++ b ∷ [])
Distinct-snoc b [] d h = (refl, tt)
Distinct-snoc b (x ∷ xs) (absent, d) h =
    (contains-snoc x b xs ∙ ground arith, Distinct-snoc b xs d (ground arith))

module _ {A : Type 0} (P : A → Type 0) where
  pub All-append : (xs ys : List A) → All P xs → All P ys → All P (xs ++ ys)
  All-append [] ys h k = k
  All-append (x ∷ xs) ys (p, h) k = (p, All-append xs ys h k)

  pub All-map : (Q : A → Type 0) (xs : List A) → ((x : A) → P x → Q x) → All P xs → All Q xs
  All-map Q [] f h = tt
  All-map Q (x ∷ xs) f (p, h) = (f x p, All-map Q xs f h)

ids_of-snoc : (xs : List Expense) (e : Expense) → ids_of (xs ++ e ∷ []) ≡ ids_of xs ++ e.id ∷ []
ids_of-snoc [] e = refl
ids_of-snoc (x ∷ xs) e = ap (λ l. x.id ∷ l) (ids_of-snoc xs e)

-- An expense of the books has another id than one that is not in them.
All-ids :
    (P : Expense → Type 0) (id : ℕ) (xs : List Expense)
    → contains id (ids_of xs) ≡ false
    → All P xs
    → All (λ e. (P e) × ((id == e.id) ≡ false)) xs
All-ids P id [] h a = tt
All-ids P id (x ∷ xs) h (p, a) = ((p, ground arith), All-ids P id xs (ground arith) a)

rows_refer :
    (id : ℕ) (ids : List ℕ) (s : Splits)
    → contains id ids ≡ true
    → All (λ r. contains r.expense_id ids ≡ true) (split_rows id s)
rows_refer id ids [] h = tt
rows_refer id ids ((k, v) ∷ s) h = (h, rows_refer id ids s h)

module _ (es : List Expense) (rows : List ExpenseSplit) where
  abbrev Balanced : Expense → Type 0
  Balanced e = total_of e.id rows ≡ e.amount_cents

  abbrev pub Refers : ExpenseSplit → Type 0
  Refers s = contains s.expense_id (ids_of es) ≡ true

none_of :
    (id : ℕ) (ids : List ℕ) (rows : List ExpenseSplit)
    → contains id ids ≡ false
    → All (λ s. contains s.expense_id ids ≡ true) rows
    → All (λ s. (s.expense_id == id) ≡ false) rows
none_of id ids [] h r = tt
none_of id ids (x ∷ rows) h (here, r) = elim (Bool-cases (x.expense_id == id)) [
  | inl same ↦ let e : x.expense_id ≡ id = ground arith in absurd (cc (rw e at here))
  | inr other ↦ (other, none_of id ids rows h r)
]

-- A new expense whose splits add up, one for each user, keeps the books.
pub Books-insert :
    (es : List Expense) (rows : List ExpenseSplit) (e : Expense) (s : Splits)
    → Books es rows
    → contains e.id (ids_of es) ≡ false
    → sum (values s) ≡ e.amount_cents
    → Distinct (keys s)
    → Books (es ++ e ∷ []) (rows ++ split_rows e.id s)
Books-insert es rows e s b fresh adds once = record {
  balanced =
      (let none_yet = total_of_unknown e.id (ids_of es) rows fresh b.referred in
        let new = rows ++ split_rows e.id s in
        All-append (Balanced es new) es (e ∷ [])
          (All-map (λ x. (Balanced es rows x) × ((e.id == x.id) ≡ false)) (Balanced es new) es
            (λ x h.
              total_of-append x.id rows (split_rows e.id s)
              ∙ omega (arith, h.0, total_of-rows_other e.id x.id s h.1))
            (All-ids (Balanced es rows) e.id es fresh b.balanced))
          (
            total_of-append e.id rows (split_rows e.id s)
                ∙ omega (arith, none_yet, total_of-rows e.id s, adds),
            tt,
          ));
  referred =
      All-append (Refers (es ++ e ∷ []) rows) rows (split_rows e.id s)
        (All-map (Refers es rows) (Refers (es ++ e ∷ []) rows) rows
          (λ r h.
            rw (ids_of-snoc es e) (contains-snoc r.expense_id e.id (ids_of es) ∙ ground arith))
          b.referred)
        (subst (λ ids. All (λ r. contains r.expense_id ids ≡ true) (split_rows e.id s))
          (sym (ids_of-snoc es e))
          (rows_refer e.id (ids_of es ++ e.id ∷ []) s
            (contains-snoc e.id e.id (ids_of es) ∙ ground (arith, ==_refl e.id))));
  unique = rw (ids_of-snoc es e) (Distinct-snoc e.id (ids_of es) b.unique fresh);
  keyed = Keyed-append e.id s rows once (none_of e.id (ids_of es) rows fresh b.referred) b.keyed;
}

abbrev pub has_id : ℕ → Expense → Bool
has_id id e = e.id == id

module _ (id : ℕ) (f : Expense → Expense) (keeps_id : (e : Expense) → (f e).id ≡ e.id) where
  ids_of-update : (es : List Expense) → ids_of (update_where (has_id id) f es) ≡ ids_of es
  ids_of-update [] = refl
  ids_of-update (e ∷ es) = elim (Bool-cases (e.id == id)) [
    | inl here ↦ rw (here, ids_of-update es, keeps_id e) refl
    | inr other ↦ rw (other, ids_of-update es) refl
  ]

  module _ (rows : List ExpenseSplit) (s : Splits)
      (adds : (e : Expense) → sum (values s) ≡ (f e).amount_cents) where
    abbrev replaced : List ExpenseSplit
    replaced = without id rows ++ split_rows id s

    total_of-replaced : (e : Expense) → e.id ≡ id → total_of e.id replaced ≡ (f e).amount_cents
    total_of-replaced e here = rw here (
        total_of-append id (without id rows) (split_rows id s)
        ∙ omega (arith, total_of-without id rows, total_of-rows id s, adds e))

    total_of-replaced_other : (a : ℕ) → (a == id) ≡ false → total_of a replaced ≡ total_of a rows
    total_of-replaced_other a other =
        let flipped : (id == a) ≡ false = ground arith in
        total_of-append a (without id rows) (split_rows id s)
        ∙ omega
            (arith, total_of-without_other id a rows flipped, total_of-rows_other id a s flipped)

    Balanced-replaced :
        (es all : List Expense)
        → All (Balanced all rows) es
        → All (Balanced all replaced) (update_where (has_id id) f es)
    Balanced-replaced [] all h = tt
    Balanced-replaced (e ∷ es) all (p, h) = elim (Bool-cases (e.id == id)) [
      | inl here ↦
          let same : e.id ≡ id = ground arith in
          (rw here (rw (keeps_id e) (total_of-replaced e same)), Balanced-replaced es all h)
      | inr other ↦ (rw other (total_of-replaced_other e.id other ∙ p), Balanced-replaced es all h)
    ]

    All-without :
        (P : ExpenseSplit → Type 0) (xs : List ExpenseSplit) → All P xs → All P (without id xs)
    All-without P [] h = tt
    All-without P (x ∷ xs) (p, h) = elim (Bool-cases (x.expense_id == id)) [
      | inl here ↦ rw here (All-without P xs h)
      | inr other ↦ rw other (p, All-without P xs h)
    ]

    -- An expense of the books that changes, and whose splits are replaced by some that add up to
    -- its new amount, keeps the books.
    pub Books-replace :
        (es : List Expense)
        → Books es rows
        → contains id (ids_of es) ≡ true
        → Distinct (keys s)
        → Books (update_where (has_id id) f es) replaced
    Books-replace es b known once = record {
      balanced = Balanced-replaced es es b.balanced;
      referred =
          (let ids = ids_of-update es in
            rw ids (
              All-append (Refers es rows) (without id rows) (split_rows id s)
                (All-without (Refers es rows) rows b.referred)
                (rows_refer id (ids_of es) s known)));
      unique = rw (ids_of-update es) b.unique;
      keyed =
          Keyed-append id s (without id rows) once (All-deleted id rows)
            (Keyed-delete (λ r. r.expense_id == id) rows b.keyed);
    }
