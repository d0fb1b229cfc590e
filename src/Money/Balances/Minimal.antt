-- ===== src/Money/Balances/Minimal.antt =====
-- The list of pairwise debts has no entry too many.
use homi_v.Prelude.{
  ℕ, ◌≡◌, ◌≢◌, ◌<◌, refl, ap, ◌∙◌, Bool, true, false, ◌&&◌, ◌||◌, List, [], ◌∷◌, ◌==◌, Bool-cases,
  inl, inr, arith,
}
use homi_v.Prelude.Int.{ℤ, pos, ◌+ℤ◌, ◌-ℤ◌, neg_ℤ, ltb_ℤ}
use homi_v.Prelude.Dict.{Dict}
use homi_v.Money.Balances.{
  Entry, is_key, Debt, is_zero, debt_of, set_pair, get_pair, add_debt, add_splits, pairwise_of,
  compute_balances, ExpenseRow, PaymentRow, add_expenses, add_payments, is_disputed, key_le,
  insert_entry, sort_entries,
}

-- No entry of the map has the key (a, b).
abbrev has_key : ℕ → ℕ → List Entry → Bool
has_key a b [] = false
has_key a b (e ∷ es) = is_key a b e || has_key a b es

abbrev WellKeyed : List Entry → Type 0
WellKeyed [] = Unit
WellKeyed (e ∷ es) = (e.a < e.b) × (has_key e.a e.b es ≡ false) × WellKeyed es

has_key-set_pair :
    (i j a b : ℕ) (v : ℤ) (es : List Entry)
    → has_key i j (set_pair a b v es) ≡ ((a == i && b == j) || has_key i j es)
unfolding set_pair
has_key-set_pair i j a b v [] = ground arith
has_key-set_pair i j a b v (e ∷ es) = ground (arith, has_key-set_pair i j a b v es)

set_pair-WellKeyed :
    (a b : ℕ) (v : ℤ) (es : List Entry) → a < b → WellKeyed es → WellKeyed (set_pair a b v es)
unfolding set_pair
set_pair-WellKeyed a b v [] h k = (h, refl, tt)
set_pair-WellKeyed a b v (e ∷ es) h k =
    ground (arith, set_pair-WellKeyed a b v es h k.2, has_key-set_pair e.a e.b a b v es)

add_debt-WellKeyed :
    (d c : ℕ) (x : ℤ) (es : List Entry) → WellKeyed es → WellKeyed (add_debt d c x es)
unfolding add_debt
add_debt-WellKeyed d c x es k = ground (
  arith,
  set_pair-WellKeyed d c (get_pair d c es +ℤ neg_ℤ x) es,
  set_pair-WellKeyed c d (get_pair c d es +ℤ x) es,
)

add_splits-WellKeyed :
    (paid_by : ℕ) (splits : Dict ℤ) (es : List Entry)
    → WellKeyed es
    → WellKeyed (add_splits paid_by splits es)
unfolding add_splits
add_splits-WellKeyed paid_by [] es k = k
add_splits-WellKeyed paid_by ((user, cents) ∷ splits) es k =
    add_splits-WellKeyed paid_by splits (add_debt user paid_by cents es)
      (add_debt-WellKeyed user paid_by cents es k)

add_expenses-WellKeyed :
    (rows : List ExpenseRow) (es : List Entry) → WellKeyed es → WellKeyed (add_expenses rows es)
unfolding add_expenses
add_expenses-WellKeyed [] es k = k
add_expenses-WellKeyed (e ∷ rows) es k =
    add_expenses-WellKeyed rows (add_splits e.paid_by e.splits es)
      (add_splits-WellKeyed e.paid_by e.splits es k)

add_payments-WellKeyed :
    (rows : List PaymentRow) (es : List Entry) → WellKeyed es → WellKeyed (add_payments rows es)
unfolding add_payments
add_payments-WellKeyed [] es k = k
add_payments-WellKeyed (p ∷ rows) es k = elim (Bool-cases (is_disputed p.status)) [
  | inl skip ↦ rw skip (add_payments-WellKeyed rows es k)
  | inr count ↦ rw count (
      add_payments-WellKeyed rows (add_debt p.to_user p.from_user p.amount_cents es)
        (add_debt-WellKeyed p.to_user p.from_user p.amount_cents es k))
]

has_key-insert_entry :
    (i j : ℕ) (d : Entry) (es : List Entry) → has_key i j (insert_entry d es) ≡ has_key i j (d ∷ es)
unfolding insert_entry
has_key-insert_entry i j d [] = refl
has_key-insert_entry i j d (e ∷ es) = ground (arith, has_key-insert_entry i j d es)

has_key-sort_entries : (i j : ℕ) (es : List Entry) → has_key i j (sort_entries es) ≡ has_key i j es
unfolding sort_entries
has_key-sort_entries i j [] = refl
has_key-sort_entries i j (e ∷ es) =
    has_key-insert_entry i j e (sort_entries es)
    ∙ ap (λ b. is_key i j e || b) (has_key-sort_entries i j es)

insert_entry-WellKeyed :
    (d : Entry) (es : List Entry) → WellKeyed (d ∷ es) → WellKeyed (insert_entry d es)
unfolding insert_entry
insert_entry-WellKeyed d [] k = k
insert_entry-WellKeyed d (e ∷ es) (less, new, k) = elim (Bool-cases (key_le d e)) [
  | inl first ↦ rw first (less, new, k)
  | inr later ↦
      let rest = insert_entry-WellKeyed d es (less, ground arith, k.2) in
      rw later (k.0, has_key-insert_entry e.a e.b d es ∙ ground arith, rest)
]

sort_entries-WellKeyed : (es : List Entry) → WellKeyed es → WellKeyed (sort_entries es)
unfolding sort_entries
sort_entries-WellKeyed [] k = tt
sort_entries-WellKeyed (e ∷ es) k =
    insert_entry-WellKeyed e (sort_entries es)
      (k.0, has_key-sort_entries e.a e.b es ∙ k.1, sort_entries-WellKeyed es k.2)

-- Some debt of the list is between `x` and `y`, one way or the other.
abbrev pub mentions : ℕ → ℕ → List Debt → Bool
mentions x y [] = false
mentions x y (d ∷ ds) = (d.from == x && d.to == y) || (d.from == y && d.to == x) || mentions x y ds

-- One entry at most for each two members, never from a member to themselves, never for nothing.
abbrev pub IsMinimal : List Debt → Type 0
IsMinimal [] = Unit
IsMinimal (d ∷ ds) =
    (ltb_ℤ (pos 0) d.amount_cents ≡ true)
    × (d.from ≢ d.to)
    × (mentions d.from d.to ds ≡ false)
    × IsMinimal ds

mentions-pairwise_of :
    (x y : ℕ) (es : List Entry)
    → x < y
    → WellKeyed es
    → has_key x y es ≡ false
    → (mentions x y (pairwise_of es) ≡ false) × (mentions y x (pairwise_of es) ≡ false)
unfolding pairwise_of
mentions-pairwise_of x y [] h k a = (refl, refl)
mentions-pairwise_of x y (e ∷ es) h k a = ground (arith, mentions-pairwise_of x y es h k.2)

amount-debt_of :
    (e : Entry) → is_zero e.value ≡ false → ltb_ℤ (pos 0) (debt_of e).amount_cents ≡ true
unfolding ◌-ℤ◌
amount-debt_of e h = ground arith

pairwise_of-IsMinimal : (es : List Entry) → WellKeyed es → IsMinimal (pairwise_of es)
unfolding pairwise_of
pairwise_of-IsMinimal [] k = tt
pairwise_of-IsMinimal (e ∷ es) k = elim (Bool-cases (is_zero e.value)) [
  | inl nothing ↦ rw nothing (pairwise_of-IsMinimal es k.2)
  | inr something ↦
      let rest = pairwise_of-IsMinimal es k.2 in
      let (forth, back) = mentions-pairwise_of e.a e.b es k.0 k.2 k.1 in
      rw something (amount-debt_of e something, ground arith, ground arith, rest)
]

-- For any rows, every amount of `pairwise` is positive, nobody owes themselves, and two members share
-- one entry at most.
pub pairwise-compute_balances-IsMinimal :
    (expenses : List ExpenseRow) (payments : List PaymentRow)
    → IsMinimal (compute_balances expenses payments).pairwise
unfolding compute_balances
pairwise-compute_balances-IsMinimal expenses payments =
    let pair = add_payments payments (add_expenses expenses []) in
    pairwise_of-IsMinimal (sort_entries pair) (
      sort_entries-WellKeyed pair (
        add_payments-WellKeyed payments (add_expenses expenses [])
          (add_expenses-WellKeyed expenses [] tt)))
