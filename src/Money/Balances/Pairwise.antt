-- ===== src/Money/Balances/Pairwise.antt =====
-- `pairwise`: what two members owe each other, and that the list is minimal.
use homi_v.Prelude.{
  ℕ, ◌≡◌, refl, sym, ap, ◌∙◌, ◌&&◌, List, [], ◌∷◌, ◌==◌, if◌then◌else◌, Bool-cases, inl, inr, arith,
}
use homi_v.Prelude.Int.{ℤ, pos, ◌+ℤ◌, ◌-ℤ◌, neg_ℤ, ltb_ℤ, int_laws, zero-+ℤ}
use homi_v.Money.Balances.{
  Entry, Debt, is_zero, debt_of, pairwise_of, compute_balances, ExpenseRow, PaymentRow,
  add_expenses, add_payments, sort_entries,
}
use homi_v.Money.Balances.Pairs.{
  Measure, standing, expenses_effect, payments_effect, standing-add_expenses, standing-add_payments,
  standing-sort_entries,
}

-- A debt of `cents` to `creditor` changes what `y` owes `x` by this.
pub pair_effect : ℕ → ℕ → ℕ → ℕ → ℤ → ℤ
pair_effect x y debtor creditor cents =
    (if creditor == x && debtor == y then cents else pos 0)
    -ℤ (if creditor == y && debtor == x then cents else pos 0)

pub pair_add :
    (x y d c : ℕ) (v w : ℤ)
    → pair_effect x y d c (v +ℤ w) ≡ pair_effect x y d c v +ℤ pair_effect x y d c w
unfolding pair_effect
pair_add x y d c v w = grind int_laws

pub pair_neg : (x y d c : ℕ) (v : ℤ) → pair_effect x y c d (neg_ℤ v) ≡ pair_effect x y d c v
unfolding pair_effect
pair_neg x y d c v = grind int_laws

pub pair_self : (x y d : ℕ) (v : ℤ) → pair_effect x y d d v ≡ pos 0
unfolding pair_effect
pair_self x y d v = grind int_laws

pub pair_zero : (x y d c : ℕ) → pair_effect x y d c (pos 0) ≡ pos 0
unfolding pair_effect
pair_zero x y d c = grind int_laws

-- What `y` owes `x`, less what `x` owes `y`.
abbrev pub between : ℕ → ℕ → Measure
between x y = record {
  effect = pair_effect x y;
  effect_add = pair_add x y;
  effect_neg = pair_neg x y;
  effect_self = pair_self x y;
  effect_zero = pair_zero x y;
}

-- The same quantity, as the list of pairwise debts shows it.
abbrev pub owed : ℕ → ℕ → List Debt → ℤ
owed x y [] = pos 0
owed x y (d ∷ ds) = pair_effect x y d.from d.to d.amount_cents +ℤ owed x y ds

effect-debt_of :
    (x y : ℕ) (e : Entry)
    → pair_effect x y (debt_of e).from (debt_of e).to (debt_of e).amount_cents
      ≡ pair_effect x y e.b e.a e.value
effect-debt_of x y e = elim (Bool-cases (ltb_ℤ (pos 0) e.value)) [
  | inl positive ↦ rw positive
  | inr negative ↦ rw negative (pair_neg x y e.b e.a e.value)
]

owed-pairwise_of :
    (x y : ℕ) (es : List Entry) → owed x y (pairwise_of es) ≡ standing (between x y) es
unfolding pairwise_of standing
owed-pairwise_of x y [] = refl
owed-pairwise_of x y (e ∷ es) = elim (Bool-cases (is_zero e.value)) [
  | inl nothing ↦
      let none_owed : e.value ≡ pos 0 = ground arith in
      rw (nothing, none_owed)
        (owed-pairwise_of x y es
          ∙ sym (ap (λ z. z +ℤ standing (between x y) es) (pair_zero x y e.b e.a) ∙ zero-+ℤ _))
  | inr something ↦ rw something (
      ap (λ z. z +ℤ owed x y (pairwise_of es)) (effect-debt_of x y e)
      ∙ ap (λ z. pair_effect x y e.b e.a e.value +ℤ z) (owed-pairwise_of x y es))
]

-- For any rows and any two members, what `pairwise` shows that one owes the other, less what it
-- shows the other way round, is what the rows add up to between the two of them, the disputed
-- payments left out.
pub owed-compute_balances :
    (x y : ℕ) (expenses : List ExpenseRow) (payments : List PaymentRow)
    → owed x y (compute_balances expenses payments).pairwise
      ≡ expenses_effect (between x y) expenses +ℤ payments_effect (between x y) payments
unfolding compute_balances
owed-compute_balances x y expenses payments =
    let M = between x y in
    let pair = add_expenses expenses [] in
    owed-pairwise_of x y (sort_entries (add_payments payments pair))
    ∙ standing-sort_entries M (add_payments payments pair)
    ∙ standing-add_payments M payments pair
    ∙ ap (λ z. z +ℤ payments_effect M payments)
        (standing-add_expenses M expenses [] ∙ (unfold standing in zero-+ℤ _))
