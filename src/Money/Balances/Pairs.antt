-- ===== src/Money/Balances/Pairs.antt =====
-- What the map of pairs says of a quantity that debts change: the sum of their effects.
use homi_v.Prelude.{
  ℕ, ◌≡◌, refl, sym, ap, ◌∙◌, List, [], ◌∷◌, ltb, ◌==◌, if◌then◌else◌, Bool-cases, inl, inr, arith,
}
use homi_v.Prelude.Int.{ℤ, pos, ◌+ℤ◌, neg_ℤ, int_laws, +ℤ_assoc, +ℤ-zero, zero-+ℤ}
use homi_v.Prelude.Dict.{Dict}
use homi_v.Money.Balances.{
  Entry, is_key, get_pair, set_pair, is_zero, add_debt, add_splits, add_expenses, is_disputed,
  add_payments, key_le, insert_entry, sort_entries, ExpenseRow, PaymentRow,
}

-- A quantity that every debt changes by an effect which is additive in the amount, is undone by
-- the opposite debt, and is zero for a debt to oneself.
pub record Measure : Type 0 where
  pub effect : ℕ → ℕ → ℤ → ℤ
  pub effect_add : (d c : ℕ) (x y : ℤ) → effect d c (x +ℤ y) ≡ effect d c x +ℤ effect d c y
  pub effect_neg : (d c : ℕ) (x : ℤ) → effect c d (neg_ℤ x) ≡ effect d c x
  pub effect_self : (d : ℕ) (x : ℤ) → effect d d x ≡ pos 0
  pub effect_zero : (d c : ℕ) → effect d c (pos 0) ≡ pos 0

module _ (M : Measure) where
  open M use {effect, effect_add, effect_neg, effect_self, effect_zero}

  unfoldable pub standing : List Entry → ℤ
  standing [] = pos 0
  standing (e ∷ es) = effect e.b e.a e.value +ℤ standing es

  standing-set_pair :
      (a b : ℕ) (x old : ℤ) (es : List Entry)
      → get_pair a b es ≡ old
      → standing (set_pair a b (old +ℤ x) es) ≡ standing es +ℤ effect b a x
  unfolding set_pair get_pair standing
  standing-set_pair a b x old [] h = rw (← h) (rw effect_add (rw effect_zero (omega int_laws)))
  standing-set_pair a b x old (e ∷ es) h = elim (Bool-cases (is_key a b e)) [
    | inl here ↦
        let same_a : e.a ≡ a = ground arith in
        let same_b : e.b ≡ b = ground arith in
        let value : old ≡ e.value = ground arith in
        rw (here, value) (rw effect_add (rw (same_a, same_b) (omega int_laws)))
    | inr there ↦ rw there (
        ap (λ z. effect e.b e.a e.value +ℤ z) (standing-set_pair a b x old es (ground arith))
        ∙ sym (+ℤ_assoc _ _ _))
  ]

  -- One call of `addDebt` moves every balance by the effect of the debt.
  standing-add_debt :
      (d c : ℕ) (x : ℤ) (es : List Entry)
      → standing (add_debt d c x es) ≡ standing es +ℤ effect d c x
  unfolding add_debt
  standing-add_debt d c x es = elim (Bool-cases (d == c)) [
    | inl same ↦
        let e : d ≡ c = ground arith in
        rw (same, e) (sym (ap (λ z. standing es +ℤ z) (effect_self c x) ∙ +ℤ-zero _))
    | inr other ↦ elim (Bool-cases (is_zero x)) [
      | inl nothing ↦
          let e : x ≡ pos 0 = ground arith in
          rw (other, e) (sym (ap (λ z. standing es +ℤ z) (effect_zero d c) ∙ +ℤ-zero _))
      | inr something ↦ elim (Bool-cases (ltb d c)) [
        | inl less ↦
            rw (other, something, less)
              (standing-set_pair d c (neg_ℤ x) _ es refl
                ∙ ap (λ z. standing es +ℤ z) (effect_neg d c x))
        | inr more ↦ rw (other, something, more) (standing-set_pair c d x _ es refl)
      ]
    ]
  ]

  -- What the rows say of `u`, read straight off: an expense credits the payer with every share and
  -- charges each member their own; a payment credits the sender and charges the recipient.
  abbrev pub splits_effect : ℕ → Dict ℤ → ℤ
  splits_effect paid_by [] = pos 0
  splits_effect paid_by ((user, cents) ∷ splits) =
      effect user paid_by cents +ℤ splits_effect paid_by splits

  abbrev pub expenses_effect : List ExpenseRow → ℤ
  expenses_effect [] = pos 0
  expenses_effect (e ∷ es) = splits_effect e.paid_by e.splits +ℤ expenses_effect es

  abbrev pub payments_effect : List PaymentRow → ℤ
  payments_effect [] = pos 0
  payments_effect (p ∷ ps) =
      (if is_disputed p.status then pos 0 else effect p.to_user p.from_user p.amount_cents)
      +ℤ payments_effect ps

  standing-add_splits :
      (paid_by : ℕ) (splits : Dict ℤ) (es : List Entry)
      → standing (add_splits paid_by splits es) ≡ standing es +ℤ splits_effect paid_by splits
  unfolding add_splits
  standing-add_splits paid_by [] es = sym (+ℤ-zero _)
  standing-add_splits paid_by ((user, cents) ∷ splits) es =
      standing-add_splits paid_by splits (add_debt user paid_by cents es)
      ∙ ap (λ z. z +ℤ splits_effect paid_by splits) (standing-add_debt user paid_by cents es)
      ∙ +ℤ_assoc _ _ _

  pub standing-add_expenses :
      (rows : List ExpenseRow) (es : List Entry)
      → standing (add_expenses rows es) ≡ standing es +ℤ expenses_effect rows
  unfolding add_expenses
  standing-add_expenses [] es = sym (+ℤ-zero _)
  standing-add_expenses (e ∷ rows) es =
      standing-add_expenses rows (add_splits e.paid_by e.splits es)
      ∙ ap (λ z. z +ℤ expenses_effect rows) (standing-add_splits e.paid_by e.splits es)
      ∙ +ℤ_assoc _ _ _

  pub standing-add_payments :
      (rows : List PaymentRow) (es : List Entry)
      → standing (add_payments rows es) ≡ standing es +ℤ payments_effect rows
  unfolding add_payments
  standing-add_payments [] es = sym (+ℤ-zero _)
  standing-add_payments (p ∷ rows) es = elim (Bool-cases (is_disputed p.status)) [
    | inl skip ↦ rw skip (
        standing-add_payments rows es
        ∙ ap (λ z. standing es +ℤ z) (sym (zero-+ℤ (payments_effect rows))))
    | inr count ↦ rw count (
        standing-add_payments rows (add_debt p.to_user p.from_user p.amount_cents es)
        ∙ ap (λ z. z +ℤ payments_effect rows)
            (standing-add_debt p.to_user p.from_user p.amount_cents es)
        ∙ +ℤ_assoc _ _ _)
  ]

  standing-insert_entry :
      (d : Entry) (es : List Entry) → standing (insert_entry d es) ≡ standing (d ∷ es)
  unfolding insert_entry standing
  standing-insert_entry d [] = refl
  standing-insert_entry d (e ∷ es) = elim (Bool-cases (key_le d e)) [
    | inl first ↦ rw first
    | inr later ↦
        rw later
          (ap (λ z. effect e.b e.a e.value +ℤ z) (standing-insert_entry d es) ∙ omega int_laws)
  ]

  pub standing-sort_entries : (es : List Entry) → standing (sort_entries es) ≡ standing es
  unfolding sort_entries standing
  standing-sort_entries [] = refl
  standing-sort_entries (e ∷ es) =
      standing-insert_entry e (sort_entries es)
      ∙ ap (λ z. effect e.b e.a e.value +ℤ z) (standing-sort_entries es)
