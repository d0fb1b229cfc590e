-- ===== src/Money/Balances/Net.antt =====
-- `net`: every member's balance, and that all of them together are zero.
use homi_v.Prelude.{
  ℕ, ◌≡◌, refl, sym, ap, ◌∙◌, List, [], ◌∷◌, ◌==◌, if◌then◌else◌, Bool-cases, inl, inr, arith,
}
use homi_v.Prelude.Int.{ℤ, pos, ◌+ℤ◌, ◌-ℤ◌, neg_ℤ, ltb_ℤ, int_laws, +ℤ_assoc, +ℤ-zero, zero-+ℤ}
use homi_v.Prelude.Dict.{Dict, insert, get_or, lookup-insert}
use homi_v.Money.Balances.{
  Entry, Debt, is_zero, debt_of, apply_debt, net_of, compute_balances, ExpenseRow, PaymentRow,
  add_expenses, add_payments, sort_entries,
}
use homi_v.Money.Balances.Pairs.{
  Measure, standing, expenses_effect, payments_effect, standing-add_expenses, standing-add_payments,
  standing-sort_entries,
}

-- A debt of `cents` to `creditor` changes the balance of `u` by this.
pub member_effect : ℕ → ℕ → ℕ → ℤ → ℤ
member_effect u debtor creditor cents =
    (if creditor == u then cents else pos 0) -ℤ (if debtor == u then cents else pos 0)

pub member_add :
    (u d c : ℕ) (x y : ℤ)
    → member_effect u d c (x +ℤ y) ≡ member_effect u d c x +ℤ member_effect u d c y
unfolding member_effect
member_add u d c x y = grind int_laws

pub member_neg : (u d c : ℕ) (x : ℤ) → member_effect u c d (neg_ℤ x) ≡ member_effect u d c x
unfolding member_effect
member_neg u d c x = grind int_laws

pub member_self : (u d : ℕ) (x : ℤ) → member_effect u d d x ≡ pos 0
unfolding member_effect
member_self u d x = grind int_laws

pub member_zero : (u d c : ℕ) → member_effect u d c (pos 0) ≡ pos 0
unfolding member_effect
member_zero u d c = grind int_laws

-- The balance of one member.
abbrev pub member : ℕ → Measure
member u = record {
  effect = member_effect u;
  effect_add = member_add u;
  effect_neg = member_neg u;
  effect_self = member_self u;
  effect_zero = member_zero u;
}

get_or-insert :
    (d : Dict ℤ) (k j : ℕ) (v : ℤ)
    → get_or (insert k v d) j (pos 0) ≡ (if k == j then v else get_or d j (pos 0))
get_or-insert d k j v = ground (arith, lookup-insert k j v d)

-- A pairwise debt changes every balance by its effect, `from` and `to` being equal included.
get_or-apply_debt :
    (u : ℕ) (d : Debt) (net : Dict ℤ)
    → get_or (apply_debt d net) u (pos 0)
      ≡ get_or net u (pos 0) +ℤ member_effect u d.from d.to d.amount_cents
unfolding apply_debt member_effect
get_or-apply_debt u d net = simp get_or-insert (grind int_laws)

effect-debt_of :
    (u : ℕ) (e : Entry)
    → member_effect u (debt_of e).from (debt_of e).to (debt_of e).amount_cents
      ≡ member_effect u e.b e.a e.value
effect-debt_of u e = elim (Bool-cases (ltb_ℤ (pos 0) e.value)) [
  | inl positive ↦ rw positive
  | inr negative ↦ rw negative (member_neg u e.b e.a e.value)
]

get_or-net_of :
    (u : ℕ) (es : List Entry) (net : Dict ℤ)
    → get_or (net_of es net) u (pos 0) ≡ get_or net u (pos 0) +ℤ standing (member u) es
unfolding net_of standing
get_or-net_of u [] net = sym (+ℤ-zero _)
get_or-net_of u (e ∷ es) net = elim (Bool-cases (is_zero e.value)) [
  | inl nothing ↦
      let none_owed : e.value ≡ pos 0 = ground arith in
      rw (nothing, none_owed)
        (get_or-net_of u es net
          ∙ ap (λ z. get_or net u (pos 0) +ℤ z)
              (sym (ap (λ z. z +ℤ standing (member u) es) (member_zero u e.b e.a) ∙ zero-+ℤ _)))
  | inr something ↦ rw something (
      get_or-net_of u es (apply_debt (debt_of e) net)
      ∙ ap (λ z. z +ℤ standing (member u) es)
          (get_or-apply_debt u (debt_of e) net
            ∙ ap (λ z. get_or net u (pos 0) +ℤ z) (effect-debt_of u e))
      ∙ +ℤ_assoc _ _ _)
]

-- For any rows, the balance that `net` shows for a member (zero if it shows none) is what the rows
-- say of them: the shares of others in what they paid, less their own shares in what others paid,
-- plus what they sent in payments, less what they received, the disputed payments left out.
pub net-compute_balances :
    (u : ℕ) (expenses : List ExpenseRow) (payments : List PaymentRow)
    → get_or (compute_balances expenses payments).net u (pos 0)
      ≡ expenses_effect (member u) expenses +ℤ payments_effect (member u) payments
unfolding compute_balances
net-compute_balances u expenses payments =
    let pair = add_expenses expenses [] in
    get_or-net_of u (sort_entries (add_payments payments pair)) []
    ∙ zero-+ℤ _
    ∙ standing-sort_entries (member u) (add_payments payments pair)
    ∙ standing-add_payments (member u) payments pair
    ∙ ap (λ z. z +ℤ payments_effect (member u) payments)
        (standing-add_expenses (member u) expenses [] ∙ (unfold standing in zero-+ℤ _))

abbrev pub total : Dict ℤ → ℤ
total [] = pos 0
total ((_, v) ∷ d) = v +ℤ total d

total-insert :
    (k : ℕ) (x old : ℤ) (d : Dict ℤ)
    → get_or d k (pos 0) ≡ old
    → total (insert k (old +ℤ x) d) ≡ total d +ℤ x
total-insert k x old [] h = rw (← h) (omega int_laws)
total-insert k x old ((j, v) ∷ d) h = elim (Bool-cases (j == k)) [
  | inl here ↦ let value : old ≡ v = ground arith in rw (here, value) (omega int_laws)
  | inr there ↦
      rw there (ap (λ z. v +ℤ z) (total-insert k x old d (ground arith)) ∙ sym (+ℤ_assoc _ _ _))
]

total-apply_debt : (d : Debt) (net : Dict ℤ) → total (apply_debt d net) ≡ total net
unfolding apply_debt
total-apply_debt d net =
    let x = d.amount_cents in
    let net' = insert d.from (get_or net d.from (pos 0) -ℤ x) net in
    let minus : (z : ℤ) → z -ℤ x ≡ z +ℤ neg_ℤ x = λ z. omega int_laws in
    total-insert d.to x (get_or net' d.to (pos 0)) net' refl
    ∙ ap (λ z. z +ℤ x)
        (ap (λ z. total (insert d.from z net)) (minus _)
          ∙ total-insert d.from (neg_ℤ x) (get_or net d.from (pos 0)) net refl)
    ∙ omega int_laws

total-net_of : (es : List Entry) (net : Dict ℤ) → total (net_of es net) ≡ total net
unfolding net_of
total-net_of [] net = refl
total-net_of (e ∷ es) net = elim (Bool-cases (is_zero e.value)) [
  | inl nothing ↦ rw nothing (total-net_of es net)
  | inr something ↦
      rw something (total-net_of es (apply_debt (debt_of e) net) ∙ total-apply_debt (debt_of e) net)
]

-- Nothing is created or lost: for any rows, the balances of `net` add up to zero.
pub total-net-compute_balances :
    (expenses : List ExpenseRow) (payments : List PaymentRow)
    → total (compute_balances expenses payments).net ≡ pos 0
unfolding compute_balances
total-net-compute_balances expenses payments =
    total-net_of (sort_entries (add_payments payments (add_expenses expenses []))) []
