-- ===== src/Money/Balances/Skipping.antt =====
-- Of a payment's status the balances see only whether it is disputed.
use homi_v.Prelude.{◌≡◌, refl, ap, List, [], ◌∷◌, if◌then◌else◌}
use homi_v.Money.Balances.{
  Entry, ExpenseRow, PaymentRow, is_disputed, add_debt, add_expenses, add_payments, sort_entries,
  net_of, pairwise_of, compute_balances,
}

-- The rows are between the same people, for the same cents, and disputed in the same places.
abbrev pub SameCount : List PaymentRow → List PaymentRow → Type 0
SameCount [] [] = Unit
SameCount (p ∷ ps) (q ∷ qs) =
    (p.from_user ≡ q.from_user)
    × (p.to_user ≡ q.to_user)
    × (p.amount_cents ≡ q.amount_cents)
    × (is_disputed p.status ≡ is_disputed q.status)
    × SameCount ps qs
SameCount _ _ = ⊥

add_payments_same :
    (ps qs : List PaymentRow) (es : List Entry)
    → SameCount ps qs
    → add_payments ps es ≡ add_payments qs es
unfolding add_payments
add_payments_same [] [] es h = refl
add_payments_same [] (q ∷ qs) es h = absurd h
add_payments_same (p ∷ ps) [] es h = absurd h
add_payments_same (p ∷ ps) (q ∷ qs) es (from, to, cents, counted, h) =
    rw (from, to, cents, counted)
      (add_payments_same ps qs
        (if is_disputed q.status then es else add_debt q.to_user q.from_user q.amount_cents es) h)

pub compute_balances_same :
    (es : List ExpenseRow) (ps qs : List PaymentRow)
    → SameCount ps qs
    → compute_balances es ps ≡ compute_balances es qs
unfolding compute_balances
compute_balances_same es ps qs h =
    ap
      (λ pair. record {
        net = net_of (sort_entries pair) [];
        pairwise = pairwise_of (sort_entries pair);
      })
      (add_payments_same ps qs (add_expenses es []) h)
