-- ===== src/Houses/Snapshot/Confirmed.antt =====
-- The payments that the home screen asks a member to confirm can be disputed.
use homi_v.Prelude.{
  ℕ, ◌≡◌, refl, ap, ◌∙◌, true, false, some, List, [], ◌∷◌, find, keep, contains, Distinct, All,
  arith, ◌==◌, ==_refl, Bool-cases, inl, inr,
}
use homi_v.Prelude.Result.{ok}
use homi_v.Prelude.Sort.{IsOrder}
use homi_v.Prelude.Sort.Laws.{All-sort_by}
use homi_v.Money.Balances.{recorded}
use homi_v.Db.{Payment}
use homi_v.Activity.{World}
use homi_v.Posting.{active_member, is_null}
use homi_v.Ledger.{event_of}
use homi_v.Ledger.Payments.{dispute_payment}
use homi_v.Ledger.Payments.Dispute.{to_disputed}
use homi_v.Ledger.Payments.Accepts.{moved, dispute_payment_accepts}
use homi_v.Ledger.Reading.Restored.{payment_ids}
use homi_v.Ledger.Cursor.{Cursor}
use homi_v.Ledger.Feed.{goes_before, payment_key}
use homi_v.Houses.Snapshot.{is_disputable, disputable_payments}

-- The row of the id of a payment is the payment.
abbrev IsFound : List Payment → Payment → Type 0
IsFound ps p = find (λ q. q.id == p.id) ps ≡ some p

IsFound-cons :
    (x : Payment) (xs ys : List Payment)
    → contains x.id (payment_ids ys) ≡ false
    → All (IsFound xs) ys
    → All (IsFound (x ∷ xs)) ys
IsFound-cons x xs [] h k = tt
IsFound-cons x xs (y ∷ ys) h (found, k) =
    let other : (x.id == y.id) ≡ false = ground arith in
    (rw other found, IsFound-cons x xs ys (ground arith) k)

each-IsFound : (ps : List Payment) → Distinct (payment_ids ps) → All (IsFound ps) ps
each-IsFound [] d = tt
each-IsFound (p ∷ ps) (new, d) =
    (rw (==_refl p.id) refl, IsFound-cons p ps ps new (each-IsFound ps d))

payment_order : IsOrder (λ a b. goes_before (payment_key a) (payment_key b))
payment_order = record {
  trans = λ x y z. trans (payment_key x) (payment_key y) (payment_key z);
  total = λ x y. total (payment_key x) (payment_key y);
}
  where
    trans :
        (x y z : Cursor) → goes_before x y ≡ true → goes_before y z ≡ true → goes_before x z ≡ true
    trans x y z h k = ground arith

    total : (x y : Cursor) → goes_before x y ≡ false → goes_before y x ≡ true
    total x y h = ground arith

module _ (house_id user_id now : ℕ) (w : World)
    (membership : is_null (active_member house_id user_id w.db) ≡ false)
    (distinct : Distinct (payment_ids w.db.payments)) where
  -- A dispute by the user is accepted now.
  abbrev pub IsAcceptedNow : Payment → Type 0
  IsAcceptedNow p = dispute_payment now p.id user_id w ≡ (
    ok (to_disputed now p),
    moved p.id recorded (to_disputed now)
        (event_of p.house_id user_id "payment.disputed" "payment" p.id) w,
  )

  accepted :
      (p : Payment)
      → IsFound w.db.payments p
      → is_disputable house_id user_id now p ≡ true
      → IsAcceptedNow p
  accepted p found h =
      let house : p.house_id ≡ house_id = ground arith in
      dispute_payment_accepts now p.id user_id w p
        (record {
          found = found;
          membership = ap (λ i. is_null (active_member i user_id w.db)) house ∙ membership;
          recipient = ground arith;
        })
        (ground arith) (ground arith)

  each_accepted :
      (ps : List Payment)
      → All (IsFound w.db.payments) ps
      → All IsAcceptedNow (keep (is_disputable house_id user_id now) ps)
  each_accepted [] h = tt
  each_accepted (p ∷ ps) (found, h) = elim (Bool-cases (is_disputable house_id user_id now p)) [
    | inl shown ↦ rw shown (accepted p found shown, each_accepted ps h)
    | inr left_out ↦ rw left_out (each_accepted ps h)
  ]

  -- Each payment that the home screen asks an active member to confirm can be disputed by them at
  -- that time: the dispute is accepted, and moves that payment.
  pub disputable_payments_accepted :
      All IsAcceptedNow (disputable_payments house_id user_id now w.db.payments)
  unfolding disputable_payments
  disputable_payments_accepted =
      All-sort_by (λ a b. goes_before (payment_key a) (payment_key b)) payment_order IsAcceptedNow _
        (each_accepted w.db.payments (each-IsFound w.db.payments distinct))
