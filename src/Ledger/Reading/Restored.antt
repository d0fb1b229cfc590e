-- ===== src/Ledger/Reading/Restored.antt =====
-- A dispute that is resolved leaves the balances as they were.
use homi_v.Prelude.{
  ℕ, ◌≡◌, refl, sym, ap, ◌∙◌, true, false, some, List, [], ◌∷◌, map, find, contains, Distinct,
  update_where, arith, ◌==◌, if◌then◌else◌, Bool-cases, inl, inr, All,
}
use homi_v.Prelude.Dict.{values}
use homi_v.Prelude.Int.{pos}
use homi_v.Prelude.Result.{ok}
use homi_v.Money.Balances.{PaymentStatus, recorded, disputed, resolved, is_disputed}
use homi_v.Money.Balances.Skipping.{SameCount, compute_balances_same}
use homi_v.Db.{Payment}
use homi_v.Activity.{World}
use homi_v.Ledger.{event_of}
use homi_v.Ledger.Payments.{dispute_payment, resolve_payment, has_status}
use homi_v.Ledger.Payments.Dispute.{at_status, to_disputed, to_resolved}
use homi_v.Ledger.Payments.Accepts.{
  moved, dispute_payment_accepts, dispute_payment-eq-ok, resolve_payment_accepts,
  resolve_payment-eq-ok,
}
use homi_v.Ledger.Reading.{join_expenses, group_rows, payments_of, get_balances}

abbrev pub payment_ids : List Payment → List ℕ
payment_ids = map (λ p. p.id)

-- The payments of this id are recorded ones.
abbrev AllRecorded : ℕ → List Payment → Type 0
AllRecorded id = All (λ p. (p.id == id) ≡ true → has_status recorded p ≡ true)

none_with : (id : ℕ) (ps : List Payment) → contains id (payment_ids ps) ≡ false → AllRecorded id ps
none_with id [] h = tt
none_with id (p ∷ ps) h = (λ e. absurd (cc (rw e at h)), none_with id ps (ground arith))

AllRecorded-of_find :
    (id : ℕ) (ps : List Payment) (p : Payment)
    → Distinct (payment_ids ps)
    → find (λ q. q.id == id) ps ≡ some p
    → has_status recorded p ≡ true
    → AllRecorded id ps
AllRecorded-of_find id [] p d f r = tt
AllRecorded-of_find id (q ∷ ps) p (absent, d) f r = elim (Bool-cases (q.id == id)) [
  | inl here ↦
      let same : q ≡ p = cc (rw here at f) in
      let same_id : q.id ≡ id = ground arith in
      (
        λ e. rw same r,
        none_with id ps (ap (λ i. contains i (payment_ids ps)) (sym same_id) ∙ absent),
      )
  | inr other ↦ (λ e. absurd (cc (rw e at other)), AllRecorded-of_find id ps p d (rw other at f) r)
]

module _ (now later id house_id : ℕ) where
  abbrev restored : List Payment → List Payment
  restored ps =
      update_where (at_status id disputed) (to_resolved later)
        (update_where (at_status id recorded) (to_disputed now) ps)

  abbrev restore : Payment → Payment
  restore p =
      let q = (if at_status id recorded p then to_disputed now p else p) in
      if at_status id disputed q then to_resolved later q else q

  -- What the balances see of a payment.
  record SameRow (p q : Payment) : Type 0 where
    pub house : p.house_id ≡ q.house_id
    pub from : p.from_user ≡ q.from_user
    pub to : p.to_user ≡ q.to_user
    pub cents : p.amount_cents ≡ q.amount_cents
    pub counted : is_disputed p.status ≡ is_disputed q.status

  not_disputed :
      (s : PaymentStatus) (p : Payment)
      → p.status ≡ s
      → has_status recorded p ≡ true
      → is_disputed p.status ≡ false
  not_disputed recorded p e h = rw e refl
  not_disputed disputed p e h = cc (rw e at h)
  not_disputed resolved p e h = rw e refl

  restore-SameRow :
      (p : Payment) → ((p.id == id) ≡ true → has_status recorded p ≡ true) → SameRow (restore p) p
  restore-SameRow p r = elim (Bool-cases (p.id == id)) [
    | inl here ↦
        let was_recorded = r here in
        let first : at_status id recorded p ≡ true = rw here was_recorded in
        rw (first, here)
          (record {
            house = refl;
            from = refl;
            to = refl;
            cents = refl;
            counted = sym (not_disputed p.status p refl was_recorded);
          })
    | inr other ↦
        let first : at_status id recorded p ≡ false = rw other refl in
        let second : at_status id disputed p ≡ false = rw other refl in
        rw (first, second)
          (record { house = refl; from = refl; to = refl; cents = refl; counted = refl })
  ]

  SameCount-cons :
      (p q : Payment) (ps qs : List Payment)
      → SameRow p q
      → SameCount (payments_of house_id ps) (payments_of house_id qs)
      → SameCount (payments_of house_id (p ∷ ps)) (payments_of house_id (q ∷ qs))
  SameCount-cons p q ps qs e h = elim (Bool-cases (q.house_id == house_id)) [
    | inl ours ↦ rw (e.house, ours) (e.from, e.to, ap pos e.cents, e.counted, h)
    | inr other ↦ rw (e.house, other) h
  ]

  restored-SameCount :
      (ps : List Payment)
      → AllRecorded id ps
      → SameCount (payments_of house_id (restored ps)) (payments_of house_id ps)
  restored-SameCount [] h = tt
  restored-SameCount (p ∷ ps) (r, h) =
      SameCount-cons (restore p) p (restored ps) ps (restore-SameRow p r) (restored-SameCount ps h)

-- If no two payments share an id, an accepted dispute of a payment and an accepted resolution of it
-- after that, by whomever and whenever, leave the balances of every house as they were before.
pub get_balances-resolve_payment :
    (now later id user_id user_id' house_id : ℕ) (w w1 w2 : World) (p q : Payment)
    → Distinct (payment_ids w.db.payments)
    → dispute_payment now id user_id w ≡ (ok p, w1)
    → resolve_payment later id user_id' w1 ≡ (ok q, w2)
    → get_balances house_id w2.db ≡ get_balances house_id w.db
unfolding get_balances
get_balances-resolve_payment now later id user_id user_id' house_id w w1 w2 p q d disputes
      resolves =
    let (p0, asked, was_recorded, in_time) = dispute_payment-eq-ok now id user_id w w1 p disputes in
    let e1 = event_of p0.house_id user_id "payment.disputed" "payment" id in
    let (q0, asked', was_disputed) = resolve_payment-eq-ok later id user_id' w1 w2 q resolves in
    let e2 = event_of q0.house_id user_id' "payment.resolved" "payment" id in
    let first : w1 ≡ moved id recorded (to_disputed now) e1 w =
      ap (λ r. r.1)
        (sym disputes ∙ dispute_payment_accepts now id user_id w p0 asked was_recorded in_time) in
    let second : w2 ≡ moved id disputed (to_resolved later) e2 w1 =
      ap (λ r. r.1)
        (sym resolves ∙ resolve_payment_accepts later id user_id' w1 q0 asked' was_disputed) in
    let recorded_only = AllRecorded-of_find id w.db.payments p0 d asked.found was_recorded in
    ap (λ v. get_balances house_id v.db)
      (second ∙ ap (λ v. moved id disputed (to_resolved later) e2 v) first)
    ∙ compute_balances_same
        (values (group_rows (join_expenses house_id w.db.expenses w.db.splits) []))
        (payments_of house_id (restored now later id house_id w.db.payments))
        (payments_of house_id w.db.payments)
        (restored-SameCount now later id house_id w.db.payments recorded_only)
