-- ===== src/Ledger/Payments/Dispute.antt =====
-- disputePayment and resolvePayment: when they are accepted, and what they change.
use homi_v.Prelude.{
  ℕ, ◌≡◌, refl, sym, subst, Bool, true, false, not, ◌&&◌, Option, none, some, List, [], ◌∷◌, find,
  ◌==◌, update_where, All, ltb, ◌-◌, Bool-cases, inl, inr, &&_iff,
}
use homi_v.Prelude.Result.{ok}
use homi_v.Money.Balances.{PaymentStatus, recorded, disputed, resolved}
use homi_v.Db.{Error, Payment, ActivityEvent, bad_request, forbidden}
use homi_v.Activity.{Tx, TxState, log}
use homi_v.Activity.Laws.{
  Keeps, keeps_rules, Keeps-bind, Keeps-throw_if, Keeps-pure, Announced, log-Announced,
}
use homi_v.Activity.Unrelated.{Unrelated, log-Keeps}
use homi_v.Posting.{is_null}
use homi_v.Ledger.{event_of}
use homi_v.Ledger.Payments.{
  has_status, as_recipient, payment_for, move_payment, dispute_payment_tx, resolve_payment_tx,
  dispute_window_ms,
}
use homi_v.Ledger.Payments.Lifecycle.{IsPayment, IsStamped, PaymentsOf}

abbrev pub at_status : ℕ → PaymentStatus → Payment → Bool
at_status id status p = p.id == id && has_status status p

module _ (id : ℕ) (status : PaymentStatus) (change : Payment → Payment) (nothing : Error) where
  move-state :
      (t t' : TxState) (p : Payment)
      → move_payment id status change nothing t ≡ ok (p, t')
      → t' ≡ record t {
        db =
            (let d = t.db in
              record d { payments = update_where (at_status id status) change d.payments });
      }
  unfolding move_payment
  move-state t t' p h =
      elim (find (at_status id status) t.db.payments)
          as (λ x.
            x ≡ find (at_status id status) t.db.payments
            → t' ≡ record t {
              db =
                  (let d = t.db in
                    record d { payments = update_where (at_status id status) change d.payments });
            }) [ none ↦ λ e. absurd (cc (rw (sym e) at h)) | some q ↦ λ e. cc (rw (sym e) at h) ]
        refl

  move-Keeps :
      (P : TxState → Type 0)
      → ((t : TxState) (ps : List Payment)
          → P t
          → P (record t { db = (let d = t.db in record d { payments = ps }) }))
      → Keeps P (move_payment id status change nothing)
  move-Keeps P u = record {
    at = λ t p t' h k.
        subst P (sym (move-state t t' p k))
          (u t (update_where (at_status id status) change t.db.payments) h);
  }

  All-update :
      (ps : List Payment)
      → ((p : Payment) → IsPayment p → has_status status p ≡ true → IsPayment (change p))
      → All IsPayment ps
      → All IsPayment (update_where (at_status id status) change ps)
  All-update [] f h = tt
  All-update (p ∷ ps) f (k, h) = elim (Bool-cases (at_status id status p)) [
    | inl here ↦
        (rw here (f p k ((&&_iff (p.id == id) (has_status status p)).0 here).1), All-update ps f h)
    | inr other ↦ (rw other k, All-update ps f h)
  ]

  move-PaymentsOf :
      ((p : Payment) → IsPayment p → has_status status p ≡ true → IsPayment (change p))
      → Keeps PaymentsOf (move_payment id status change nothing)
  move-PaymentsOf f = record {
    at = λ t p t' h k. subst PaymentsOf (sym (move-state t t' p k)) (All-update t.db.payments f h);
  }

as_recipient-Keeps :
    (P : TxState → Type 0) (user_id : ℕ) (e : Error) (p : Payment)
    → Keeps P (as_recipient user_id e p)
unfolding as_recipient
as_recipient-Keeps P user_id e p = search keeps_rules

payment_for-Keeps :
    (P : TxState → Type 0) (id user_id : ℕ) (e : Error) → Keeps P (payment_for id user_id e)
unfolding payment_for
payment_for-Keeps P id user_id e = search (keeps_rules, as_recipient-Keeps)

abbrev pub to_disputed : ℕ → Payment → Payment
to_disputed now p = record p { status = disputed; disputed_at = some now }

abbrev pub to_resolved : ℕ → Payment → Payment
to_resolved now p = record p { status = resolved; resolved_at = some now }

disputed-IsPayment :
    (now : ℕ) (p : Payment)
    → IsPayment p
    → has_status recorded p ≡ true
    → IsPayment (to_disputed now p)
disputed-IsPayment now p k h = record {
  positive = k.positive;
  between_two = k.between_two;
  stamped = (refl, none_yet p.status p.disputed_at p.resolved_at k.stamped h);
}
  where
    none_yet :
        (s : PaymentStatus) (a b : Option ℕ)
        → IsStamped s a b
        → has_status recorded (record p { status = s }) ≡ true
        → b ≡ none
    none_yet recorded a b k h = k.1
    none_yet disputed a b k h = cc
    none_yet resolved a b k h = cc

resolved-IsPayment :
    (now : ℕ) (p : Payment)
    → IsPayment p
    → has_status disputed p ≡ true
    → IsPayment (to_resolved now p)
resolved-IsPayment now p k h = record {
  positive = k.positive;
  between_two = k.between_two;
  stamped = (was_disputed p.status p.disputed_at p.resolved_at k.stamped h, refl);
}
  where
    was_disputed :
        (s : PaymentStatus) (a b : Option ℕ)
        → IsStamped s a b
        → has_status disputed (record p { status = s }) ≡ true
        → is_null a ≡ false
    was_disputed recorded a b k h = cc
    was_disputed disputed a b k h = k.0
    was_disputed resolved a b k h = cc

module _ (now id user_id : ℕ) where
  abbrev dispute_move : Tx Payment
  dispute_move =
      move_payment id recorded (to_disputed now)
        (bad_request "This payment is not open for dispute")

  abbrev resolve_move : Tx Payment
  resolve_move =
      move_payment id disputed (to_resolved now)
        (bad_request "Only a disputed payment can be resolved")

  module _ (P : TxState → Type 0) (logs : (e : ActivityEvent) → Keeps P (log e)) where
    dispute-Keeps : Keeps P dispute_move → Keeps P (dispute_payment_tx now id user_id)
    unfolding dispute_payment_tx
    dispute-Keeps moves =
        Keeps-bind _ _
          (payment_for-Keeps P id user_id (forbidden "Only the payment recipient can dispute it"))
          (λ p.
            Keeps-bind _ _
              (Keeps-throw_if (not (has_status recorded p))
                (bad_request "This payment is not open for dispute"))
              (λ _.
                Keeps-bind _ _
                  (Keeps-throw_if (ltb dispute_window_ms (now - p.created_at))
                    (bad_request "The 72-hour dispute window has closed"))
                  (λ _. Keeps-bind _ _ moves (λ moved.
                    Keeps-bind _ _
                      (logs (event_of p.house_id user_id "payment.disputed" "payment" id))
                      (λ _. Keeps-pure moved)))))

    resolve-Keeps : Keeps P resolve_move → Keeps P (resolve_payment_tx now id user_id)
    unfolding resolve_payment_tx
    resolve-Keeps moves =
        Keeps-bind _ _
          (payment_for-Keeps P id user_id
            (forbidden "Only the payment recipient can resolve their dispute"))
          (λ p.
            Keeps-bind _ _
              (Keeps-throw_if (not (has_status disputed p))
                (bad_request "Only a disputed payment can be resolved"))
              (λ _. Keeps-bind _ _ moves (λ moved.
                Keeps-bind _ _ (logs (event_of p.house_id user_id "payment.resolved" "payment" id))
                  (λ _. Keeps-pure moved))))

  logs-PaymentsOf : (e : ActivityEvent) → Keeps PaymentsOf (log e)
  logs-PaymentsOf e = log-Keeps e (λ t es ls h. h)

  pub dispute_payment_tx-PaymentsOf : Keeps PaymentsOf (dispute_payment_tx now id user_id)
  dispute_payment_tx-PaymentsOf =
      dispute-Keeps PaymentsOf logs-PaymentsOf
        (move-PaymentsOf id recorded (to_disputed now) _ (disputed-IsPayment now))

  pub resolve_payment_tx-PaymentsOf : Keeps PaymentsOf (resolve_payment_tx now id user_id)
  resolve_payment_tx-PaymentsOf =
      resolve-Keeps PaymentsOf logs-PaymentsOf
        (move-PaymentsOf id disputed (to_resolved now) _ (resolved-IsPayment now))

  module _ (base : List ActivityEvent) where
    pub dispute_payment_tx-Announced : Keeps (Announced base) (dispute_payment_tx now id user_id)
    dispute_payment_tx-Announced =
        dispute-Keeps (Announced base) (log-Announced base)
          (move-Keeps id recorded (to_disputed now) _ (Announced base) (λ t ps h. h))

    pub resolve_payment_tx-Announced : Keeps (Announced base) (resolve_payment_tx now id user_id)
    resolve_payment_tx-Announced =
        resolve-Keeps (Announced base) (log-Announced base)
          (move-Keeps id disputed (to_resolved now) _ (Announced base) (λ t ps h. h))

  module _ (P : TxState → Type 0) (u : Unrelated P)
      (v : (t : TxState) (ps : List Payment)
        → P t
        → P (record t { db = (let d = t.db in record d { payments = ps }) })) where
    pub dispute_payment_tx_unrelated : Keeps P (dispute_payment_tx now id user_id)
    dispute_payment_tx_unrelated =
        dispute-Keeps P (λ e. log-Keeps e u.events) (move-Keeps id recorded (to_disputed now) _ P v)

    pub resolve_payment_tx_unrelated : Keeps P (resolve_payment_tx now id user_id)
    resolve_payment_tx_unrelated =
        resolve-Keeps P (λ e. log-Keeps e u.events) (move-Keeps id disputed (to_resolved now) _ P v)
