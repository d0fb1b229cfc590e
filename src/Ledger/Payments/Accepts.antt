-- ===== src/Ledger/Payments/Accepts.antt =====
-- Exactly which disputes and resolutions are accepted.
use homi_v.Prelude.{
  ℕ, ◌≡◌, refl, ap, ◌∙◌, Bool, true, false, not, Option, none, some, List, [], ◌∷◌, ◌++◌, find,
  arith, ◌==◌, update_where, ltb, ◌-◌, Bool-cases, inl, inr,
}
use homi_v.Prelude.Result.{ok}
use homi_v.Money.Balances.{PaymentStatus, recorded, disputed}
use homi_v.Db.{Db, Error, Payment, bad_request, forbidden, not_found, ActivityEvent}
use homi_v.Activity.{TxState, ◌>>=◌, or_throw, throw_if, World, hint_of, log}
use homi_v.Activity.Laws.{
  >>=-eq-ok, throw_if-eq-ok, transact-eq-ok, transact_commits, log_lem, bind_commits,
  throw_if_passes,
}
use homi_v.Posting.{active_member, is_null}
use homi_v.Ledger.{event_of}
use homi_v.Ledger.Payments.{
  has_status, find_payment, as_recipient, payment_for, move_payment, dispute_payment_tx,
  resolve_payment_tx, dispute_window_ms, dispute_payment, resolve_payment,
}
use homi_v.Ledger.Payments.Dispute.{at_status, to_disputed, to_resolved}

-- The payment of the id, which a current member of its house asks about as its recipient.
pub record Asked (id user_id : ℕ) (db : Db) (p : Payment) : Type 0 where
  pub found : find (λ q. q.id == id) db.payments ≡ some p
  pub membership : is_null (active_member p.house_id user_id db) ≡ false
  pub recipient : (p.to_user == user_id) ≡ true

as_recipient-eq-ok :
    (user_id : ℕ) (e : Error) (q p : Payment) (t t' : TxState)
    → as_recipient user_id e q t ≡ ok (p, t')
    → (q ≡ p)
      × (t' ≡ t)
      × (is_null (active_member p.house_id user_id t.db) ≡ false)
      × ((p.to_user == user_id) ≡ true)
unfolding as_recipient
as_recipient-eq-ok user_id e q p t t' h = ground arith

payment_for-eq-ok :
    (id user_id : ℕ) (e : Error) (t : TxState) (p : Payment) (t' : TxState)
    → payment_for id user_id e t ≡ ok (p, t')
    → (t' ≡ t) × Asked id user_id t.db p
unfolding payment_for find_payment
payment_for-eq-ok id user_id e t p t' h = go (find (λ q. q.id == id) t.db.payments) refl h
  where
    go :
        (row : Option Payment)
        → find (λ q. q.id == id) t.db.payments ≡ row
        → (or_throw row (not_found "Payment not found") >>= as_recipient user_id e) t ≡ ok (p, t')
        → (t' ≡ t) × Asked id user_id t.db p
    go none f k = cc
    go (some q) f k =
        let (same, state, member, recipient) = as_recipient-eq-ok user_id e q p t t' k in
        (state, record { found = f ∙ ap some same; membership = member; recipient = recipient })

find-at_status :
    (id : ℕ) (s : PaymentStatus) (ps : List Payment) (p : Payment)
    → find (λ q. q.id == id) ps ≡ some p
    → has_status s p ≡ true
    → find (at_status id s) ps ≡ some p
find-at_status id s [] p h k = cc
find-at_status id s (q ∷ ps) p h k = elim (Bool-cases (q.id == id)) [
  | inl here ↦
      let same : q ≡ p = cc (rw here at h) in
      let matches : at_status id s q ≡ true = rw (here, same) k in rw matches (ap some same)
  | inr other ↦ rw other (find-at_status id s ps p (rw other at h) k)
]

as_recipient_accepts :
    (user_id : ℕ) (e : Error) (p : Payment) (t : TxState)
    → is_null (active_member p.house_id user_id t.db) ≡ false
    → (p.to_user == user_id) ≡ true
    → as_recipient user_id e p t ≡ ok (p, t)
unfolding as_recipient
as_recipient_accepts user_id e p t h k = ground arith

payment_for_accepts :
    (id user_id : ℕ) (e : Error) (t : TxState) (p : Payment)
    → Asked id user_id t.db p
    → payment_for id user_id e t ≡ ok (p, t)
unfolding payment_for find_payment
payment_for_accepts id user_id e t p a =
    rw a.found (as_recipient_accepts user_id e p t a.membership a.recipient)

move_accepts :
    (id : ℕ) (s : PaymentStatus) (f : Payment → Payment) (e : Error) (t : TxState) (p : Payment)
    → find (at_status id s) t.db.payments ≡ some p
    → move_payment id s f e t
      ≡ ok (
        f p,
        record t {
          db = (let d = t.db in record d { payments = update_where (at_status id s) f d.payments });
        },
      )
unfolding move_payment
move_accepts id s f e t p h = rw h refl

not-not : (b : Bool) → not b ≡ false → b ≡ true
not-not true h = refl
not-not false h = cc

abbrev logged_in : ActivityEvent → TxState → TxState
logged_in e t = record {
  db = (let d = t.db in record d { events = d.events ++ e ∷ [] });
  logged = t.logged ++ e ∷ [];
}

-- The world in which the payment has moved, and its event is on the feed and announced.
abbrev pub moved : ℕ → PaymentStatus → (Payment → Payment) → ActivityEvent → World → World
moved id s f e w = record {
  db =
      (let d = w.db in
        record d {
          payments = update_where (at_status id s) f d.payments;
          events = d.events ++ e ∷ [];
        });
  published = w.published ++ hint_of e ∷ [];
}

-- A dispute is accepted from the recipient of a recorded payment who is a current member of its
-- house, up to and including 72 hours after it was recorded. It moves that payment to `disputed`,
-- and announces that.
pub dispute_payment_accepts :
    (now id user_id : ℕ) (w : World) (p : Payment)
    → Asked id user_id w.db p
    → has_status recorded p ≡ true
    → ltb dispute_window_ms (now - p.created_at) ≡ false
    → dispute_payment now id user_id w ≡ (
      ok (to_disputed now p),
      moved id recorded
          (to_disputed now)
          (event_of p.house_id user_id "payment.disputed" "payment" id)
          w,
    )
unfolding dispute_payment dispute_payment_tx
dispute_payment_accepts now id user_id w p a unsettled in_time =
    let t : TxState = record { db = w.db; logged = [] } in
    let e = event_of p.house_id user_id "payment.disputed" "payment" id in
    let closed = bad_request "This payment is not open for dispute" in
    let asked =
      payment_for_accepts id user_id (forbidden "Only the payment recipient can dispute it") t p
        a in
    let there = find-at_status id recorded w.db.payments p a.found unsettled in
    let t2 = record t {
      db =
          (let d = t.db in
            record d {
              payments = update_where (at_status id recorded) (to_disputed now) d.payments;
            });
    } in
    let run : dispute_payment_tx now id user_id t
        ≡ ok (
          to_disputed now p,
          record { db = (moved id recorded (to_disputed now) e w).db; logged = e ∷ [] },
        ) =
      bind_commits (payment_for id user_id (forbidden "Only the payment recipient can dispute it"))
        _ t p t asked
      ∙ bind_commits (throw_if (not (has_status recorded p)) closed) _ t tt t
          (throw_if_passes (not (has_status recorded p)) closed t (ap not unsettled))
      ∙ bind_commits
          (throw_if (ltb dispute_window_ms (now - p.created_at))
            (bad_request "The 72-hour dispute window has closed"))
          _ t tt t
          (throw_if_passes (ltb dispute_window_ms (now - p.created_at))
            (bad_request "The 72-hour dispute window has closed") t in_time)
      ∙ bind_commits (move_payment id recorded (to_disputed now) closed) _ t (to_disputed now p) t2
          (move_accepts id recorded (to_disputed now) closed t p there)
      ∙ bind_commits (log e) _ t2 tt (logged_in e t2) (log_lem e t2) in
    transact_commits (dispute_payment_tx now id user_id) w (to_disputed now p)
      (record { db = (moved id recorded (to_disputed now) e w).db; logged = e ∷ [] }) run

-- A resolution is accepted from the recipient of a disputed payment who is a current member of its
-- house, at any time. It moves that payment to `resolved`, and announces that.
pub resolve_payment_accepts :
    (now id user_id : ℕ) (w : World) (p : Payment)
    → Asked id user_id w.db p
    → has_status disputed p ≡ true
    → resolve_payment now id user_id w ≡ (
      ok (to_resolved now p),
      moved id disputed
          (to_resolved now)
          (event_of p.house_id user_id "payment.resolved" "payment" id)
          w,
    )
unfolding resolve_payment resolve_payment_tx
resolve_payment_accepts now id user_id w p a contested =
    let t : TxState = record { db = w.db; logged = [] } in
    let e = event_of p.house_id user_id "payment.resolved" "payment" id in
    let not_disputed = bad_request "Only a disputed payment can be resolved" in
    let asked =
      payment_for_accepts id user_id
        (forbidden "Only the payment recipient can resolve their dispute") t p a in
    let there = find-at_status id disputed w.db.payments p a.found contested in
    let t2 = record t {
      db =
          (let d = t.db in
            record d {
              payments = update_where (at_status id disputed) (to_resolved now) d.payments;
            });
    } in
    let run : resolve_payment_tx now id user_id t
        ≡ ok (
          to_resolved now p,
          record { db = (moved id disputed (to_resolved now) e w).db; logged = e ∷ [] },
        ) =
      bind_commits
        (payment_for id user_id (forbidden "Only the payment recipient can resolve their dispute"))
        _ t p t asked
      ∙ bind_commits (throw_if (not (has_status disputed p)) not_disputed) _ t tt t
          (throw_if_passes (not (has_status disputed p)) not_disputed t (ap not contested))
      ∙ bind_commits (move_payment id disputed (to_resolved now) not_disputed) _ t
          (to_resolved now p) t2 (move_accepts id disputed (to_resolved now) not_disputed t p there)
      ∙ bind_commits (log e) _ t2 tt (logged_in e t2) (log_lem e t2) in
    transact_commits (resolve_payment_tx now id user_id) w (to_resolved now p)
      (record { db = (moved id disputed (to_resolved now) e w).db; logged = e ∷ [] }) run

-- An accepted dispute was asked by the recipient of a recorded payment, a current member of its
-- house, within the window.
pub dispute_payment-eq-ok :
    (now id user_id : ℕ) (w w' : World) (q : Payment)
    → dispute_payment now id user_id w ≡ (ok q, w')
    → (p : Payment) × Asked id user_id w.db p
      × (has_status recorded p ≡ true)
      × (ltb dispute_window_ms (now - p.created_at) ≡ false)
unfolding dispute_payment dispute_payment_tx
dispute_payment-eq-ok now id user_id w w' q h =
    let (t, run, _) = transact-eq-ok (dispute_payment_tx now id user_id) w w' q h in
    let (p, t1, first, h1) =
      >>=-eq-ok (payment_for id user_id (forbidden "Only the payment recipient can dispute it")) _
        (record { db = w.db; logged = [] }) run in
    let (_, asked) =
      payment_for-eq-ok id user_id (forbidden "Only the payment recipient can dispute it")
        (record { db = w.db; logged = [] }) p t1 first in
    let (_, t2, is_recorded, h2) =
      >>=-eq-ok
        (throw_if (not (has_status recorded p))
          (bad_request "This payment is not open for dispute"))
        _ t1 h1 in
    let (_, _, in_time, _) =
      >>=-eq-ok
        (throw_if (ltb dispute_window_ms (now - p.created_at))
          (bad_request "The 72-hour dispute window has closed"))
        _ t2 h2 in
    (
      p,
      asked,
      not-not (has_status recorded p) (throw_if-eq-ok _ _ t1 is_recorded).0,
      (throw_if-eq-ok _ _ t2 in_time).0,
    )

-- An accepted resolution was asked by the recipient of a disputed payment, a current member of its
-- house.
pub resolve_payment-eq-ok :
    (now id user_id : ℕ) (w w' : World) (q : Payment)
    → resolve_payment now id user_id w ≡ (ok q, w')
    → (p : Payment) × Asked id user_id w.db p × (has_status disputed p ≡ true)
unfolding resolve_payment resolve_payment_tx
resolve_payment-eq-ok now id user_id w w' q h =
    let (t, run, _) = transact-eq-ok (resolve_payment_tx now id user_id) w w' q h in
    let refused = forbidden "Only the payment recipient can resolve their dispute" in
    let (p, t1, first, h1) =
      >>=-eq-ok (payment_for id user_id refused) _ (record { db = w.db; logged = [] }) run in
    let (_, asked) =
      payment_for-eq-ok id user_id refused (record { db = w.db; logged = [] }) p t1 first in
    let (_, _, is_disputed, _) =
      >>=-eq-ok
        (throw_if (not (has_status disputed p))
          (bad_request "Only a disputed payment can be resolved"))
        _ t1 h1 in
    (p, asked, not-not (has_status disputed p) (throw_if-eq-ok _ _ t1 is_disputed).0)
