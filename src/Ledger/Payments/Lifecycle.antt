-- ===== src/Ledger/Payments/Lifecycle.antt =====
-- What the payment mutations store, announce and do to the payments.
use homi_v.Prelude.{
  ℕ, ◌≡◌, refl, sym, subst, false, Option, none, String, List, [], ◌∷◌, ◌++◌, arith, ◌==◌, All,
}
use homi_v.Prelude.Result.{ok}
use homi_v.Money.Balances.{PaymentStatus, recorded, disputed, resolved}
use homi_v.Db.{Payment, StoredResponse, ActivityEvent, payment_body}
use homi_v.Activity.{TxState}
use homi_v.Activity.Laws.{Keeps, Keeps-bind, Announced}
use homi_v.Activity.Unrelated.{Unrelated}
use homi_v.Idempotency.{Options}
use homi_v.Idempotency.Stores.{Stores, Stores-bind, KeysAre}
use homi_v.Posting.{lock_acting_member, Env, is_null}
use homi_v.Posting.Insert.{lock_acting_member-Keeps}
use homi_v.Ledger.{as_400, currency_or, event_of, reply}
use homi_v.Ledger.Books.{All-append}
use homi_v.Ledger.Keeps.{as_400-Keeps, house_for-Keeps, reply-Stores, reply-Announced, reply-Keeps}
use homi_v.Ledger.Payments.{PaymentInput, recorded_payment, insert_payment, record_payment_tx}

-- A payment moves a positive amount between two people, and its time stamps are those of its status.
abbrev pub IsStamped : PaymentStatus → Option ℕ → Option ℕ → Type 0
IsStamped recorded disputed_at resolved_at = (disputed_at ≡ none) × (resolved_at ≡ none)
IsStamped disputed disputed_at resolved_at = (is_null disputed_at ≡ false) × (resolved_at ≡ none)
IsStamped resolved disputed_at resolved_at =
    (is_null disputed_at ≡ false) × (is_null resolved_at ≡ false)

pub record IsPayment (p : Payment) : Type 0 where
  pub positive : (p.amount_cents == 0) ≡ false
  pub between_two : (p.from_user == p.to_user) ≡ false
  pub stamped : IsStamped p.status p.disputed_at p.resolved_at

abbrev pub PaymentsOf : TxState → Type 0
PaymentsOf t = All IsPayment t.db.payments

insert_payment-state :
    (env : Env) (house_id user_id : ℕ) (input : PaymentInput) (c : String) (t t' : TxState)
    (p : Payment)
    → insert_payment env house_id user_id input c t ≡ ok (p, t')
    → ((input.amount_cents == 0) ≡ false)
      × ((user_id == input.to_user) ≡ false)
      × (t' ≡ record t {
        db =
            (let d = t.db in
              record d {
                payments = d.payments ++ recorded_payment env house_id user_id input c ∷ [];
              });
      })
unfolding insert_payment
insert_payment-state env house_id user_id input c t t' p h =
    (ground arith, ground arith, ground arith)

insert_payment-Keeps :
    (P : TxState → Type 0) (env : Env) (house_id user_id : ℕ) (input : PaymentInput) (c : String)
    → ((t : TxState) (ps : List Payment)
        → P t
        → P (record t { db = (let d = t.db in record d { payments = ps }) }))
    → Keeps P (insert_payment env house_id user_id input c)
insert_payment-Keeps P env house_id user_id input c u = record {
  at = λ t a t' h k.
      let (_, _, state) = insert_payment-state env house_id user_id input c t t' a k in
      subst P (sym state)
        (u t (t.db.payments ++ recorded_payment env house_id user_id input c ∷ []) h);
}

insert_payment-PaymentsOf :
    (env : Env) (house_id user_id : ℕ) (input : PaymentInput) (c : String)
    → Keeps PaymentsOf (insert_payment env house_id user_id input c)
insert_payment-PaymentsOf env house_id user_id input c = record {
  at = λ t a t' h k.
      let (positive, two, state) = insert_payment-state env house_id user_id input c t t' a k in
      let new = recorded_payment env house_id user_id input c in
      let good : IsPayment new = record {
        positive = positive;
        between_two = two;
        stamped = (refl, refl);
      } in
      subst PaymentsOf (sym state) (All-append IsPayment t.db.payments (new ∷ []) h (good, tt));
}

abbrev recorded_body : Payment → StoredResponse
recorded_body p = record { status = 201; body = payment_body p }

pub record_payment_tx-Stores :
    (o : Options) (env : Env) (house_id user_id : ℕ) (input : PaymentInput)
    → Stores o (record_payment_tx o env house_id user_id input)
unfolding record_payment_tx
record_payment_tx-Stores o env house_id user_id input =
    Stores-bind o _ _ (λ ks. house_for-Keeps house_id input.currency)
      (λ house.
        Stores-bind o (as_400 (lock_acting_member house_id input.to_user)) _
          (λ ks. as_400-Keeps _ (lock_acting_member-Keeps house_id input.to_user))
          (λ _.
            Stores-bind o
              (insert_payment env house_id user_id input (currency_or input.currency house)) _
              (λ ks.
                insert_payment-Keeps (KeysAre ks) env house_id user_id input
                  (currency_or input.currency house) (λ t ps h. h))
              (λ p.
                reply-Stores o (event_of house_id user_id "payment.recorded" "payment" p.id)
                  (recorded_body p))))

record_payment_tx-Keeps :
    (P : TxState → Type 0) (o : Options) (env : Env) (house_id user_id : ℕ) (input : PaymentInput)
    → ((house_id user_id : ℕ) (c : String) → Keeps P (insert_payment env house_id user_id input c))
    → ((e : ActivityEvent) (r : StoredResponse) → Keeps P (reply o e r))
    → Keeps P (record_payment_tx o env house_id user_id input)
unfolding record_payment_tx
record_payment_tx-Keeps P o env house_id user_id input ki kr =
    Keeps-bind _ _ (house_for-Keeps house_id input.currency) (λ house.
      Keeps-bind _ _ (as_400-Keeps _ (lock_acting_member-Keeps house_id input.to_user)) (λ _.
        Keeps-bind _ _ (ki house_id user_id (currency_or input.currency house)) (λ p.
          kr (event_of house_id user_id "payment.recorded" "payment" p.id) (recorded_body p))))

module _ (o : Options) (env : Env) (house_id user_id : ℕ) (input : PaymentInput) where
  pub record_payment_tx-Announced :
      (base : List ActivityEvent)
      → Keeps (Announced base) (record_payment_tx o env house_id user_id input)
  record_payment_tx-Announced base =
      record_payment_tx-Keeps (Announced base) o env house_id user_id input
        (λ i j c. insert_payment-Keeps (Announced base) env i j input c (λ t ps h. h))
        (reply-Announced base o)

  pub record_payment_tx-PaymentsOf :
      Keeps PaymentsOf (record_payment_tx o env house_id user_id input)
  record_payment_tx-PaymentsOf =
      record_payment_tx-Keeps PaymentsOf o env house_id user_id input
        (λ i j c. insert_payment-PaymentsOf env i j input c)
        (λ e r.
          reply-Keeps PaymentsOf o e r (record { events = λ t es ls h. h; keys = λ t ks h. h }))

  pub record_payment_tx_unrelated :
      (P : TxState → Type 0)
      → Unrelated P
      → ((t : TxState) (ps : List Payment)
          → P t
          → P (record t { db = (let d = t.db in record d { payments = ps }) }))
      → Keeps P (record_payment_tx o env house_id user_id input)
  record_payment_tx_unrelated P u v =
      record_payment_tx-Keeps P o env house_id user_id input
        (λ i j c. insert_payment-Keeps P env i j input c v) (λ e r. reply-Keeps P o e r u)
