-- ===== src/Ledger/Keeps.antt =====
-- What the shared steps of the mutations keep.
use homi_v.Prelude.{ℕ, ◌≡◌, refl, Option, String, List}
use homi_v.Prelude.Result.{Result, ok, err}
use homi_v.Db.{Error, ActivityEvent, StoredResponse}
use homi_v.Activity.{Tx, TxState, ◌>>◌, pure, log}
use homi_v.Activity.Laws.{Keeps, keeps_rules, Keeps-bind, Keeps-pure, Announced, log-Announced}
use homi_v.Activity.Unrelated.{Unrelated, log-Keeps}
use homi_v.Idempotency.Stores.{Stores, Stores-bind, Stores-end, store-Keeps}
use homi_v.Idempotency.{Options, store}
use homi_v.Ledger.{as_400, house_for, reply, throw_posting_problem_as_400}

-- `as_400` commits what its transaction commits.
pub as_400-eq-ok :
    {A : Type 0} (m : Tx A) (t : TxState) {r : A × TxState} → as_400 m t ≡ ok r → m t ≡ ok r
unfolding as_400
as_400-eq-ok {A} m t {r} h = go (m t) refl h
  where
    go :
        (x : Result Error (A × TxState))
        → m t ≡ x
        → (elim x [ ok r ↦ ok r | err e ↦ err (throw_posting_problem_as_400 e) ]) ≡ ok r
        → m t ≡ ok r
    go (ok q) e k = cc
    go (err x) e k = cc

module _ {P : TxState → Type 0} where
  pub as_400-Keeps : {A : Type 0} (m : Tx A) → Keeps P m → Keeps P (as_400 m)
  as_400-Keeps m k = record { at = λ t a t' h e. k.at t a t' h (as_400-eq-ok m t e) }

  pub house_for-Keeps : (house_id : ℕ) (c : Option String) → Keeps P (house_for house_id c)
  unfolding house_for
  house_for-Keeps house_id c = search keeps_rules

-- The end of a mutation stores its response, announces its event, and writes nothing else.
pub reply-Stores :
    (o : Options) (event : ActivityEvent) (r : StoredResponse) → Stores o (reply o event r)
unfolding reply
reply-Stores o event r =
    Stores-bind o (log event) (λ _. store o r >> pure r) (λ ks. log-Keeps event (λ t es ls h. h))
      (λ _. Stores-end o r)

pub reply-Announced :
    (base : List ActivityEvent) (o : Options) (event : ActivityEvent) (r : StoredResponse)
    → Keeps (Announced base) (reply o event r)
unfolding reply
reply-Announced base o event r =
    Keeps-bind (log event) (λ _. store o r >> pure r) (log-Announced base event)
      (λ _.
        Keeps-bind (store o r) (λ _. pure r) (store-Keeps (Announced base) o r (λ t ks h. h))
          (λ _. Keeps-pure r))

pub reply-Keeps :
    (P : TxState → Type 0) (o : Options) (event : ActivityEvent) (r : StoredResponse)
    → Unrelated P
    → Keeps P (reply o event r)
unfolding reply
reply-Keeps P o event r u =
    Keeps-bind (log event) (λ _. store o r >> pure r) (log-Keeps event u.events)
      (λ _. Keeps-bind (store o r) (λ _. pure r) (store-Keeps P o r u.keys) (λ _. Keeps-pure r))
