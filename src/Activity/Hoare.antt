-- ===== src/Activity/Hoare.antt =====
-- What a transaction ensures when it commits.
use homi_v.Prelude.{◌≡◌}
use homi_v.Prelude.Result.{ok}
use homi_v.Activity.{TxState, Tx, ◌>>=◌}
use homi_v.Activity.Laws.{>>=-eq-ok, Keeps}

pub record Ensures {A : Type 0} (P : TxState → Type 0) (m : Tx A) (Q : A → TxState → Type 0)
    : Type 0 where
  pub after : (t : TxState) (a : A) (t' : TxState) → P t → m t ≡ ok (a, t') → Q a t'

module _ {A : Type 0} {P : TxState → Type 0} where
  pub Ensures-Keeps : (m : Tx A) → Keeps P m → Ensures P m (λ _. P)
  Ensures-Keeps m k = record { after = λ t a t' h e. k.at t a t' h e }

  pub Keeps-Ensures : (m : Tx A) → Ensures P m (λ _. P) → Keeps P m
  Keeps-Ensures m k = record { at = λ t a t' h e. k.after t a t' h e }

module _ {A B : Type 0} {P : TxState → Type 0} {Q : B → TxState → Type 0} where
  pub Ensures-bind :
      (R : A → TxState → Type 0) (m : Tx A) (f : A → Tx B)
      → Ensures P m R
      → ((a : A) → Ensures (R a) (f a) Q)
      → Ensures P (m >>= f) Q
  Ensures-bind R m f km kf = record {
    after = λ t b t' h e.
        let (a, t1, first, second) = >>=-eq-ok m f t e in
        (kf a).after t1 b t' (km.after t a t1 h first) second;
  }

  -- The first transaction keeps what holds, whatever it returns.
  pub Ensures-then :
      (m : Tx A) (f : A → Tx B) → Keeps P m → ((a : A) → Ensures P (f a) Q) → Ensures P (m >>= f) Q
  Ensures-then m f km kf = Ensures-bind (λ _. P) m f (Ensures-Keeps m km) kf
