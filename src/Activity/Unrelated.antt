-- ===== src/Activity/Unrelated.antt =====
-- What says nothing of the feed, nor of the keys, is kept by `log`.
use homi_v.Prelude.{◌≡◌, List, [], ◌∷◌, ◌++◌, subst}
use homi_v.Prelude.Result.{Result, ok}
use homi_v.Db.{Error, ActivityEvent, IdempotencyKey}
use homi_v.Activity.{TxState, log}
use homi_v.Activity.Laws.{Keeps}

pub record Unrelated (P : TxState → Type 0) : Type 0 where
  pub events :
      (t : TxState) (es ls : List ActivityEvent)
      → P t
      → P (record { db = (let d = t.db in record d { events = es }); logged = ls })
  pub keys :
      (t : TxState) (ks : List IdempotencyKey)
      → P t
      → P (record t { db = (let d = t.db in record d { keys = ks }) })

committed :
    {A : Type 0} (P : TxState → Type 0) (a b : A) (t t' : TxState)
    → ◌≡◌ {A = Result Error (A × TxState)} (ok (a, t)) (ok (b, t'))
    → P t
    → P t'
committed P a b t t' e h = let same : t ≡ t' = cc in subst P same h

pub log-Keeps :
    {P : TxState → Type 0} (e : ActivityEvent)
    → ((t : TxState) (es ls : List ActivityEvent)
        → P t
        → P (record { db = (let d = t.db in record d { events = es }); logged = ls }))
    → Keeps P (log e)
unfolding log
log-Keeps {P} e u = record {
  at = λ t a t' h k.
      committed P tt a
        (record {
          db = (let d = t.db in record d { events = d.events ++ e ∷ [] });
          logged = t.logged ++ e ∷ [];
        })
        t' k (u t (t.db.events ++ e ∷ []) (t.logged ++ e ∷ []) h);
}
