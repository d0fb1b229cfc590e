-- ===== src/Activity.antt =====
-- apps/api/src/activity: mutations run in one transaction each, and their hints go out after the
-- commit. A transaction that throws leaves no trace, so that its state is returned only on success.
pub mod Laws
pub mod Unrelated
pub mod Hoare
use homi_v.Prelude.{ℕ, Bool, true, false, Option, none, some, String, List, [], ◌∷◌, ◌++◌, map}
use homi_v.Prelude.Result.{Result, ok, err}
use homi_v.Db.{Db, Error, ActivityEvent}

-- A hint on the channel of a house; its time stamp is left out.
pub record Hint : Type 0 where
  pub house_id : ℕ
  pub type_ : String
  pub entity_type : String
  pub entity_id : ℕ

-- The tables as the open transaction sees them, and the events that it has logged.
pub record TxState : Type 0 where
  pub db : Db
  pub logged : List ActivityEvent

abbrev pub Tx : Type 0 → Type 0
Tx A = TxState → Result Error (A × TxState)

infixl 5 ◌>>=◌ ◌>>◌
abbrev pub ◌>>=◌ : {A B : Type 0} → Tx A → (A → Tx B) → Tx B
◌>>=◌ m f t = elim (m t) [ err e ↦ err e | ok (a, t') ↦ f a t' ]

abbrev pub ◌>>◌ : {B : Type 0} → Tx (Unit {0}) → Tx B → Tx B
m >> k = m >>= λ _. k

module _ {A : Type 0} where
  abbrev pub pure : A → Tx A
  pure a t = ok (a, t)

  abbrev pub throw : Error → Tx A
  throw e t = err e

  -- A query reads the tables.
  abbrev pub query : (Db → A) → Tx A
  query f t = ok (f t.db, t)

  abbrev pub or_throw : Option A → Error → Tx A
  or_throw none e t = err e
  or_throw (some a) e t = ok (a, t)

  abbrev pub lift : Result Error A → Tx A
  lift (err e) t = err e
  lift (ok a) t = ok (a, t)

abbrev pub throw_if : Bool → Error → Tx (Unit {0})
throw_if true e t = err e
throw_if false e t = ok (tt, t)

-- A statement that writes.
abbrev pub execute : (Db → Db) → Tx (Unit {0})
execute f t = ok (tt, record t { db = f t.db })

-- `log`: the feed row, and the event to announce.
unfoldable pub log : ActivityEvent → Tx (Unit {0})
log event t = ok (
  tt,
  record {
    db = (let d = t.db in record d { events = d.events ++ event ∷ [] });
    logged = t.logged ++ event ∷ [];
  },
)

pub record World : Type 0 where
  pub db : Db
  pub published : List Hint

abbrev pub hint_of : ActivityEvent → Hint
hint_of e = record {
  house_id = e.house_id;
  type_ = e.type_;
  entity_type = e.entity_type;
  entity_id = e.entity_id;
}

-- How a transaction ends: a rollback, or a commit and then the announcements.
abbrev pub settle : {A : Type 0} → World → Result Error (A × TxState) → Result Error A × World
settle w (err e) = (err e, w)
settle w (ok (a, t)) = (ok a, record { db = t.db; published = w.published ++ map hint_of t.logged })

-- `ActivityService.transact`
unfoldable pub transact : {A : Type 0} → Tx A → World → Result Error A × World
transact fn w = settle w (fn (record { db = w.db; logged = [] }))
