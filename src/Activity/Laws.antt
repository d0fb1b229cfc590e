-- ===== src/Activity/Laws.antt =====
-- Reading a transaction's result back, and what a transaction keeps.
use mathlib.Core.List.{append_assoc, append-nil}
use homi_v.Prelude.{
  ◌≡◌, refl, sym, ap, ◌∙◌, Bool, true, false, Option, none, some, List, [], ◌∷◌, ◌++◌, map, subst,
  if◌then◌else◌,
}
use homi_v.Prelude.Result.{Result, ok, err}
use homi_v.Db.{Db, Error, ActivityEvent}
use homi_v.Activity.{
  TxState, Tx, ◌>>=◌, pure, throw, throw_if, query, or_throw, lift, execute, log, World, hint_of,
  transact, settle,
}

module _ {A B : Type 0} (m : Tx A) (f : A → Tx B) where
  pub >>=-eq-ok :
      (t : TxState) {r : B × TxState}
      → (m >>= f) t ≡ ok r
      → (a : A) × (t' : TxState) × (m t ≡ ok (a, t')) × (f a t' ≡ ok r)
  >>=-eq-ok t {r} h = go (m t) refl h
    where
      go :
          (x : Result Error (A × TxState))
          → m t ≡ x
          → (elim x [ err e ↦ err e | ok (a, t') ↦ f a t' ]) ≡ ok r
          → (a : A) × (t' : TxState) × (m t ≡ ok (a, t')) × (f a t' ≡ ok r)
      go (ok (a, t')) e k = (a, t', e, k)
      go (err x) e k = cc

pub throw_if-eq-ok :
    (b : Bool) (e : Error) (t : TxState) {r : Unit {0} × TxState}
    → throw_if b e t ≡ ok r
    → (b ≡ false) × (r.1 ≡ t)
throw_if-eq-ok true e t h = cc
throw_if-eq-ok false e t h = (refl, cc)

pub or_throw-eq-ok :
    {A : Type 0} (o : Option A) (e : Error) (t : TxState) {a : A} {t' : TxState}
    → or_throw o e t ≡ ok (a, t')
    → (o ≡ some a) × (t' ≡ t)
or_throw-eq-ok none e t h = cc
or_throw-eq-ok (some x) e t h = (cc, cc)

pub lift-eq-ok :
    {A : Type 0} (m : Result Error A) (t : TxState) {a : A} {t' : TxState}
    → lift m t ≡ ok (a, t')
    → (m ≡ ok a) × (t' ≡ t)
lift-eq-ok (ok x) t h = (cc, cc)
lift-eq-ok (err e) t h = cc

-- A transaction that commits from a state with `P` commits to a state with `P`.
pub record Keeps {A : Type 0} (P : TxState → Type 0) (m : Tx A) : Type 0 where
  pub at : (t : TxState) (a : A) (t' : TxState) → P t → m t ≡ ok (a, t') → P t'

ok-state :
    {A : Type 0} (t t' : TxState) (a b : A)
    → ◌≡◌ {A = Result Error (A × TxState)} (ok (a, t)) (ok (b, t'))
    → t ≡ t'
ok-state t t' a b e = cc

module _ {A : Type 0} {P : TxState → Type 0} where
  pub Keeps-pure : (a : A) → Keeps P (pure a)
  Keeps-pure a = record { at = λ t b t' h e. subst P (ok-state t t' a b e) h }

  pub Keeps-throw : (x : Error) → Keeps P (throw {A = A} x)
  Keeps-throw x = record { at = λ t b t' h e. cc }

  pub Keeps-query : (f : Db → A) → Keeps P (query f)
  Keeps-query f = record { at = λ t b t' h e. subst P (ok-state t t' (f t.db) b e) h }

  pub Keeps-or_throw : (o : Option A) (x : Error) → Keeps P (or_throw o x)
  Keeps-or_throw none x = record { at = λ t b t' h e. cc }
  Keeps-or_throw (some a) x = record { at = λ t b t' h e. subst P (ok-state t t' a b e) h }

  pub Keeps-lift : (r : Result Error A) → Keeps P (lift r)
  Keeps-lift (err x) = record { at = λ t b t' h e. cc }
  Keeps-lift (ok a) = record { at = λ t b t' h e. subst P (ok-state t t' a b e) h }

  pub Keeps-if : (b : Bool) (m n : Tx A) → Keeps P m → Keeps P n → Keeps P (if b then m else n)
  Keeps-if true m n km kn = km
  Keeps-if false m n km kn = kn

module _ {P : TxState → Type 0} where
  pub Keeps-throw_if : (b : Bool) (x : Error) → Keeps P (throw_if b x)
  Keeps-throw_if true x = record { at = λ t b t' h e. cc }
  Keeps-throw_if false x = record { at = λ t b t' h e. subst P (ok-state t t' tt b e) h }

  -- A statement keeps what holds of the tables that it leaves.
  pub Keeps-execute :
      (f : Db → Db) → ((t : TxState) → P t → P (record t { db = f t.db })) → Keeps P (execute f)
  Keeps-execute f k = record {
    at = λ t b t' h e. subst P (ok-state (record t { db = f t.db }) t' tt b e) (k t h);
  }

module _ {A B : Type 0} {P : TxState → Type 0} where
  pub Keeps-bind :
      (m : Tx A) (f : A → Tx B) → Keeps P m → ((a : A) → Keeps P (f a)) → Keeps P (m >>= f)
  Keeps-bind m f km kf = record {
    at = λ t b t' h e.
        let (a, t1, first, second) = >>=-eq-ok m f t e in
        (kf a).at t1 b t' (km.at t a t1 h first) second;
  }

pub ruleset keeps_rules = (
  Keeps-pure, Keeps-throw, Keeps-query, Keeps-or_throw, Keeps-lift, Keeps-if, Keeps-throw_if,
  Keeps-bind,
)

-- The transaction reads, and writes nothing.
abbrev pub ReadsOnly : {A : Type 0} → Tx A → Type 0
ReadsOnly m = (t0 : TxState) → Keeps (λ t. t ≡ t0) m

-- The feed has grown by the events logged, and by nothing else.
abbrev pub Announced : List ActivityEvent → TxState → Type 0
Announced base t = t.db.events ≡ base ++ t.logged

pub log-Announced : (base : List ActivityEvent) (e : ActivityEvent) → Keeps (Announced base) (log e)
unfolding log
log-Announced base e = record {
  at = λ t b t' h k.
      subst (Announced base) (ok-state _ t' tt b k)
        (ap (λ es. es ++ e ∷ []) h ∙ append_assoc base t.logged (e ∷ []));
}

-- What a call may do to the feed and to the hints.
abbrev pub Publishes : {A : Type 0} → World → Result Error A × World → Type 0
Publishes w (err _, w') = w' ≡ w
Publishes w (ok _, w') =
    (added : List ActivityEvent) × (w'.db.events ≡ w.db.events ++ added)
    × (w'.published ≡ w.published ++ map hint_of added)

-- If a mutation adds to the feed only what it logs, then a failed call leaves the world as it was, and
-- a committed call announces exactly the events that it adds to the feed, in their order.
pub transact-Publishes :
    {A : Type 0} (m : Tx A) (w : World)
    → Keeps (Announced w.db.events) m
    → Publishes w (transact m w)
unfolding transact
transact-Publishes {A} m w k = go (m (record { db = w.db; logged = [] })) refl
  where
    go :
        (x : Result Error (A × TxState))
        → m (record { db = w.db; logged = [] }) ≡ x
        → Publishes {A = A} w (settle w x)
    go (err e) h = refl
    go (ok (a, t)) h = (
      t.logged,
      k.at (record { db = w.db; logged = [] }) a t (sym (append-nil w.db.events)) h,
      refl,
    )

pub transact-eq-ok :
    {A : Type 0} (m : Tx A) (w w' : World) (a : A)
    → transact m w ≡ (ok a, w')
    → (t : TxState) × (m (record { db = w.db; logged = [] }) ≡ ok (a, t)) × (w'.db ≡ t.db)
unfolding transact
transact-eq-ok {A} m w w' a h = go (m (record { db = w.db; logged = [] })) refl h
  where
    go :
        (x : Result Error (A × TxState))
        → m (record { db = w.db; logged = [] }) ≡ x
        → ◌≡◌ {A = Result Error A × World} (settle w x) (ok a, w')
        → (t : TxState) × (m (record { db = w.db; logged = [] }) ≡ ok (a, t)) × (w'.db ≡ t.db)
    go (err e) h k = cc
    go (ok (b, t)) h k = (t, cc, cc)

-- A transaction that throws leaves the world as it was.
pub transact-eq-err :
    {A : Type 0} (m : Tx A) (w w' : World) (e : Error) → transact m w ≡ (err e, w') → w' ≡ w
unfolding transact
transact-eq-err {A} m w w' e h = go (m (record { db = w.db; logged = [] })) h
  where
    go :
        (x : Result Error (A × TxState))
        → ◌≡◌ {A = Result Error A × World} (settle w x) (err e, w')
        → w' ≡ w
    go (err x) k = cc
    go (ok (b, t)) k = cc

-- A transaction that commits does so with its last tables, and its hints go out.
pub transact_commits :
    {A : Type 0} (m : Tx A) (w : World) (a : A) (t : TxState)
    → m (record { db = w.db; logged = [] }) ≡ ok (a, t)
    → transact m w ≡ (ok a, record { db = t.db; published = w.published ++ map hint_of t.logged })
unfolding transact
transact_commits m w a t h = ap (settle w) h

pub log_lem :
    (e : ActivityEvent) (t : TxState)
    → log e t
      ≡ ok (
        tt,
        record {
          db = (let d = t.db in record d { events = d.events ++ e ∷ [] });
          logged = t.logged ++ e ∷ [];
        },
      )
unfolding log
log_lem e t = refl

pub bind_commits :
    {A B : Type 0} (m : Tx A) (f : A → Tx B) (t : TxState) (a : A) (t' : TxState)
    → m t ≡ ok (a, t')
    → (m >>= f) t ≡ f a t'
bind_commits {A} {B} m f t a t' h = ap go h
  where
    go : Result Error (A × TxState) → Result Error (B × TxState)
    go x = elim x [ err e ↦ err e | ok (a, t') ↦ f a t' ]

pub throw_if_passes : (b : Bool) (e : Error) (t : TxState) → b ≡ false → throw_if b e t ≡ ok (tt, t)
throw_if_passes b e t h = rw h refl

-- What is true of the tables whatever the log, and kept, is true of them afterwards.
pub transact-Keeps :
    {A : Type 0} (P : TxState → Type 0) (m : Tx A) (w : World)
    → ((d : Db) (l l' : List ActivityEvent)
        → P (record { db = d; logged = l })
        → P (record { db = d; logged = l' }))
    → Keeps P m
    → P (record { db = w.db; logged = [] })
    → P (record { db = (transact m w).1.db; logged = [] })
unfolding transact
transact-Keeps {A} P m w u k h = go (m (record { db = w.db; logged = [] })) refl
  where
    go :
        (x : Result Error (A × TxState))
        → m (record { db = w.db; logged = [] }) ≡ x
        → P (record { db = (settle w x).1.db; logged = [] })
    go (err e) q = h
    go (ok (a, t)) q = u t.db t.logged [] (k.at (record { db = w.db; logged = [] }) a t h q)
