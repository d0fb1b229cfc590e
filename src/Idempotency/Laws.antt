-- ===== src/Idempotency/Laws.antt =====
-- A key is executed at most once, and every retry is answered with the first response.
use homi_v.Prelude.{
  ◌≡◌, ◌≢◌, refl, sym, ap, subst, ◌∙◌, Bool, true, false, Option, none, some, find, arith,
  if◌then◌else◌, Bool-cases, inl, inr, ℕ,
}
use homi_v.Prelude.Result.{Result, ok, err}
use homi_v.Db.{Db, Error, conflict, StoredResponse, IdempotencyKey}
use homi_v.Activity.{Tx, World, transact}
use homi_v.Activity.Laws.{transact-eq-ok, transact-eq-err}
use homi_v.Idempotency.{
  Options, same_key, answer, find_stored_response, is_unique_violation, replay_or_rethrow, finish,
  proceed, with_idempotency,
}
use homi_v.Idempotency.Stores.{Stores}

-- Once a response is stored, a retry is answered with it and changes nothing, whatever the mutation
-- would do now.
pub with_idempotency_replays :
    (o : Options) (run : World → Result Error StoredResponse × World) (meanwhile : World → World)
    (w : World) (r : StoredResponse)
    → find_stored_response w.db o ≡ ok (some r)
    → with_idempotency o run meanwhile w ≡ (ok r, w)
unfolding with_idempotency proceed
with_idempotency_replays o run meanwhile w r h = ap (proceed o run meanwhile w) h

other_request :
    (o : Options) (hash at : ℕ) (found : Option IdempotencyKey) (r : StoredResponse)
    → hash ≢ o.request_hash
    → answer o found ≡ ok (some r)
    → answer (record o { request_hash = hash; now = at }) found
      ≡ err (conflict "Idempotency-Key was already used with a different request")
unfolding answer
other_request o hash at none r ne h = cc
other_request o hash at (some row) r ne h = ground arith

-- A key that has a response to one request refuses another request.
pub with_idempotency_conflict :
    (o : Options) (hash at : ℕ) (run : World → Result Error StoredResponse × World)
    (meanwhile : World → World) (w : World) (r : StoredResponse)
    → hash ≢ o.request_hash
    → find_stored_response w.db o ≡ ok (some r)
    → with_idempotency (record o { request_hash = hash; now = at }) run meanwhile w
      ≡ (err (conflict "Idempotency-Key was already used with a different request"), w)
unfolding with_idempotency proceed find_stored_response
with_idempotency_conflict o hash at run meanwhile w r ne h =
    ap (proceed (record o { request_hash = hash; now = at }) run meanwhile w)
      (other_request o hash at (find (same_key o) w.db.keys) r ne h)

replay-eq-ok :
    (e : Error) (f : Result Error (Option StoredResponse)) (w w' : World) (r : StoredResponse)
    → replay_or_rethrow e f w ≡ (ok r, w')
    → (f ≡ ok (some r)) × (w' ≡ w)
unfolding replay_or_rethrow
replay-eq-ok e (err x) w w' r h = cc
replay-eq-ok e (ok none) w w' r h = cc
replay-eq-ok e (ok (some s)) w w' r h = (cc, cc)

settled_world :
    (P : StoredResponse → World → Type 0) (q r : StoredResponse) (w w' : World)
    → ◌≡◌ {A = Result Error StoredResponse × World} (ok q, w) (ok r, w')
    → P q w
    → P r w'
settled_world P q r w w' e h =
    let same_r : q ≡ r = cc in
    let same_w : w ≡ w' = cc in subst (λ x. P r x) same_w (subst (λ x. P x w) same_r h)

no_ok :
    (x : Error) (r : StoredResponse) (w w' : World)
    → ◌≢◌ {A = Result Error StoredResponse × World} (err x, w) (ok r, w')
no_ok x r w w' h = cc

if_both :
    (b : Bool) (x y : Result Error StoredResponse × World) (w : World)
    → x.1 ≡ w
    → y.1 ≡ w
    → (if b then x else y).1 ≡ w
if_both true x y w h k = h
if_both false x y w h k = k

replay-world :
    (e : Error) (f : Result Error (Option StoredResponse)) (w : World)
    → (replay_or_rethrow e f w).1 ≡ w
unfolding replay_or_rethrow
replay-world e (err x) w = refl
replay-world e (ok none) w = refl
replay-world e (ok (some q)) w = refl

found_in :
    (o : Options) (r : StoredResponse) (d d' : Db)
    → d ≡ d'
    → find_stored_response d' o ≡ ok (some r)
    → find_stored_response d o ≡ ok (some r)
found_in o r d d' e h = ap (λ x. find_stored_response x o) e ∙ h

module _ (o : Options) (m : Tx StoredResponse) (s : Stores o m) where
  finish-stored :
      (x : Result Error StoredResponse) (v w w' : World) (r : StoredResponse)
      → transact m v ≡ (x, w)
      → finish o x w ≡ (ok r, w')
      → find_stored_response w'.db o ≡ ok (some r)
  unfolding finish
  finish-stored (ok q) v w w' r e h =
      let (t, ran, same) = transact-eq-ok m v w q e in
      settled_world (λ a b. find_stored_response b.db o ≡ ok (some a)) q r w w' h
        (found_in o q w.db t.db same (s.stored _ q t ran))
  finish-stored (err x) v w w' r e h = elim (Bool-cases (is_unique_violation x)) [
    | inl lost ↦
        let (found, same) = replay-eq-ok x (find_stored_response w.db o) w w' r (rw lost at h) in
        found_in o r w'.db w.db (ap (λ b. b.db) same) found
    | inr other ↦ absurd (no_ok x r w w' (rw other at h))
  ]

  proceed-stored :
      (f : Result Error (Option StoredResponse)) (meanwhile : World → World) (w w' : World)
      (r : StoredResponse)
      → find_stored_response w.db o ≡ f
      → proceed o (transact m) meanwhile w f ≡ (ok r, w')
      → find_stored_response w'.db o ≡ ok (some r)
  unfolding proceed
  proceed-stored (err x) meanwhile w w' r e h = absurd (no_ok x r w w' h)
  proceed-stored (ok (some q)) meanwhile w w' r e h =
      settled_world (λ a b. find_stored_response b.db o ≡ ok (some a)) q r w w' h e
  proceed-stored (ok none) meanwhile w w' r e h =
      finish-stored (transact m (meanwhile w)).0 (meanwhile w) (transact m (meanwhile w)).1 w' r
        refl h

  -- Whatever other requests commit in between, the response that a caller gets is the one that
  -- the key has in the table.
  pub with_idempotency-stored :
      (meanwhile : World → World) (w w' : World) (r : StoredResponse)
      → with_idempotency o (transact m) meanwhile w ≡ (ok r, w')
      → find_stored_response w'.db o ≡ ok (some r)
  unfolding with_idempotency
  with_idempotency-stored meanwhile w w' r h =
      proceed-stored (find_stored_response w.db o) meanwhile w w' r refl h

  -- For a mutation that stores its response before it commits: once a call has answered, whatever
  -- others committed during it, each later call with the same key and request has the same response,
  -- whatever it would execute, and leaves the world as it is.
  pub with_idempotency_retry :
      (meanwhile : World → World) (w w' : World) (r : StoredResponse)
      → with_idempotency o (transact m) meanwhile w ≡ (ok r, w')
      → (run : World → Result Error StoredResponse × World) (later : World → World)
      → with_idempotency o run later w' ≡ (ok r, w')
  with_idempotency_retry meanwhile w w' r h run later =
      with_idempotency_replays o run later w' r (with_idempotency-stored meanwhile w w' r h)

  finish-loses :
      (x : Result Error StoredResponse) (v w : World) (q : StoredResponse)
      → transact m v ≡ (x, w)
      → find_stored_response v.db o ≡ ok (some q)
      → (finish o x w).1 ≡ v
  unfolding finish
  finish-loses (ok r) v w q e found =
      let (t, ran, same) = transact-eq-ok m v w r e in absurd (s.once _ q r t found ran)
  finish-loses (err x) v w q e found =
      if_both (is_unique_violation x) (replay_or_rethrow x (find_stored_response w.db o) w)
        (err x, w) w (replay-world x (find_stored_response w.db o) w) refl
      ∙ transact-eq-err m v w x e

  -- For a mutation that stores its response before it commits: if a call finds no response, and its
  -- twin commits before it executes, then it adds nothing to what was committed meanwhile.
  pub with_idempotency_race :
      (meanwhile : World → World) (w : World) (q : StoredResponse)
      → find_stored_response w.db o ≡ ok none
      → find_stored_response (meanwhile w).db o ≡ ok (some q)
      → (with_idempotency o (transact m) meanwhile w).1 ≡ meanwhile w
  unfolding with_idempotency proceed
  with_idempotency_race meanwhile w q none_yet stored_meanwhile =
      ap (λ f. (proceed o (transact m) meanwhile w f).1) none_yet
      ∙ finish-loses (transact m (meanwhile w)).0 (meanwhile w) (transact m (meanwhile w)).1 q refl
          stored_meanwhile

-- A property of the world that the transactions keep is kept by the calls that guard them.
pub with_idempotency_keeps :
    (P : World → Type 0) (o : Options) (run : World → Result Error StoredResponse × World)
    (meanwhile : World → World) (w : World)
    → ((v : World) → P v → P (run v).1)
    → P w
    → P (meanwhile w)
    → P (with_idempotency o run meanwhile w).1
unfolding with_idempotency finish proceed
with_idempotency_keeps P o run meanwhile w k h hm = go (find_stored_response w.db o)
  where
    finished : (r : Result Error StoredResponse) (v : World) → P v → P (finish o r v).1
    finished (ok r) v p = p
    finished (err e) v p =
        subst P
          (sym (
            if_both (is_unique_violation e) (replay_or_rethrow e (find_stored_response v.db o) v)
              (err e, v) v (replay-world e (find_stored_response v.db o) v) refl))
          p

    go : (f : Result Error (Option StoredResponse)) → P (proceed o run meanwhile w f).1
    go (err e) = h
    go (ok (some r)) = h
    go (ok none) = finished (run (meanwhile w)).0 (run (meanwhile w)).1 (k (meanwhile w) hm)
