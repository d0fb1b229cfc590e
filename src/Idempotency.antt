-- ===== src/Idempotency.antt =====
-- apps/api/src/lib/idempotency.ts. The hash of a request is an argument (sha256 over its JSON).
pub mod Laws
pub mod Stores
use homi_v.Prelude.{
  ℕ, Bool, true, false, ◌&&◌, Option, none, some, String, List, [], ◌∷◌, ◌++◌, find, any, ◌==◌,
  str_eq, not, if◌then◌else◌,
}
use homi_v.Prelude.Result.{Result, ok, err}
use homi_v.Db.{Db, Error, conflict, unique_violation, StoredResponse, IdempotencyKey}
use homi_v.Activity.{Tx, ◌>>=◌, ◌>>◌, query, throw_if, execute, World}

pub record Options : Type 0 where
  pub key : ℕ
  pub user_id : ℕ
  pub endpoint : String
  pub request_hash : ℕ
  -- `created_at` of the stored row: the database's clock
  pub now : ℕ

abbrev pub same_key : Options → IdempotencyKey → Bool
same_key o row = row.key == o.key && row.user_id == o.user_id && str_eq row.endpoint o.endpoint

-- What the row of the key answers to a request with this hash.
unfoldable pub answer : Options → Option IdempotencyKey → Result Error (Option StoredResponse)
answer o none = ok none
answer o (some row) =
    if row.request_hash == o.request_hash
    then ok (some row.response)
    else err (conflict "Idempotency-Key was already used with a different request")

-- `findStoredResponse`
unfoldable pub find_stored_response : Db → Options → Result Error (Option StoredResponse)
find_stored_response db o = answer o (find (same_key o) db.keys)

abbrev pub key_row : Options → StoredResponse → IdempotencyKey
key_row o response = record {
  key = o.key;
  user_id = o.user_id;
  endpoint = o.endpoint;
  request_hash = o.request_hash;
  response = response;
  created_at = o.now;
}

-- `store`: an insert that the primary key (key, user, endpoint) guards.
unfoldable pub store : Options → StoredResponse → Tx (Unit {0})
store o response = do
  taken ← query (λ db. any (same_key o) db.keys)
  throw_if taken (unique_violation "idempotency_keys")
  execute (λ db. record db { keys = db.keys ++ key_row o response ∷ [] })

abbrev pub is_unique_violation : Error → Bool
is_unique_violation (unique_violation _) = true
is_unique_violation _ = false

-- The second lookup, after a lost race: what it found, or else the error that was caught.
pub replay_or_rethrow :
    Error → Result Error (Option StoredResponse) → World → Result Error StoredResponse × World
replay_or_rethrow e (err e') w = (err e', w)
replay_or_rethrow e (ok none) w = (err e, w)
replay_or_rethrow e (ok (some stored)) w = (ok stored, w)

-- The `try` and its `catch`.
unfoldable pub finish :
    Options → Result Error StoredResponse → World → Result Error StoredResponse × World
finish o (ok response) w = (ok response, w)
finish o (err e) w =
    if is_unique_violation e
    then replay_or_rethrow e (find_stored_response w.db o) w
    else (err e, w)

-- What follows the first lookup. `meanwhile` is what other requests commit between the lookup and
-- the execution.
unfoldable pub proceed :
    Options
    → (World → Result Error StoredResponse × World)
    → (World → World)
    → World
    → Result Error (Option StoredResponse)
    → Result Error StoredResponse × World
proceed o run meanwhile w (err e) = (err e, w)
proceed o run meanwhile w (ok (some replayed)) = (ok replayed, w)
proceed o run meanwhile w (ok none) = let (r, w') = run (meanwhile w) in finish o r w'

-- `withIdempotency`
unfoldable pub with_idempotency :
    Options
    → (World → Result Error StoredResponse × World)
    → (World → World)
    → World
    → Result Error StoredResponse × World
with_idempotency o run meanwhile w = proceed o run meanwhile w (find_stored_response w.db o)
