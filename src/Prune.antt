-- ===== src/Prune.antt =====
-- pruneIdempotencyKeys of apps/worker/src/prune/prune-idempotency-keys.ts. The keys that a pass
-- deletes are the first expired ones of the table; the number of days is a natural number.
pub mod Done
pub mod Examples
use homi_v.Prelude.{
  ℕ, zero, suc, ◌+◌, ◌-◌, ◌*◌, Bool, true, false, Option, none, some, String, List, [], ◌∷◌, ltb,
  if◌then◌else◌,
}
use homi_v.Prelude.Result.{Result, ok, err}
use homi_v.Db.{Db, IdempotencyKey}

abbrev pub default_retention_days : ℕ
default_retention_days = 30

abbrev pub batch : ℕ
batch = 5000

abbrev pub is_expired : ℕ → IdempotencyKey → Bool
is_expired cutoff k = ltb k.created_at cutoff

-- The statement: the number of deleted rows, at most `limit`, and the rows that stay.
unfoldable pub delete_batch : ℕ → ℕ → List IdempotencyKey → ℕ × List IdempotencyKey
delete_batch cutoff limit [] = (0, [])
delete_batch cutoff zero (k ∷ keys) = (0, k ∷ keys)
delete_batch cutoff (suc limit) (k ∷ keys) =
    let rest = delete_batch cutoff (if is_expired cutoff k then limit else suc limit) keys in
    if is_expired cutoff k then (suc rest.0, rest.1) else (rest.0, k ∷ rest.1)

-- The loop, for as many passes as are given; `none` when they are used up.
unfoldable pub prune_passes : ℕ → ℕ → ℕ → ℕ → List IdempotencyKey → Option (ℕ × List IdempotencyKey)
prune_passes zero limit cutoff deleted keys = none
prune_passes (suc passes) limit cutoff deleted keys =
    let (count, left) = delete_batch cutoff limit keys in
    let rest = prune_passes passes limit cutoff (deleted + count) left in
    if ltb count limit then some (deleted + count, left) else rest

abbrev pub cutoff_of : ℕ → ℕ → ℕ
cutoff_of retention_days now = now - retention_days * 24 * 60 * 60 * 1000

-- `pruneIdempotencyKeys`, with the rows that it leaves.
unfoldable pub prune_idempotency_keys :
    ℕ → ℕ → ℕ → List IdempotencyKey → Result String (Option (ℕ × List IdempotencyKey))
prune_idempotency_keys passes retention_days now keys =
    if ltb retention_days 1
    then err "retentionDays must be a positive number"
    else ok (prune_passes passes batch (cutoff_of retention_days now) 0 keys)
