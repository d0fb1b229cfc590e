-- ===== src/Prune/Examples.antt =====
-- A table with an expired key and a recent one.
use homi_v.Prelude.{keep, length, not, ℕ, ◌≡◌, some, List, [], ◌∷◌, arith}
use homi_v.Prelude.Result.{ok}
use homi_v.Db.{IdempotencyKey, payment_body}
use homi_v.Prune.{default_retention_days, prune_idempotency_keys}
use homi_v.Prune.Done.{is_older, prune_idempotency_keys_lem}
use homi_v.Ledger.Feed.Examples.{paid_back}

abbrev key_at : ℕ → IdempotencyKey
key_at created_at = record {
  key = created_at;
  user_id = 10;
  endpoint = "POST /v1/houses/:houseId/expenses";
  request_hash = 1;
  response = record { status = 201; body = payment_body paid_back };
  created_at = created_at;
}

abbrev two_keys : List IdempotencyKey
two_keys = key_at 0 ∷ key_at 2_591_999_999 ∷ []

prune_idempotency_keys_lem_example :
    prune_idempotency_keys 1 default_retention_days 2_592_000_001 two_keys
    ≡ ok (
        some (
          length (keep (is_older default_retention_days 2_592_000_001) two_keys),
          keep (λ k. not (is_older default_retention_days 2_592_000_001 k)) two_keys,
        ))
prune_idempotency_keys_lem_example =
    prune_idempotency_keys_lem 1 default_retention_days 2_592_000_001 two_keys (omega arith)
      (omega arith)
