-- ===== src/Prune/Done.antt =====
-- The loop ends, and deletes the expired keys and no other.
use homi_v.Prelude.{
  Bool, ℕ, zero, suc, ◌+◌, ◌-◌, ◌*◌, ◌/◌, ◌≤◌, ◌<◌, min, ◌≡◌, refl, sym, ap, ◌∙◌, subst, false, not,
  some, List, [], ◌∷◌, keep, length, arith, ltb, Bool-cases, inl, inr, if◌then◌else◌,
}
use homi_v.Prelude.Result.{ok}
use homi_v.Db.{IdempotencyKey}
use homi_v.Prune.{batch, is_expired, delete_batch, prune_passes, cutoff_of, prune_idempotency_keys}

-- The number of expired keys.
abbrev pub expired_in : ℕ → List IdempotencyKey → ℕ
expired_in cutoff [] = 0
expired_in cutoff (k ∷ keys) = (if is_expired cutoff k then 1 else 0) + expired_in cutoff keys

abbrev pub unexpired : ℕ → List IdempotencyKey → List IdempotencyKey
unexpired cutoff = keep (λ k. not (is_expired cutoff k))

-- A pass deletes expired keys only, as many as there are and the limit admits.
record Deletes (cutoff limit : ℕ) (keys : List IdempotencyKey) (r : ℕ × List IdempotencyKey)
    : Type 0 where
  count : r.0 ≡ min limit (expired_in cutoff keys)
  left : expired_in cutoff r.1 ≡ expired_in cutoff keys - r.0
  others : unexpired cutoff r.1 ≡ unexpired cutoff keys

delete_batch-Deletes :
    (cutoff limit : ℕ) (keys : List IdempotencyKey)
    → Deletes cutoff limit keys (delete_batch cutoff limit keys)
unfolding delete_batch
delete_batch-Deletes cutoff limit [] = record {
  count = omega arith;
  left = omega arith;
  others = refl;
}
delete_batch-Deletes cutoff zero (k ∷ keys) = record {
  count = omega arith;
  left = omega arith;
  others = refl;
}
delete_batch-Deletes cutoff (suc limit) (k ∷ keys) = elim (Bool-cases (is_expired cutoff k)) [
  | inl old ↦
      let r = delete_batch cutoff limit keys in
      let d = delete_batch-Deletes cutoff limit keys in
      let more : expired_in cutoff (k ∷ keys) ≡ suc (expired_in cutoff keys) =
        rw old (omega arith) in
      let same : unexpired cutoff (k ∷ keys) ≡ unexpired cutoff keys = rw old refl in
      let step : (suc r.0, r.1) ≡ delete_batch cutoff (suc limit) (k ∷ keys) = rw old refl in
      subst (Deletes cutoff (suc limit) (k ∷ keys)) step (record {
        count = omega (arith, d.count, more);
        left = omega (arith, d.left, more);
        others = d.others ∙ sym same;
      })
  | inr young ↦
      let r = delete_batch cutoff (suc limit) keys in
      let d = delete_batch-Deletes cutoff (suc limit) keys in
      let more : (x : List IdempotencyKey) → expired_in cutoff (k ∷ x) ≡ expired_in cutoff x =
        λ x. rw young (omega arith) in
      let same : (x : List IdempotencyKey) → unexpired cutoff (k ∷ x) ≡ k ∷ unexpired cutoff x =
        λ x. rw young refl in
      let step : (r.0, k ∷ r.1) ≡ delete_batch cutoff (suc limit) (k ∷ keys) = rw young refl in
      subst (Deletes cutoff (suc limit) (k ∷ keys)) step (record {
        count = omega (arith, d.count, more keys);
        left = omega (arith, d.left, more keys, more r.1);
        others = same r.1 ∙ (ap (λ l. k ∷ l) d.others ∙ sym (same keys));
      })
]

-- No key is expired.
all_unexpired :
    (cutoff : ℕ) (keys : List IdempotencyKey)
    → expired_in cutoff keys ≡ 0
    → unexpired cutoff keys ≡ keys
all_unexpired cutoff [] h = refl
all_unexpired cutoff (k ∷ keys) h = elim (Bool-cases (is_expired cutoff k)) [
  | inl old ↦ absurd (omega (arith, rw old at h))
  | inr young ↦
      rw young (ap (λ l. k ∷ l) (all_unexpired cutoff keys (omega (arith, rw young at h))))
]

prune_passes_lem :
    (passes limit cutoff deleted : ℕ) (keys : List IdempotencyKey)
    → 1 ≤ limit
    → expired_in cutoff keys < passes * limit
    → prune_passes passes limit cutoff deleted keys
      ≡ some (deleted + expired_in cutoff keys, unexpired cutoff keys)
unfolding prune_passes
prune_passes_lem zero limit cutoff deleted keys h enough = absurd (omega arith)
prune_passes_lem (suc passes) limit cutoff deleted keys h enough =
    let r = delete_batch cutoff limit keys in
    let d = delete_batch-Deletes cutoff limit keys in
    elim (Bool-cases (ltb r.0 limit)) [
      | inl last ↦
          let all : r.0 ≡ expired_in cutoff keys = ground (arith, d.count) in
          let none_left : expired_in cutoff r.1 ≡ 0 = omega (arith, d.left, all) in
          rw last (
            ap (λ n. some (deleted + n, r.1)) all
            ∙ ap (λ l. some (deleted + expired_in cutoff keys, l))
                (sym (all_unexpired cutoff r.1 none_left) ∙ d.others))
      | inr more ↦
          let full : r.0 ≡ limit = ground (arith, d.count) in
          let step : suc passes * limit ≡ passes * limit + limit = grind arith in
          rw
            (
              more,
              prune_passes_lem passes limit cutoff (deleted + r.0) r.1 h
                  (omega (arith, d.left, full, step, enough)),
            )
            (ap (λ l. some (deleted + r.0 + expired_in cutoff r.1, l)) d.others
              ∙ ap (λ n. some (n, unexpired cutoff keys)) (omega (arith, d.left, d.count)))
    ]

-- The key was stored more than this many days ago.
abbrev pub is_older : ℕ → ℕ → IdempotencyKey → Bool
is_older days now k = ltb (k.created_at + days * 86_400_000) now

is_expired_lem :
    (days now : ℕ) (k : IdempotencyKey) → is_expired (cutoff_of days now) k ≡ is_older days now k
is_expired_lem days now k = ground arith

expired_in_lem :
    (days now : ℕ) (keys : List IdempotencyKey)
    → expired_in (cutoff_of days now) keys ≡ length (keep (is_older days now) keys)
expired_in_lem days now [] = refl
expired_in_lem days now (k ∷ keys) =
    let same = is_expired_lem days now k in
    elim (Bool-cases (is_older days now k)) [
      | inl old ↦ rw (same, old) (omega (arith, expired_in_lem days now keys))
      | inr young ↦ rw (same, young) (omega (arith, expired_in_lem days now keys))
    ]

unexpired_lem :
    (days now : ℕ) (keys : List IdempotencyKey)
    → unexpired (cutoff_of days now) keys ≡ keep (λ k. not (is_older days now k)) keys
unexpired_lem days now [] = refl
unexpired_lem days now (k ∷ keys) =
    let same = is_expired_lem days now k in rw (same, unexpired_lem days now keys) refl

-- For a retention of a day at least, the loop ends: with more passes than the batches that the
-- expired keys fill, it has deleted the keys that were stored more than so many days ago, all of
-- them and no other, and says how many they were.
pub prune_idempotency_keys_lem :
    (passes days now : ℕ) (keys : List IdempotencyKey)
    → 1 ≤ days
    → length (keep (is_older days now) keys) / batch < passes
    → prune_idempotency_keys passes days now keys
      ≡ ok (
          some (length (keep (is_older days now) keys), keep (λ k. not (is_older days now k)) keys))
unfolding prune_idempotency_keys
prune_idempotency_keys_lem passes days now keys h enough =
    let cutoff = cutoff_of days now in
    let n = expired_in cutoff keys in
    let valid : ltb days 1 ≡ false = ground arith in
    let count : 0 + n ≡ length (keep (is_older days now) keys) =
      omega (arith, expired_in_lem days now keys) in
    rw valid (
      ap ok (
        prune_passes_lem passes batch cutoff 0 keys (omega arith) (omega (arith, enough, count))
        ∙ (ap (λ m. some (m, unexpired cutoff keys)) count
            ∙ ap (λ l. some (length (keep (is_older days now) keys), l))
                (unexpired_lem days now keys))))
