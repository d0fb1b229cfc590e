-- ===== src/RateLimit/Budget.antt =====
-- The calls of a key that a window allows.
use homi_v.Prelude.{
  ℕ, ◌+◌, ◌-◌, ◌*◌, ◌≤◌, ◌<◌, min, ◌≡◌, refl, sym, ap, ◌∙◌, subst, Bool, true, false, Option, none,
  some, List, [], ◌∷◌, All, delete_where, arith, ltb, leb, ◌==◌, ==_refl, Bool-cases, inl, inr,
  if◌then◌else◌,
}
use homi_v.Prelude.Dict.{Dict, lookup, lookup-insert}
use homi_v.RateLimit.{
  RateLimitDecision, Window, MemoryRateLimiter, Call, sweep, window_for, decide, consume,
}

-- Calls of any keys, one after another.
unfoldable pub allowed_in : ℕ → List Call → MemoryRateLimiter → ℕ
allowed_in key [] s = 0
allowed_in key (c ∷ calls) s =
    let (decision, s') = consume c s in
    (if c.key == key then (if decision.allowed then 1 else 0) else 0) + allowed_in key calls s'

abbrev pub calls_of : ℕ → List Call → ℕ
calls_of key [] = 0
calls_of key (c ∷ calls) = (if c.key == key then 1 else 0) + calls_of key calls

-- Calls before a time, of which those of the key have the limit.
abbrev pub Within : ℕ → ℕ → ℕ → List Call → Type 0
Within key limit until = All (λ c. (c.now < until) × ((c.key == key) ≡ true → c.limit ≡ limit))

lookup-swept :
    (key now : ℕ) (w : Window) (d : Dict Window)
    → lookup key d ≡ some w
    → now < w.reset_at
    → lookup key (delete_where (λ e. leb e.1.reset_at now) d) ≡ some w
lookup-swept key now w [] h live = cc
lookup-swept key now w ((j, v) ∷ d) h live = elim (Bool-cases (j == key)) [
  | inl here ↦
      let same : v ≡ w = cc (rw here at h) in
      let lives : leb v.reset_at now ≡ false = ap (λ x. leb x.reset_at now) same ∙ ground arith in
      rw (lives, here) (ap some same)
  | inr other ↦ elim (Bool-cases (leb v.reset_at now)) [
    | inl over ↦ rw over (lookup-swept key now w d (rw other at h) live)
    | inr lives ↦ rw (lives, other) (lookup-swept key now w d (rw other at h) live)
  ]
]

-- A sweep leaves a window that is not over.
sweep-live :
    (key now : ℕ) (w : Window) (s : MemoryRateLimiter)
    → lookup key s.windows ≡ some w
    → now < w.reset_at
    → lookup key (sweep now s).windows ≡ some w
unfolding sweep
sweep-live key now w s h live = elim (Bool-cases (leb s.sweep_at now)) [
  | inl due ↦ rw due (lookup-swept key now w s.windows h live)
  | inr early ↦ rw early h
]

abbrev counted : Window → Window
counted w = record w { count = w.count + 1 }

decide-allowed : (c : Call) (w : Window) → (decide c w).allowed ≡ leb w.count c.limit
decide-allowed c w = elim (Bool-cases (ltb c.limit w.count)) [
  | inl over ↦ rw over (ground arith)
  | inr within ↦ rw within (ground arith)
]

-- What a call does, by the window that it finds.
record Counts (c : Call) (w : Window) (r : RateLimitDecision × MemoryRateLimiter) : Type 0 where
  allowed : r.0.allowed ≡ leb (w.count + 1) c.limit
  window : lookup c.key r.1.windows ≡ some (counted w)

consume-Counts :
    (c : Call) (w : Window) (s : MemoryRateLimiter)
    → window_for c (sweep c.now s) ≡ w
    → Counts c w (consume c s)
unfolding consume
consume-Counts c w s e = rw e (record {
  allowed = decide-allowed c (counted w);
  window =
      lookup-insert c.key c.key (counted w) (sweep c.now s).windows ∙ ground (arith, ==_refl c.key);
})

window_for-live :
    (c : Call) (w : Window) (s : MemoryRateLimiter)
    → lookup c.key s.windows ≡ some w
    → c.now < w.reset_at
    → window_for c s ≡ w
unfolding window_for
window_for-live c w s h live = rw (h, window_for) (ground arith)

-- Another key's call leaves the window.
consume-other :
    (key : ℕ) (c : Call) (w : Window) (s : MemoryRateLimiter)
    → (c.key == key) ≡ false
    → lookup key s.windows ≡ some w
    → c.now < w.reset_at
    → lookup key (consume c s).1.windows ≡ some w
unfolding consume
consume-other key c w s other h live =
    lookup-insert c.key key (counted (window_for c (sweep c.now s))) (sweep c.now s).windows
    ∙ rw other (sweep-live key c.now w s h live)

-- While a window lasts, its key is allowed as many calls as the limit has left.
allowed_in-live :
    (key limit : ℕ) (calls : List Call) (w : Window) (s : MemoryRateLimiter)
    → lookup key s.windows ≡ some w
    → Within key limit w.reset_at calls
    → allowed_in key calls s ≡ min (calls_of key calls) (limit - w.count)
unfolding allowed_in
allowed_in-live key limit [] w s h within = omega arith
allowed_in-live key limit (c ∷ calls) w s h ((early, same_limit), within) =
    elim (Bool-cases (c.key == key)) [
      | inl mine ↦
          let same : c.key ≡ key = ground arith in
          let found : lookup c.key s.windows ≡ some w = ap (λ k. lookup k s.windows) same ∙ h in
          let k =
            consume-Counts c w s (
              window_for-live c w (sweep c.now s) (sweep-live c.key c.now w s found early) early) in
          let window : lookup key (consume c s).1.windows ≡ some (counted w) =
            ap (λ i. lookup i (consume c s).1.windows) (sym same) ∙ k.window in
          let rest = allowed_in-live key limit calls (counted w) (consume c s).1 window within in
          let l = same_limit mine in rw (mine, k.allowed, rest) (ground (arith, l))
      | inr other ↦
          rw
            (
              other,
              allowed_in-live key limit calls w (consume c s).1
                  (consume-other key c w s other h early) within,
            )
            (omega arith)
    ]

-- The key has no window that lasts.
abbrev pub Closed : ℕ → ℕ → MemoryRateLimiter → Type 0
Closed key now s = All (λ e. (e.0 == key) ≡ true → e.1.reset_at ≤ now) s.windows

Closed-delete_where :
    (key now : ℕ) (p : ℕ × Window → Bool) (d : Dict Window)
    → All (λ e. (e.0 == key) ≡ true → e.1.reset_at ≤ now) d
    → All (λ e. (e.0 == key) ≡ true → e.1.reset_at ≤ now) (delete_where p d)
Closed-delete_where key now p [] h = tt
Closed-delete_where key now p (e ∷ d) (first, h) = elim (Bool-cases (p e)) [
  | inl gone ↦ rw gone (Closed-delete_where key now p d h)
  | inr stays ↦ rw stays (first, Closed-delete_where key now p d h)
]

Closed-sweep :
    (key now : ℕ) (s : MemoryRateLimiter) → Closed key now s → Closed key now (sweep now s)
unfolding sweep
Closed-sweep key now s h = elim (Bool-cases (leb s.sweep_at now)) [
  | inl due ↦ rw due (Closed-delete_where key now (λ e. leb e.1.reset_at now) s.windows h)
  | inr early ↦ rw early h
]

lookup-Closed :
    (key now : ℕ) (d : Dict Window)
    → All (λ e. (e.0 == key) ≡ true → e.1.reset_at ≤ now) d
    → (w : Window) → lookup key d ≡ some w
    → w.reset_at ≤ now
lookup-Closed key now [] h w e = cc
lookup-Closed key now ((j, v) ∷ d) (first, h) w e = elim (Bool-cases (j == key)) [
  | inl here ↦
      let same : v ≡ w = cc (rw here at e) in subst (λ x. x.reset_at ≤ now) same (first here)
  | inr other ↦ lookup-Closed key now d h w (rw other at e)
]

abbrev fresh : Call → Window
fresh c = record { count = 0; reset_at = c.now + c.window_sec * 1000 }

window_for-Closed :
    (c : Call) (s : MemoryRateLimiter) → Closed c.key c.now s → window_for c s ≡ fresh c
unfolding window_for
window_for-Closed c s h = by_lookup (lookup c.key s.windows) (lookup-Closed c.key c.now s.windows h)
  where
    by_lookup :
        (o : Option Window)
        → ((w : Window) → o ≡ some w → w.reset_at ≤ c.now)
        → (elim o [ none ↦ fresh c | some w ↦ if leb w.reset_at c.now then fresh c else w ])
          ≡ fresh c
    by_lookup none k = refl
    by_lookup (some w) k = let over = k w refl in ground (arith, over)

-- From a call of a key that has no window that lasts, to the end of the window that it opens, the
-- limiter allows the key's calls up to the limit and refuses the others, whatever calls of other
-- keys and whatever sweeps come in between. The calls of the key have the same limit.
pub allowed_in-window :
    (c : Call) (calls : List Call) (s : MemoryRateLimiter)
    → Closed c.key c.now s
    → Within c.key c.limit (c.now + c.window_sec * 1000) calls
    → allowed_in c.key (c ∷ calls) s ≡ min (calls_of c.key (c ∷ calls)) c.limit
unfolding allowed_in
allowed_in-window c calls s closed within =
    let k =
      consume-Counts c (fresh c) s
        (window_for-Closed c (sweep c.now s) (Closed-sweep c.key c.now s closed)) in
    let rest =
      allowed_in-live c.key c.limit calls (counted (fresh c)) (consume c s).1 k.window within in
    let same = ==_refl c.key in rw (same, k.allowed, rest) (ground arith)
