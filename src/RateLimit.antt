-- ===== src/RateLimit.antt =====
-- MemoryRateLimiter of apps/api/src/ratelimit/rate-limiter.ts. Keys are numbers; the clock is an
-- argument, in milliseconds.
pub mod Budget
pub mod Examples
use homi_v.Prelude.{
  ℕ, ◌+◌, ◌-◌, ◌*◌, ◌/◌, max, Bool, true, false, Option, none, some, List, [], delete_where, ltb,
  leb, if◌then◌else◌,
}
use homi_v.Prelude.Dict.{Dict, lookup, insert}

pub record RateLimitDecision : Type 0 where
  pub allowed : Bool
  pub retry_after_sec : ℕ

pub record Window : Type 0 where
  pub count : ℕ
  pub reset_at : ℕ

pub record MemoryRateLimiter : Type 0 where
  pub windows : Dict Window
  pub sweep_at : ℕ

abbrev pub new_limiter : MemoryRateLimiter
new_limiter = record { windows = []; sweep_at = 0 }

-- A call of `consume`, with the time at which it is made.
pub record Call : Type 0 where
  pub now : ℕ
  pub key : ℕ
  pub limit : ℕ
  pub window_sec : ℕ

-- The eviction of windows that are over, once a minute.
unfoldable pub sweep : ℕ → MemoryRateLimiter → MemoryRateLimiter
sweep now s =
    if leb s.sweep_at now
    then record {
      windows = delete_where (λ e. leb e.1.reset_at now) s.windows;
      sweep_at = now + 60_000;
    }
    else s

-- The window of the key: a new one if there is none, or if it is over.
unfoldable pub window_for : Call → MemoryRateLimiter → Window
window_for c s =
    let fresh : Window = record { count = 0; reset_at = c.now + c.window_sec * 1000 } in
    elim (lookup c.key s.windows) [
      | none ↦ fresh
      | some w ↦ if leb w.reset_at c.now then fresh else w
    ]

-- `Math.ceil((resetAt - now) / 1000)`, at least 1.
abbrev pub decide : Call → Window → RateLimitDecision
decide c w =
    if ltb c.limit w.count
    then record { allowed = false; retry_after_sec = max 1 ((w.reset_at - c.now + 999) / 1000) }
    else record { allowed = true; retry_after_sec = 0 }

-- `consume`
unfoldable pub consume : Call → MemoryRateLimiter → RateLimitDecision × MemoryRateLimiter
consume c s =
    let swept = sweep c.now s in
    let w = window_for c swept in
    let counted : Window = record w { count = w.count + 1 } in
    (decide c counted, record swept { windows = insert c.key counted swept.windows })
