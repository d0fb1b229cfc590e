-- ===== src/Money/Number.antt =====
-- JavaScript numbers as the split math reads them.
use homi_v.Prelude.{ℕ, Option, none, some, leb, if◌then◌else◌}
use homi_v.Prelude.Int.{ℤ, pos, negsuc}

-- `other` is NaN, an infinity or a number with a fraction: none of them is a safe integer.
pub data Number : Type 0 where
  int : ℤ → Number
  other : Number

-- `Number.MAX_SAFE_INTEGER`
abbrev pub max_safe : ℕ
max_safe = 9007199254740991

-- The value `n`, where the test `!Number.isSafeInteger(n) || n < 0` lets it pass.
abbrev pub checked : Number → Option ℕ
checked (int (pos n)) = if leb n max_safe then some n else none
checked (int (negsuc n)) = none
checked other = none
