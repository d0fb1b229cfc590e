-- ===== src/Money/Rooms.antt =====
-- packages/domain/src/money/rooms.ts.
pub mod Laws
use homi_v.Prelude.{
  ℕ, ◌+◌, ◌-◌, ◌*◌, ◌/◌, ◌||◌, not, List, [], ◌∷◌, length, to_set, ltb, ◌==◌, if◌then◌else◌,
}
use homi_v.Prelude.Dict.{insert}
use homi_v.Prelude.Result.{Result, ok, ◌>>=◌, ◌>>◌, throw_if, or_throw}
use homi_v.Money.Number.{Number, checked}
use homi_v.Money.Split.{Splits, SplitError, bad_room_weight, no_occupants, repeated_occupant}

-- The loop over the occupants, with its two variables.
unfoldable pub hand_out : ℕ → ℕ → List ℕ → Splits → Splits
hand_out base remainder [] shares = shares
hand_out base remainder (occupant ∷ rest) shares =
    hand_out base (if ltb 0 remainder then remainder - 1 else remainder) rest
      (insert occupant (base + (if ltb 0 remainder then 1 else 0)) shares)

unfoldable pub divide_room_weight : Number → List ℕ → Result SplitError Splits
divide_room_weight weight_bp occupants = do
  weight ← or_throw (checked weight_bp) bad_room_weight
  throw_if (ltb weight 1 || ltb 10000 weight) bad_room_weight
  throw_if (length occupants == 0) no_occupants
  throw_if (not (length (to_set occupants) == length occupants)) repeated_occupant
  let base = weight / length occupants
  let remainder = weight - base * length occupants
  ok (hand_out base remainder occupants [])
