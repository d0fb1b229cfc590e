-- ===== src/Money/Split.antt =====
-- packages/domain/src/money/split.ts. Ids are the numbers that the UUIDs spell: lower-case UUIDs
-- have one length, so that their texts and those numbers compare alike. Numbers do not round here.
-- In the source they are doubles: where cents times basis points are below 2^53 (a total of at most
-- 900719925474 cents; the API takes at most 10^10) both agree, and above it share_by_weight models
-- the source no longer.
pub mod Form
pub mod Modes
pub mod Fair
pub mod Total
use homi_v.Prelude.{
  ℕ, ◌+◌, ◌-◌, ◌*◌, ◌/◌, not, Option, none, some, List, [], ◌∷◌, length, contains, to_set, sort,
  head?, ◌==◌, if◌then◌else◌,
}
use homi_v.Prelude.Dict.{Dict, lookup, insert, get_or}
use homi_v.Prelude.Result.{Result, ok, err, ◌>>=◌, ◌>>◌, throw_if, or_throw}
use homi_v.Money.Number.{Number, checked}

pub data SplitMode : Type 0 where
  equal exact percent room_weighted : SplitMode

pub record SplitInput : Type 0 where
  pub total_cents : Number
  pub paid_by : ℕ
  pub mode : SplitMode
  pub participants : List ℕ
  pub exact_cents : Option (Dict Number)
  pub weights_bp : Option (Dict Number)

abbrev pub Splits : Type 0
Splits = Dict ℕ

-- One constructor for each message of `SplitError`.
pub data SplitError : Type 0 where
  bad_total no_participants repeated_participant exact_required : SplitError
  bad_exact bad_weight : ℕ → SplitError
  exact_sum : ℕ → ℕ → SplitError
  weight_sum : ℕ → SplitError
  weights_required : SplitMode → SplitError
  bad_room_weight no_occupants repeated_occupant : SplitError

-- `assertValidTotal`; the total is returned as the number that it is.
unfoldable pub assert_valid_total : Number → Result SplitError ℕ
assert_valid_total total = do
  n ← or_throw (checked total) bad_total
  throw_if (n == 0) bad_total
  ok n

unfoldable pub remainder_recipient : List ℕ → ℕ → Result SplitError ℕ
remainder_recipient participants paid_by =
    if contains paid_by participants
    then ok paid_by
    else or_throw (head? (sort participants)) no_participants

-- `weightsBp[id]`, after the test for a missing or invalid weight.
unfoldable pub weight_of : Dict Number → ℕ → Option ℕ
weight_of weights id = elim (lookup id weights) [ none ↦ none | some w ↦ checked w ]

-- The first loop of `splitByWeights`.
pub sum_weights : Dict Number → List ℕ → ℕ → Result SplitError ℕ
sum_weights weights [] bp_sum = ok bp_sum
sum_weights weights (id ∷ ids) bp_sum = elim (weight_of weights id) [
  | none ↦ err (bad_weight id)
  | some bp ↦ sum_weights weights ids (bp_sum + bp)
]

-- `Math.floor((totalCents * weightsBp[id]) / 10000)`, for a total below 2^53 / 10000; no weight is
-- missing past the first loop.
pub share_by_weight : ℕ → Dict Number → ℕ → ℕ
share_by_weight total weights id = elim (weight_of weights id) [
  | none ↦ 0
  | some bp ↦ total * bp / 10000
]

-- The second loop, with its two variables.
pub allocate : ℕ → Dict Number → List ℕ → Splits → ℕ → Splits × ℕ
allocate total weights [] splits allocated = (splits, allocated)
allocate total weights (id ∷ ids) splits allocated =
    let share = share_by_weight total weights id in
    allocate total weights ids (insert id share splits) (allocated + share)

-- `splits[recipient] = (splits[recipient] ?? 0) + rest`
unfoldable pub give_rest : ℕ → ℕ → Splits → Splits
give_rest recipient rest splits = insert recipient (get_or splits recipient 0 + rest) splits

pub split_by_weights : ℕ → ℕ → List ℕ → Dict Number → Result SplitError Splits
split_by_weights total paid_by participants weights = do
  bp_sum ← sum_weights weights participants 0
  throw_if (not (bp_sum == 10000)) (weight_sum bp_sum)
  let (splits, allocated) = allocate total weights participants [] 0
  recipient ← remainder_recipient participants paid_by
  ok (give_rest recipient (total - allocated) splits)

-- `for (const id of participants) splits[id] = base`
unfoldable pub fill : ℕ → List ℕ → Splits → Splits
fill base [] splits = splits
fill base (id ∷ ids) splits = fill base ids (insert id base splits)

unfoldable pub split_equal : ℕ → ℕ → List ℕ → Result SplitError Splits
split_equal total paid_by participants = do
  let base = total / length participants
  let splits = fill base participants []
  recipient ← remainder_recipient participants paid_by
  ok (give_rest recipient (total - base * length participants) splits)

-- The loop of mode 'exact', with its two variables.
pub take_exact : Dict Number → List ℕ → Splits → ℕ → Result SplitError (Splits × ℕ)
take_exact exact_cents [] splits sum = ok (splits, sum)
take_exact exact_cents (id ∷ ids) splits sum = elim (weight_of exact_cents id) [
  | none ↦ err (bad_exact id)
  | some cents ↦ take_exact exact_cents ids (insert id cents splits) (sum + cents)
]

pub split_exact : ℕ → List ℕ → Dict Number → Result SplitError Splits
split_exact total participants exact_cents = do
  (splits, sum) ← take_exact exact_cents participants [] 0
  throw_if (not (sum == total)) (exact_sum sum total)
  ok splits

-- The `switch` of `computeSplits`.
unfoldable pub split_by_mode : ℕ → SplitInput → Result SplitError Splits
split_by_mode total input = elim input.mode [
  | equal ↦ split_equal total input.paid_by input.participants
  | exact ↦ do
    exact_cents ← or_throw input.exact_cents exact_required
    split_exact total input.participants exact_cents
  | percent ↦ do
    weights ← or_throw input.weights_bp (weights_required percent)
    split_by_weights total input.paid_by input.participants weights
  | room_weighted ↦ do
    weights ← or_throw input.weights_bp (weights_required room_weighted)
    split_by_weights total input.paid_by input.participants weights
]

unfoldable pub compute_splits : SplitInput → Result SplitError Splits
compute_splits input = do
  total ← assert_valid_total input.total_cents
  throw_if (length input.participants == 0) no_participants
  throw_if (not (length (to_set input.participants) == length input.participants))
      repeated_participant
  split_by_mode total input
