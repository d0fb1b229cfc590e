-- ===== src/Money/Split/Total.antt =====
-- `computeSplits` over all modes: which inputs it accepts, and what it returns for them.
use homi_v.Prelude.{
  ℕ, ◌<◌, ◌≡◌, ◌≢◌, refl, sym, ap, ◌∙◌, some, [], arith, length, sum, Distinct, Distinct-of_size,
  to_set, to_set_lem, Option-cases, inl, inr, ◌*◌, ◌^◌,
}
use homi_v.Prelude.Dict.{Dict, keys, values}
use homi_v.Prelude.Result.{ok, ◌>>=◌, or_throw}
use homi_v.Money.Number.{Number, checked}
use homi_v.Money.Split.{
  SplitMode, equal, exact, percent, room_weighted, SplitInput, Splits, weights_required,
  assert_valid_total, split_by_weights, split_by_mode, compute_splits,
}
use homi_v.Money.Split.Form.{sum_of}
use homi_v.Money.Split.Modes.{
  with_rest-IsSplit, weight, AllGiven, split_exact-eq-ok, split_by_weights-eq-ok,
}
use homi_v.Money.Split.Fair.{share, IsFair, equal-IsFair, weights-IsFair, exact-IsFair, floored}

-- What a mode asks of the amounts or weights that come with the request.
abbrev pub ModeAccepts : SplitMode → ℕ → SplitInput → Type 0
ModeAccepts equal total input = Unit
ModeAccepts exact total input =
    (e : Dict Number) × (input.exact_cents ≡ some e)
    × AllGiven e input.participants
    × (sum_of (weight e) input.participants ≡ total)
ModeAccepts _ total input =
    (w : Dict Number) × (input.weights_bp ≡ some w)
    × AllGiven w input.participants
    × (sum_of (weight w) input.participants ≡ 10000)

pub record IsAccepted (input : SplitInput) (total : ℕ) : Type 0 where
  pub valid : checked input.total_cents ≡ some total
  pub positive : 0 < total
  pub some_participant : input.participants ≢ []
  pub distinct : Distinct input.participants
  pub mode : ModeAccepts input.mode total input

compute_splits-eq :
    (input : SplitInput) (total : ℕ)
    → checked input.total_cents ≡ some total
    → 0 < total
    → input.participants ≢ []
    → Distinct input.participants
    → compute_splits input ≡ split_by_mode total input
unfolding compute_splits assert_valid_total
compute_splits-eq input total v p ne d = rw (v, to_set_lem input.participants d) (ground arith)

-- The guards before the `switch`, read back from a result.
compute_splits-guards :
    (input : SplitInput) {s : Splits}
    → compute_splits input ≡ ok s
    → (total : ℕ) × (checked input.total_cents ≡ some total)
      × (0 < total)
      × (input.participants ≢ [])
      × (length (to_set input.participants) ≡ length input.participants)
      × (split_by_mode total input ≡ ok s)
unfolding compute_splits assert_valid_total
compute_splits-guards input h = elim (Option-cases (checked input.total_cents)) [
  | inl bad ↦ ground arith
  | inr (n, e) ↦ (n, e, ground arith, ground arith, ground arith, ground arith)
]

-- The result that an accepted input has, by the mode.
by_mode-IsFair :
    (total : ℕ) (input : SplitInput) (m : SplitMode)
    → input.mode ≡ m
    → input.participants ≢ []
    → Distinct input.participants
    → ModeAccepts m total input
    → (s : Splits) × (split_by_mode total input ≡ ok s)
      × IsFair input.participants input.paid_by total (share m total input) s
unfolding split_by_mode
by_mode-IsFair total input equal e ne d h =
    let (s, found, fair) = equal-IsFair total input.paid_by input.participants ne d in
    (s, rw (e, split_by_mode) found, fair)
by_mode-IsFair total input exact e ne d (amounts, given, all, full) =
    let (s, found, fair) =
      exact-IsFair total input.paid_by input.participants amounts ne d all full in
    (s, rw (e, given, split_by_mode) found, rw given fair)
by_mode-IsFair total input percent e ne d (w, given, all, full) =
    let (s, found, fair) = weights-IsFair total input.paid_by input.participants w ne d all full in
    (
      s,
      rw (e, given, split_by_mode) found,
      rw given (floored total input.paid_by input.participants w s fair),
    )
by_mode-IsFair total input room_weighted e ne d (w, given, all, full) =
    let (s, found, fair) = weights-IsFair total input.paid_by input.participants w ne d all full in
    (
      s,
      rw (e, given, split_by_mode) found,
      rw given (floored total input.paid_by input.participants w s fair),
    )

weights_accepted :
    (total : ℕ) (input : SplitInput) (m : SplitMode) {s : Splits}
    → (or_throw input.weights_bp (weights_required m)
        >>= split_by_weights total input.paid_by input.participants)
      ≡ ok s
    → (w : Dict Number) × (input.weights_bp ≡ some w)
      × AllGiven w input.participants
      × (sum_of (weight w) input.participants ≡ 10000)
weights_accepted total input m h = elim (Option-cases input.weights_bp) [
  | inl missing ↦ ground arith
  | inr (w, given) ↦
      let (all, full) =
        split_by_weights-eq-ok total input.paid_by input.participants w (rw given at h) in
      (w, given, all, full)
]

mode_accepts :
    (total : ℕ) (input : SplitInput) (m : SplitMode) {s : Splits}
    → input.mode ≡ m
    → split_by_mode total input ≡ ok s
    → ModeAccepts m total input
unfolding split_by_mode
mode_accepts total input equal e h = tt
mode_accepts total input exact e h = elim (Option-cases input.exact_cents) [
  | inl missing ↦ ground arith
  | inr (amounts, given) ↦
      let (all, full) =
        split_exact-eq-ok total input.participants amounts (rw (e, given, split_by_mode) at h) in
      (amounts, given, all, full)
]
mode_accepts total input percent e h =
    weights_accepted total input percent (rw (e, split_by_mode) at h)
mode_accepts total input room_weighted e h =
    weights_accepted total input room_weighted (rw (e, split_by_mode) at h)

-- The split that exact arithmetic gives.
pub compute_splits-share :
    (input : SplitInput) (total : ℕ)
    → IsAccepted input total
    → (s : Splits) × (compute_splits input ≡ ok s)
      × IsFair input.participants input.paid_by total (share input.mode total input) s
compute_splits-share input total h =
    let (s, found, fair) =
      by_mode-IsFair total input input.mode refl h.some_participant h.distinct h.mode in
    (
      s,
      compute_splits-eq input total h.valid h.positive h.some_participant h.distinct ∙ found,
      fair,
    )

-- Cents times basis points, 10000 at most, stay below 2^53, where the source's numbers do not
-- round: their product is exact, and rounding their quotient down is too.
abbrev pub Unrounded : SplitMode → ℕ → Type 0
Unrounded percent total = total * 10000 < 2 ^ 53
Unrounded room_weighted total = total * 10000 < 2 ^ 53
Unrounded _ total = Unit

-- Whenever the total is a whole number of cents above zero, there is a participant and no participant
-- is named twice, and the mode has what it needs (exact amounts that add up to the total, or weights
-- that add up to 10000 basis points, for each participant), `computeSplits` returns a split: each
-- participant, in order, has the share of the mode rounded down to a cent, and all the cents left
-- over, fewer than there are participants, go to the payer if they take part and else to the
-- participant with the least id; together that is the total. For the modes with weights the total is
-- less than 2^53 / 10000 cents, so that no product of cents and basis points rounds.
pub compute_splits-IsFair :
    (input : SplitInput) (total : ℕ)
    → IsAccepted input total
    → Unrounded input.mode total
    → (s : Splits) × (compute_splits input ≡ ok s)
      × IsFair input.participants input.paid_by total (share input.mode total input) s
compute_splits-IsFair input total h unrounded = compute_splits-share input total h

-- `computeSplits` returns a split for no other input: a result means that the total is a whole number
-- of cents above zero, that there is a participant and none is named twice, and that the mode had
-- what it needs.
pub compute_splits_accepts :
    (input : SplitInput) (s : Splits)
    → compute_splits input ≡ ok s
    → (total : ℕ) × IsAccepted input total
compute_splits_accepts input s h =
    let (total, valid, positive, ne, size, found) = compute_splits-guards input h in
    (
      total,
      record {
        valid = valid;
        positive = positive;
        some_participant = ne;
        distinct = Distinct-of_size input.participants size;
        mode = mode_accepts total input input.mode refl found;
      },
    )

-- What `computeSplits` returns adds up to the total, and names the participants in their order.
pub compute_splits-IsSplit :
    (input : SplitInput) (s : Splits)
    → compute_splits input ≡ ok s
    → (checked input.total_cents ≡ some (sum (values s))) × (keys s ≡ input.participants)
compute_splits-IsSplit input s h =
    let (total, accepted) = compute_splits_accepts input s h in
    let (s', found, fair) = compute_splits-share input total accepted in
    let split =
      with_rest-IsSplit fair.recipient fair.rest total (share input.mode total input)
        input.participants accepted.distinct fair.rule.member fair.adds_up in
    let same : s ≡ s' = cc (found, h) in
    let form = same ∙ fair.table in
    (
      accepted.valid ∙ ap some (sym (ap (λ t. sum (values t)) form ∙ split.sums)),
      ap keys form ∙ split.names,
    )
