-- ===== src/Money/Split/Modes.antt =====
-- What each mode of `computeSplits` returns, in closed form.
use homi_v.Prelude.{
  ℕ, ◌+◌, ◌-◌, ◌*◌, ◌/◌, ◌≤◌, ◌<◌, ◌≡◌, ◌≢◌, ap, ◌∙◌, true, none, some, List, [], ◌∷◌, arith,
  length, sum, contains, Distinct, Option-cases, inl, inr,
}
use homi_v.Prelude.Dict.{
  Dict, keys, values, tabulate, keys-tabulate, assign, assign_lem, Fresh-nil, insert,
}
use homi_v.Prelude.Result.{ok, >>=-eq-ok}
use homi_v.Money.Number.{Number}
use homi_v.Money.Split.{
  Splits, weight_of, sum_weights, share_by_weight, allocate, split_equal, take_exact, split_exact,
  split_by_weights,
}
use homi_v.Money.Split.Form.{
  fill_lem, allocate_lem, allocated-eq-sum_of, sum_of, sum-values-tabulate, with_rest,
  give_rest-tabulate, sum_of-with_rest, IsRecipient, remainder_recipient_lem,
}

-- A split of `total` among the participants, in their order.
pub record IsSplit (total : ℕ) (participants : List ℕ) (s : Splits) : Type 0 where
  pub sums : sum (values s) ≡ total
  pub names : keys s ≡ participants

-- A table of shares plus the rest for one participant is a split of the sum of both.
pub with_rest-IsSplit :
    (r rest total : ℕ) (f : ℕ → ℕ) (ids : List ℕ)
    → Distinct ids
    → contains r ids ≡ true
    → sum_of f ids + rest ≡ total
    → IsSplit total ids (tabulate (with_rest r rest f) ids)
with_rest-IsSplit r rest total f ids h c e = record {
  sums = sum-values-tabulate (with_rest r rest f) ids ∙ sum_of-with_rest r rest f ids h c ∙ e;
  names = keys-tabulate (with_rest r rest f) ids;
}

pub sum_of-const : (n : ℕ) (ids : List ℕ) → sum_of (λ _. n) ids ≡ n * length ids
sum_of-const n [] = omega arith
sum_of-const n (id ∷ ids) = grind (arith, sum_of-const n ids)

pub split_equal_lem :
    (total paid_by id : ℕ) (ids : List ℕ)
    → Distinct (id ∷ ids)
    → let n = length (id ∷ ids) in
      (r : ℕ) × IsRecipient (id ∷ ids) paid_by r
      × (split_equal total paid_by (id ∷ ids)
          ≡ ok (tabulate (with_rest r (total - total / n * n) (λ _. total / n)) (id ∷ ids)))
unfolding split_equal
split_equal_lem total paid_by id ids h =
    let (r, found, rule) = remainder_recipient_lem id ids paid_by in
    let n = length (id ∷ ids) in
    (
      r,
      rule,
      rw (found, fill_lem (total / n) (id ∷ ids) h)
          (ap ok (
            give_rest-tabulate r (total - total / n * n) (λ _. total / n) (id ∷ ids) h
              rule.member)),
    )

-- The weight that the loops read, where one is given.
abbrev pub weight : Dict Number → ℕ → ℕ
weight weights id = elim (weight_of weights id) [ none ↦ 0 | some bp ↦ bp ]

abbrev pub AllGiven : Dict Number → List ℕ → Type 0
AllGiven given [] = Unit
AllGiven given (id ∷ ids) = (weight_of given id ≢ none) × AllGiven given ids

weight-eq : (w : Dict Number) (id : ℕ) {bp : ℕ} → weight_of w id ≡ some bp → weight w id ≡ bp
weight-eq w id e = rw (e, weight)

sum_weights_lem :
    (w : Dict Number) (ids : List ℕ) (acc : ℕ)
    → AllGiven w ids
    → sum_weights w ids acc ≡ ok (acc + sum_of (weight w) ids)
unfolding sum_weights
sum_weights_lem w [] acc h = ap ok (omega arith)
sum_weights_lem w (id ∷ ids) acc h = elim (Option-cases (weight_of w id)) [
  | inl missing ↦ absurd (h.0 missing)
  | inr (bp, e) ↦
      rw (e, sum_weights)
        (sum_weights_lem w ids (acc + bp) h.1 ∙ ap ok (omega (arith, weight-eq w id e)))
]

AllGiven-of_sum_weights :
    (w : Dict Number) (ids : List ℕ) (acc : ℕ) {n : ℕ}
    → sum_weights w ids acc ≡ ok n
    → AllGiven w ids
unfolding sum_weights
AllGiven-of_sum_weights w [] acc h = tt
AllGiven-of_sum_weights w (id ∷ ids) acc h = elim (Option-cases (weight_of w id)) [
  | inl missing ↦ ground arith
  | inr (bp, e) ↦ ((λ m. cc), AllGiven-of_sum_weights w ids (acc + bp) (rw (e, sum_weights) at h))
]

pub share_by_weight_lem :
    (total : ℕ) (w : Dict Number) (id : ℕ)
    → share_by_weight total w id ≡ total * weight w id / 10000
unfolding share_by_weight
share_by_weight_lem total w id = ground arith

-- Rounding down never allocates more than the total, and loses less than one cent a share.
shares_bounds :
    (total : ℕ) (w : Dict Number) (ids : List ℕ)
    → (sum_of (share_by_weight total w) ids * 10000 ≤ total * sum_of (weight w) ids)
      × (total * sum_of (weight w) ids
          ≤ sum_of (share_by_weight total w) ids * 10000 + 9999 * length ids)
shares_bounds total w [] = (omega arith, omega arith)
shares_bounds total w (id ∷ ids) =
    let (low, high) = shares_bounds total w ids in
    let here = share_by_weight_lem total w id in (omega arith, omega arith)

-- The leftover cents of a weighted split.
abbrev pub rest_of : ℕ → Dict Number → List ℕ → ℕ
rest_of total w ids = total - sum_of (share_by_weight total w) ids

pub rest_of_bounds :
    (total : ℕ) (w : Dict Number) (id : ℕ) (ids : List ℕ)
    → sum_of (weight w) (id ∷ ids) ≡ 10000
    → (sum_of (share_by_weight total w) (id ∷ ids) + rest_of total w (id ∷ ids) ≡ total)
      × (rest_of total w (id ∷ ids) < length (id ∷ ids))
rest_of_bounds total w id ids h =
    let (low, high) = shares_bounds total w (id ∷ ids) in
    let full = ap (λ (n : ℕ). total * n) h in (omega arith, omega arith)

pub split_by_weights_lem :
    (total paid_by id : ℕ) (ids : List ℕ) (w : Dict Number)
    → Distinct (id ∷ ids)
    → AllGiven w (id ∷ ids)
    → sum_of (weight w) (id ∷ ids) ≡ 10000
    → (r : ℕ) × IsRecipient (id ∷ ids) paid_by r
      × (split_by_weights total paid_by (id ∷ ids) w
          ≡ ok (
              tabulate
                (with_rest r (rest_of total w (id ∷ ids)) (share_by_weight total w))
                (id ∷ ids)))
unfolding split_by_weights
split_by_weights_lem total paid_by id ids w h given full =
    let (r, found, rule) = remainder_recipient_lem id ids paid_by in
    let all = id ∷ ids in
    let enough : sum_weights w all 0 ≡ ok 10000 =
      sum_weights_lem w all 0 given ∙ ap ok (omega arith) in
    let spent : (allocate total w all [] 0).1 ≡ sum_of (share_by_weight total w) all =
      allocated-eq-sum_of total w all [] 0 ∙ omega arith in
    (
      r,
      rule,
      rw (enough, allocate_lem total w all h, spent, found)
          (ap ok (
            give_rest-tabulate r (rest_of total w all) (share_by_weight total w) all h
              rule.member)),
    )

take_exact_lem :
    (e : Dict Number) (ids : List ℕ) (d : Splits) (acc : ℕ)
    → AllGiven e ids
    → take_exact e ids d acc ≡ ok (assign (weight e) ids d, acc + sum_of (weight e) ids)
unfolding take_exact
take_exact_lem e [] d acc h = ap ok (ap (λ (n : ℕ). (d, n)) (omega arith))
take_exact_lem e (id ∷ ids) d acc h = elim (Option-cases (weight_of e id)) [
  | inl missing ↦ absurd (h.0 missing)
  | inr (cents, found) ↦
      let value = weight-eq e id found in
      let later = take_exact_lem e ids (insert id cents d) (acc + cents) h.1 in
      rw (found, take_exact) (later ∙ ground arith)
]

AllGiven-of_take_exact :
    (e : Dict Number) (ids : List ℕ) (d : Splits) (acc : ℕ) {r : Splits × ℕ}
    → take_exact e ids d acc ≡ ok r
    → AllGiven e ids
unfolding take_exact
AllGiven-of_take_exact e [] d acc h = tt
AllGiven-of_take_exact e (id ∷ ids) d acc h = elim (Option-cases (weight_of e id)) [
  | inl missing ↦ ground arith
  | inr (cents, found) ↦ (
    (λ m. cc),
    AllGiven-of_take_exact e ids (insert id cents d) (acc + cents) (rw (found, take_exact) at h),
  )
]

pub split_exact_lem :
    (total : ℕ) (ids : List ℕ) (e : Dict Number)
    → Distinct ids
    → AllGiven e ids
    → sum_of (weight e) ids ≡ total
    → split_exact total ids e ≡ ok (tabulate (weight e) ids)
unfolding split_exact
split_exact_lem total ids e h given full =
    let read = take_exact_lem e ids [] 0 given in
    rw (read, assign_lem (weight e) ids [] h (Fresh-nil ids)) (ground arith)

pub split_exact-eq-ok :
    (total : ℕ) (ids : List ℕ) (e : Dict Number) {s : Splits}
    → split_exact total ids e ≡ ok s
    → AllGiven e ids × (sum_of (weight e) ids ≡ total)
unfolding split_exact
split_exact-eq-ok total ids e h =
    let (r, read, _) = >>=-eq-ok (take_exact e ids [] 0) _ h in
    let given = AllGiven-of_take_exact e ids [] 0 read in
    let known = take_exact_lem e ids [] 0 given in (given, ground arith)

pub split_by_weights-eq-ok :
    (total paid_by : ℕ) (ids : List ℕ) (w : Dict Number) {s : Splits}
    → split_by_weights total paid_by ids w ≡ ok s
    → AllGiven w ids × (sum_of (weight w) ids ≡ 10000)
unfolding split_by_weights
split_by_weights-eq-ok total paid_by ids w h =
    let (n, read, _) = >>=-eq-ok (sum_weights w ids 0) _ h in
    let given = AllGiven-of_sum_weights w ids 0 read in
    let known = sum_weights_lem w ids 0 given in (given, ground arith)
