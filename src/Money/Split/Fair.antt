-- ===== src/Money/Split/Fair.antt =====
-- What a fair split is, and that each mode of `computeSplits` makes one.
use native.Mathlib.Nat.{mod-lt, div-add-mod'}
use homi_v.Prelude.{
  ℕ, ◌+◌, ◌-◌, ◌*◌, ◌/◌, ◌<◌, ◌≡◌, ◌≢◌, refl, subst, fun_ext, none, some, List, [], ◌∷◌, arith,
  length, Distinct,
}
use homi_v.Prelude.Dict.{Dict, tabulate, tabulate_cong}
use homi_v.Prelude.Result.{ok}
use homi_v.Money.Number.{Number}
use homi_v.Money.Split.{
  SplitMode, equal, exact, SplitInput, Splits, share_by_weight, split_equal, split_exact,
  split_by_weights,
}
use homi_v.Money.Split.Form.{sum_of, with_rest, IsRecipient, remainder_recipient_lem}
use homi_v.Money.Split.Modes.{
  sum_of-const, split_equal_lem, weight, AllGiven, rest_of, rest_of_bounds, split_by_weights_lem,
  share_by_weight_lem, split_exact_lem,
}

-- What the input asks for, by mode: a share for each participant, and the leftover cents, which
-- one participant receives.
abbrev pub share : SplitMode → ℕ → SplitInput → ℕ → ℕ
share equal total input id = total / length input.participants
share exact total input id = elim input.exact_cents [ none ↦ 0 | some e ↦ weight e id ]
share _ total input id = elim input.weights_bp [ none ↦ 0 | some w ↦ total * weight w id / 10000 ]

-- A result: the shares `f` add up, with fewer leftover cents than participants, which all go to
-- the one participant that the remainder rule names.
pub record IsFair (ids : List ℕ) (paid_by total : ℕ) (f : ℕ → ℕ) (s : Splits) : Type 0 where
  pub recipient : ℕ
  pub rule : IsRecipient ids paid_by recipient
  pub rest : ℕ
  pub small : rest < length ids
  pub adds_up : sum_of f ids + rest ≡ total
  pub table : s ≡ tabulate (with_rest recipient rest f) ids

-- What is left of a division.
pub rest_bounds : (a n : ℕ) → 0 < n → (a / n * n + (a - a / n * n) ≡ a) × (a - a / n * n < n)
rest_bounds a n h =
    let parts = div-add-mod' a n in let small = mod-lt a h in (omega arith, omega arith)

pub equal-IsFair :
    (total paid_by : ℕ) (ids : List ℕ)
    → ids ≢ []
    → Distinct ids
    → (s : Splits) × (split_equal total paid_by ids ≡ ok s)
      × IsFair ids paid_by total (λ _. total / length ids) s
equal-IsFair total paid_by [] ne d = absurd (ne refl)
equal-IsFair total paid_by (id ∷ ids) ne d =
    let (r, rule, e) = split_equal_lem total paid_by id ids d in
    let n = length (id ∷ ids) in
    let spent = sum_of-const (total / n) (id ∷ ids) in
    let (whole, small) = rest_bounds total n (omega arith) in
    (
      tabulate (with_rest r (total - total / n * n) (λ _. total / n)) (id ∷ ids),
      e,
      record {
        recipient = r;
        rule = rule;
        rest = total - total / n * n;
        small = small;
        adds_up = rw spent whole;
        table = refl;
      },
    )

pub weights-IsFair :
    (total paid_by : ℕ) (ids : List ℕ) (w : Dict Number)
    → ids ≢ []
    → Distinct ids
    → AllGiven w ids
    → sum_of (weight w) ids ≡ 10000
    → (s : Splits) × (split_by_weights total paid_by ids w ≡ ok s)
      × IsFair ids paid_by total (share_by_weight total w) s
weights-IsFair total paid_by [] w ne d given full = absurd (ne refl)
weights-IsFair total paid_by (id ∷ ids) w ne d given full =
    let (r, rule, e) = split_by_weights_lem total paid_by id ids w d given full in
    let (adds_up, small) = rest_of_bounds total w id ids full in
    (
      tabulate (with_rest r (rest_of total w (id ∷ ids)) (share_by_weight total w)) (id ∷ ids),
      e,
      record {
        recipient = r;
        rule = rule;
        rest = rest_of total w (id ∷ ids);
        small = small;
        adds_up = adds_up;
        table = refl;
      },
    )

pub exact-IsFair :
    (total paid_by : ℕ) (ids : List ℕ) (e : Dict Number)
    → ids ≢ []
    → Distinct ids
    → AllGiven e ids
    → sum_of (weight e) ids ≡ total
    → (s : Splits) × (split_exact total ids e ≡ ok s) × IsFair ids paid_by total (weight e) s
exact-IsFair total paid_by [] e ne d given full = absurd (ne refl)
exact-IsFair total paid_by (id ∷ ids) e ne d given full =
    let (r, _, rule) = remainder_recipient_lem id ids paid_by in
    (
      tabulate (weight e) (id ∷ ids),
      split_exact_lem total (id ∷ ids) e d given full,
      record {
        recipient = r;
        rule = rule;
        rest = 0;
        small = omega arith;
        adds_up = omega arith;
        table =
            tabulate_cong (weight e) (with_rest r 0 (weight e)) (id ∷ ids) (λ k c. ground arith);
      },
    )

pub floored :
    (total paid_by : ℕ) (ids : List ℕ) (w : Dict Number) (s : Splits)
    → IsFair ids paid_by total (share_by_weight total w) s
    → IsFair ids paid_by total (λ id. total * weight w id / 10000) s
floored total paid_by ids w s =
    subst (λ f. IsFair ids paid_by total f s) (fun_ext (share_by_weight_lem total w))
