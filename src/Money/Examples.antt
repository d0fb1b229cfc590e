-- ===== src/Money/Examples.antt =====
-- The theorems on money at concrete inputs.
use homi_v.Prelude.{ℕ, ◌≡◌, refl, none, some, List, [], ◌∷◌, sum, arith, ◌/◌}
use homi_v.Prelude.Int.{pos, ◌+ℤ◌}
use homi_v.Prelude.Dict.{keys, values, get_or}
use homi_v.Prelude.Result.{ok}
use homi_v.Money.Number.{int, checked}
use homi_v.Money.Split.{
  equal, SplitInput, Splits, compute_splits, assert_valid_total, split_by_mode, split_equal, fill,
  remainder_recipient, give_rest, percent, weight_of,
}
use homi_v.Money.Split.Fair.{IsFair, share}
use homi_v.Money.Split.Total.{IsAccepted, compute_splits-IsFair, compute_splits_accepts}
use homi_v.Money.Rooms.{divide_room_weight, hand_out}
use homi_v.Money.Rooms.Laws.{Even, divide_room_weight_exact}
use homi_v.Money.Balances.{ExpenseRow, PaymentRow, recorded, compute_balances}
use homi_v.Money.Balances.Pairs.{expenses_effect, payments_effect}
use homi_v.Money.Balances.Net.{member, total, net-compute_balances, total-net-compute_balances}
use homi_v.Money.Balances.Pairwise.{between, owed, owed-compute_balances}
use homi_v.Money.Balances.Minimal.{IsMinimal, pairwise-compute_balances-IsMinimal}

-- Ten euros among three, paid by the second of them.
abbrev pub thirds : SplitInput
thirds = record {
  total_cents = int (pos 1000);
  paid_by = 2;
  mode = equal;
  participants = 1 ∷ 2 ∷ 3 ∷ [];
  exact_cents = none;
  weights_bp = none;
}

pub thirds-IsAccepted : IsAccepted thirds 1000
thirds-IsAccepted = record {
  valid = refl;
  positive = omega arith;
  some_participant = λ h. cc;
  distinct = (refl, (refl, (refl, tt)));
  mode = tt;
}

abbrev thirds_split : Splits
thirds_split = (1, 333) ∷ (2, 334) ∷ (3, 333) ∷ []

thirds_result : compute_splits thirds ≡ ok thirds_split
unfolding compute_splits assert_valid_total split_by_mode split_equal fill remainder_recipient
    give_rest
thirds_result = refl

-- Ten euros and a cent in the ratio of three to two, paid by somebody else.
abbrev three_to_two : SplitInput
three_to_two = record {
  total_cents = int (pos 1001);
  paid_by = 3;
  mode = percent;
  participants = 2 ∷ 1 ∷ [];
  exact_cents = none;
  weights_bp = some ((1, int (pos 4000)) ∷ (2, int (pos 6000)) ∷ []);
}

three_to_two-IsAccepted : IsAccepted three_to_two 1001
unfolding weight_of
three_to_two-IsAccepted = record {
  valid = refl;
  positive = omega arith;
  some_participant = λ h. cc;
  distinct = (refl, (refl, tt));
  mode = ((1, int (pos 4000)) ∷ (2, int (pos 6000)) ∷ [], refl, (λ h. cc, (λ h. cc, tt)), refl);
}

compute_splits-IsFair_example :
    (s : Splits) × (compute_splits three_to_two ≡ ok s)
    × IsFair (2 ∷ 1 ∷ []) 3 1001 (share percent 1001 three_to_two) s
compute_splits-IsFair_example =
    compute_splits-IsFair three_to_two 1001 three_to_two-IsAccepted (omega arith)

compute_splits_accepts_example : (total : ℕ) × IsAccepted thirds total
compute_splits_accepts_example = compute_splits_accepts thirds thirds_split thirds_result

abbrev halves : Splits
halves = (7, 2501) ∷ (8, 2500) ∷ []

halves_result : divide_room_weight (int (pos 5001)) (7 ∷ 8 ∷ []) ≡ ok halves
unfolding divide_room_weight hand_out
halves_result = refl

divide_room_weight_exact_example :
    (checked (int (pos 5001)) ≡ some (sum (values halves)))
    × (keys halves ≡ 7 ∷ 8 ∷ [])
    × Even (sum (values halves) / 2) halves
divide_room_weight_exact_example =
    divide_room_weight_exact (int (pos 5001)) (7 ∷ 8 ∷ []) halves halves_result

abbrev meals : List ExpenseRow
meals =
    record { paid_by = 2; splits = (1, pos 333) ∷ (2, pos 334) ∷ (3, pos 333) ∷ [] }
    ∷ record { paid_by = 1; splits = (2, pos 40) ∷ (3, pos 20) ∷ [] }
    ∷ []

abbrev payback : List PaymentRow
payback = record { from_user = 3; to_user = 2; amount_cents = pos 333; status = recorded } ∷ []

net-compute_balances_example :
    get_or (compute_balances meals payback).net 2 (pos 0)
    ≡ expenses_effect (member 2) meals +ℤ payments_effect (member 2) payback
net-compute_balances_example = net-compute_balances 2 meals payback

total-net-compute_balances_example : total (compute_balances meals payback).net ≡ pos 0
total-net-compute_balances_example = total-net-compute_balances meals payback

owed-compute_balances_example :
    owed 2 1 (compute_balances meals payback).pairwise
    ≡ expenses_effect (between 2 1) meals +ℤ payments_effect (between 2 1) payback
owed-compute_balances_example = owed-compute_balances 2 1 meals payback

pairwise-compute_balances-IsMinimal_example : IsMinimal (compute_balances meals payback).pairwise
pairwise-compute_balances-IsMinimal_example = pairwise-compute_balances-IsMinimal meals payback
