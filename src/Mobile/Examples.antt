-- ===== src/Mobile/Examples.antt =====
-- An amount of 5.34 and a preview for three.
use homi_v.Prelude.{◌≡◌, refl, some, length, arith}
use homi_v.Prelude.Decimal.{codes}
use homi_v.Prelude.Dict.{tabulate}
use homi_v.Prelude.Result.{ok}
use homi_v.Money.Split.{compute_splits}
use homi_v.Money.Examples.{thirds, thirds-IsAccepted}
use homi_v.Mobile.Amount.{parse_amount, cents_param_to_input}
use homi_v.Mobile.Amount.Laws.{parse_amount-cents_param_to_input}
use homi_v.Mobile.Preview.{equal_split_preview, previewed, compute_splits-equal_split_preview}

parse_amount-cents_param_to_input_example :
    parse_amount (cents_param_to_input (some (codes "534"))) b',' ≡ some 534
parse_amount-cents_param_to_input_example =
    parse_amount-cents_param_to_input (codes "534") b',' refl (omega arith) (omega arith)

compute_splits-equal_split_preview_example :
    compute_splits thirds
    ≡ ok (
        tabulate
          (previewed (equal_split_preview 1000 (length thirds.participants)) 2)
          thirds.participants)
compute_splits-equal_split_preview_example =
    compute_splits-equal_split_preview thirds 1000 refl thirds-IsAccepted refl
