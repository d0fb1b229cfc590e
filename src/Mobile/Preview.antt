-- ===== src/Mobile/Preview.antt =====
-- apps/mobile/src/expenses/split-preview.ts: what an equal split will charge.
use homi_v.Prelude.{
  ℕ, ◌+◌, ◌-◌, ◌*◌, ◌/◌, ◌≡◌, ap, ◌∙◌, true, length, contains, arith, ◌==◌, if◌then◌else◌,
}
use homi_v.Prelude.Dict.{tabulate}
use homi_v.Prelude.Result.{ok}
use homi_v.Money.Split.{SplitInput, equal, compute_splits}
use homi_v.Money.Split.Form.{sum_of, with_rest}
use homi_v.Money.Split.Modes.{sum_of-const}
use homi_v.Money.Split.Fair.{share}
use homi_v.Money.Split.Total.{IsAccepted, compute_splits-share}

-- `{ eachCents, payerExtraCents }`
pub record SplitPreview : Type 0 where
  pub each_cents : ℕ
  pub payer_extra_cents : ℕ

-- `equalSplitPreview`
unfoldable pub equal_split_preview : ℕ → ℕ → SplitPreview
equal_split_preview total_cents participant_count =
    let each_cents = total_cents / participant_count in
    record {
      each_cents = each_cents;
      payer_extra_cents = total_cents - each_cents * participant_count;
    }

-- What the preview says of a participant.
abbrev pub previewed : SplitPreview → ℕ → ℕ → ℕ
previewed preview paid_by id =
    if id == paid_by then preview.each_cents + preview.payer_extra_cents else preview.each_cents

-- If the payer takes part in an equal split that the server accepts, the split that computeSplits
-- returns charges each participant what the preview says.
pub compute_splits-equal_split_preview :
    (input : SplitInput) (total : ℕ)
    → input.mode ≡ equal
    → IsAccepted input total
    → contains input.paid_by input.participants ≡ true
    → compute_splits input
      ≡ ok (
          tabulate
            (previewed (equal_split_preview total (length input.participants)) input.paid_by)
            input.participants)
unfolding equal_split_preview
compute_splits-equal_split_preview input total mode accepted among =
    let (s, found, fair) = compute_splits-share input total accepted in
    let each = total / length input.participants in
    let payer = fair.rule.payer among in
    let ids = input.participants in
    let shares : share input.mode total input ≡ (λ id. each) = ap (λ m. share m total input) mode in
    let spent = ap (λ g. sum_of g ids + fair.rest) shares in
    let extra : fair.rest ≡ total - each * length ids =
      omega (arith, spent, fair.adds_up, sum_of-const each ids) in
    found
    ∙ ap ok (
        fair.table
        ∙ (ap (λ g. tabulate (with_rest fair.recipient fair.rest g) ids) shares
            ∙ (ap (λ r. tabulate (with_rest r fair.rest (λ id. each)) ids) payer
                ∙ ap (λ x. tabulate (with_rest input.paid_by x (λ id. each)) ids) extra)))
