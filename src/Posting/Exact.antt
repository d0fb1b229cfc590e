-- ===== src/Posting/Exact.antt =====
-- What `resolveSplits` returns, with or without members that are read before.
use homi_v.Prelude.{ℕ, ◌≡◌, sym, subst, Option, List, [], sum, Distinct}
use homi_v.Prelude.Dict.{keys, values}
use homi_v.Activity.{TxState}
use homi_v.Activity.Hoare.{Ensures}
use homi_v.Activity.Laws.{>>=-eq-ok}
use homi_v.Posting.{ActiveMember, members_for, by_user, ResolveSplitsInput, resolve_splits}
use homi_v.Posting.Resolve.{resolve_with-guards, split_among-eq-ok, resolve_splits-Keeps}

-- The splits add up to the amount and name nobody twice, and nothing is written.
pub resolve_splits-Ensures :
    (P : TxState → Type 0) (house_id : ℕ) (input : ResolveSplitsInput)
    (preloaded : Option (List ActiveMember))
    → Ensures P
        (resolve_splits house_id input preloaded)
        (λ s t. (P t) × ((sum (values s) ≡ input.amount_cents) × Distinct (keys s)))
unfolding resolve_splits
resolve_splits-Ensures P house_id input preloaded = record {
  after = λ t s t' h e.
      let (ms, t1, _, h1) = >>=-eq-ok (members_for house_id input preloaded) _ t e in
      let d = by_user ms [] in
      let (_, _, h2) = resolve_with-guards house_id input d t1 h1 in
      let (adds_up, names, distinct) = split_among-eq-ok house_id input d t1 s t' h2 in
      (
        (resolve_splits-Keeps {P = P} house_id input preloaded).at t s t' h e,
        (adds_up, subst Distinct (sym names) distinct),
      );
}
