-- ===== src/Posting/Resolve.antt =====
-- `resolveSplits` reads, and what it returns is a split of the amount among active members.
use homi_v.Prelude.{
  ℕ, ◌≡◌, refl, sym, ◌∙◌, Bool, true, false, not, ◌&&◌, Option, none, some, List, [], ◌∷◌, ◌++◌,
  map, keep, any, contains, to_set, contains-to_set, Distinct, sum, arith, ◌==◌, if◌then◌else◌,
  ||-right,
}
use homi_v.Prelude.Dict.{Dict, lookup, keys, values}
use homi_v.Prelude.Int.{pos}
use homi_v.Prelude.Result.{Result, ok, err}
use homi_v.Money.Number.{int, checked}
use homi_v.Money.Split.{Splits, SplitError, compute_splits}
use homi_v.Money.Split.Total.{compute_splits-IsSplit, compute_splits_accepts}
use homi_v.Db.{Db}
use homi_v.Activity.{TxState}
use homi_v.Activity.Laws.{>>=-eq-ok, lift-eq-ok, Keeps, keeps_rules}
use homi_v.Posting.{
  ActiveMember, is_active, in_scope, to_active, by_user, lock_active_members, members_for,
  weights_to_use, derive_room_weights, to_error, unknown_in, placeholder_in, split_input,
  split_among, resolve_with, involved_in, ResolveSplitsInput, resolve_splits, is_room_weighted,
}
use homi_v.Posting.Members.{
  lookup_of_contains, any-false, contains-append, any_of_by_user, any-rows,
}

module _ {P : TxState → Type 0} where
  pub lock_active_members-Keeps :
      (house_id : ℕ) (ids : Option (List ℕ)) → Keeps P (lock_active_members house_id ids)
  unfolding lock_active_members
  lock_active_members-Keeps house_id ids = search keeps_rules

  members_for-Keeps :
      (house_id : ℕ) (input : ResolveSplitsInput) (ms : Option (List ActiveMember))
      → Keeps P (members_for house_id input ms)
  unfolding members_for
  members_for-Keeps house_id input none = search (keeps_rules, lock_active_members-Keeps)
  members_for-Keeps house_id input (some ms) = search keeps_rules

  derive_room_weights-Keeps :
      (house_id : ℕ) (ids : List ℕ) (d : Dict ActiveMember)
      → Keeps P (derive_room_weights house_id ids d)
  unfolding derive_room_weights
  derive_room_weights-Keeps house_id ids d = search keeps_rules

  weights_to_use-Keeps :
      (house_id : ℕ) (input : ResolveSplitsInput) (d : Dict ActiveMember)
      → Keeps P (weights_to_use house_id input d)
  unfolding weights_to_use
  weights_to_use-Keeps house_id input d = search (keeps_rules, derive_room_weights-Keeps)

  split_among-Keeps :
      (house_id : ℕ) (input : ResolveSplitsInput) (d : Dict ActiveMember)
      → Keeps P (split_among house_id input d)
  unfolding split_among
  split_among-Keeps house_id input d = search (keeps_rules, weights_to_use-Keeps)

  resolve_with-Keeps :
      (house_id : ℕ) (input : ResolveSplitsInput) (d : Dict ActiveMember)
      → Keeps P (resolve_with house_id input d)
  unfolding resolve_with
  resolve_with-Keeps house_id input d = search (keeps_rules, split_among-Keeps)

  pub resolve_splits-Keeps :
      (house_id : ℕ) (input : ResolveSplitsInput) (ms : Option (List ActiveMember))
      → Keeps P (resolve_splits house_id input ms)
  unfolding resolve_splits
  resolve_splits-Keeps house_id input ms =
      search (keeps_rules, members_for-Keeps, resolve_with-Keeps)

-- Somebody with this id is an active member of the house.
abbrev pub is_member : ℕ → ℕ → Db → Bool
is_member house_id id db = any (λ m. is_active house_id m && (m.user_id == id && true)) db.members

-- The same, and they are no placeholder.
abbrev pub may_act : ℕ → ℕ → Db → Bool
may_act house_id id db =
    any (λ m. is_active house_id m && (m.user_id == id && not m.is_placeholder)) db.members

pub record IsResolved (house_id : ℕ) (input : ResolveSplitsInput) (db : Db) (s : Splits)
    : Type 0 where
  pub adds_up : sum (values s) ≡ input.amount_cents
  pub names : keys s ≡ input.participants
  pub distinct : Distinct input.participants
  pub active : (id : ℕ) → contains id input.participants ≡ true → is_member house_id id db ≡ true
  pub payer : may_act house_id input.paid_by db ≡ true

-- A number of cents that passes `checked` is itself.
checked-pos : (n m : ℕ) → checked (int (pos n)) ≡ some m → n ≡ m
checked-pos n m h = ground arith

to_error-eq-ok : {A : Type 0} (r : Result SplitError A) {a : A} → to_error r ≡ ok a → r ≡ ok a
to_error-eq-ok (ok x) h = cc
to_error-eq-ok (err e) h = cc

-- The rows that the query selects for the request.
selected :
    (house_id : ℕ) (input : ResolveSplitsInput) (t : TxState) {ms : List ActiveMember}
    {t' : TxState}
    → members_for house_id input none t ≡ ok (ms, t')
    → (scope : Option (List ℕ)) × (ms
        ≡ map to_active (keep (λ m. is_active house_id m && in_scope scope m) t.db.members))
unfolding members_for lock_active_members
selected house_id input t h =
    (if is_room_weighted input.mode then none else some (involved_in input), cc)

pub split_among-eq-ok :
    (house_id : ℕ) (input : ResolveSplitsInput) (d : Dict ActiveMember) (t : TxState) (s : Splits)
    (t' : TxState)
    → split_among house_id input d t ≡ ok (s, t')
    → (sum (values s) ≡ input.amount_cents)
      × (keys s ≡ input.participants)
      × Distinct input.participants
unfolding split_among
split_among-eq-ok house_id input d t s t' h =
    let (w, t1, _, h1) = >>=-eq-ok (weights_to_use house_id input d) _ t h in
    let (computed, _) = lift-eq-ok (to_error (compute_splits (split_input input w))) t1 h1 in
    let (adds_up, names) =
      compute_splits-IsSplit (split_input input w) s (to_error-eq-ok _ computed) in
    let (_, accepted) =
      compute_splits_accepts (split_input input w) s (to_error-eq-ok _ computed) in
    (sym (checked-pos _ _ adds_up), names, accepted.distinct)

pub resolve_with-guards :
    (house_id : ℕ) (input : ResolveSplitsInput) (d : Dict ActiveMember) (t : TxState)
    {r : Splits × TxState}
    → resolve_with house_id input d t ≡ ok r
    → (unknown_in d (involved_in input) ≡ false)
      × (placeholder_in input.paid_by d ≡ false)
      × (split_among house_id input d t ≡ ok r)
unfolding resolve_with
resolve_with-guards house_id input d t h = ground arith

known :
    (input : ResolveSplitsInput) (d : Dict ActiveMember) (id : ℕ)
    → unknown_in d (involved_in input) ≡ false
    → contains id (input.participants ++ input.paid_by ∷ []) ≡ true
    → (m : ActiveMember) × (lookup id d ≡ some m)
unfolding unknown_in
known input d id h c =
    let all = input.participants ++ input.paid_by ∷ [] in
    let here =
      any-false (λ i. not (contains i (keys d))) id (to_set all) (contains-to_set id all ∙ c) h in
    lookup_of_contains id d (ground arith)

-- What the map says of a user is true of a row of the house.
module _ (house_id : ℕ) (input : ResolveSplitsInput) (t : TxState) (ms : List ActiveMember)
    (t' : TxState) (read : members_for house_id input none t ≡ ok (ms, t')) where
  row_of :
      (p : ActiveMember → Bool) (id : ℕ) (m : ActiveMember)
      → lookup id (by_user ms []) ≡ some m
      → p m ≡ true
      → any (λ r. is_active house_id r && (r.user_id == id && p (to_active r))) t.db.members ≡ true
  row_of p id m found q =
      let (scope, rows) = selected house_id input t read in
      any-rows p id house_id scope t.db.members (rw (← rows) (any_of_by_user p id ms found q))

acting :
    (id : ℕ) (d : Dict ActiveMember) (m : ActiveMember)
    → placeholder_in id d ≡ false
    → lookup id d ≡ some m
    → not m.is_placeholder ≡ true
unfolding placeholder_in
acting id d m h e = ground arith

-- A successful resolution splits the amount exactly among the participants in their order, none of
-- whom is named twice; each of them is an active member of the house, and so is the payer, who is
-- no placeholder.
pub resolve_splits-IsResolved :
    (house_id : ℕ) (input : ResolveSplitsInput) (t : TxState) (s : Splits) (t' : TxState)
    → resolve_splits house_id input none t ≡ ok (s, t')
    → (t' ≡ t) × IsResolved house_id input t.db s
unfolding resolve_splits
resolve_splits-IsResolved house_id input t s t' h =
    let (ms, t1, read, h1) = >>=-eq-ok (members_for house_id input none) _ t h in
    let d = by_user ms [] in
    let (all_known, acts, h2) = resolve_with-guards house_id input d t1 h1 in
    let (adds_up, names, distinct) = split_among-eq-ok house_id input d t1 s t' h2 in
    let here : (id : ℕ)
        → contains id input.participants ≡ true
        → contains id (input.participants ++ input.paid_by ∷ []) ≡ true =
      λ id c. contains-append id input.participants (input.paid_by ∷ []) ∙ ground arith in
    let last =
      contains-append input.paid_by input.participants (input.paid_by ∷ [])
      ∙ ||-right (contains input.paid_by input.participants)
          (contains input.paid_by (input.paid_by ∷ [])) (ground arith) in
    let row = row_of house_id input t ms t1 read in
    (
      (resolve_splits-Keeps {P = λ x. x ≡ t} house_id input none).at t s t' refl h,
      record {
        adds_up = adds_up;
        names = names;
        distinct = distinct;
        active = λ id c.
            let (m, found) = known input d id all_known (here id c) in
            row (λ m. true) id m found refl;
        payer =
            (let (m, found) = known input d input.paid_by all_known last in
              row (λ m. not m.is_placeholder) input.paid_by m found
                (acting input.paid_by d m acts found));
      },
    )
