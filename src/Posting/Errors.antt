-- ===== src/Posting/Errors.antt =====
-- resolveSplits throws no violation of a unique key.
use homi_v.Prelude.Dict.{lookup, insert, Dict, values}
use homi_v.Prelude.{
  ℕ, ◌≡◌, refl, subst, Bool, true, false, not, Option, none, some, List, [], ◌∷◌, map,
  if◌then◌else◌, keep,
}
use homi_v.Prelude.Int.{pos}
use homi_v.Prelude.Result.{Result, ok, err}
use homi_v.Money.Number.{int}
use homi_v.Money.Split.{Splits, SplitError, compute_splits}
use homi_v.Money.Rooms.{divide_room_weight}
use homi_v.Db.{Db, Error, posting_problem, Room, split_error}
use homi_v.Activity.{Tx, TxState, ◌>>=◌, ◌>>◌, pure, query, lift, throw_if, execute}
use homi_v.Idempotency.{is_unique_violation}
use homi_v.Posting.{
  ActiveMember, ResolveSplitsInput, members_for, resolve_splits, resolve_with, split_among,
  weights_to_use, derive_room_weights, share_rooms, weights_for, to_error, user_of, in_room,
  sort_occupants, set_all, by_user, split_input, unknown_in, involved_in, placeholder_in,
  is_room_weighted, is_null,
}

-- The error is no violation of a unique key.
abbrev pub Other : Error → Type 0
Other e = is_unique_violation e ≡ false

-- From a state with `P`, the step throws no violation of a unique key.
pub record Throws {A : Type 0} (P : TxState → Type 0) (m : Tx A) : Type 0 where
  pub at : (t : TxState) (e : Error) → P t → m t ≡ err e → Other e

abbrev pub Any : TxState → Type 0
Any t = Unit

pub err-same : {A : Type 0} (e e' : Error) → ◌≡◌ {A = Result Error A} (err e) (err e') → e ≡ e'
err-same e e' h = cc

module _ {A B : Type 0} where
  pub Throws-bind :
      {P Q : TxState → Type 0} (m : Tx A) (f : A → Tx B)
      → Throws P m
      → ((t : TxState) (a : A) (t' : TxState) → P t → m t ≡ ok (a, t') → Q t')
      → ((a : A) → Throws Q (f a))
      → Throws P (m >>= f)
  Throws-bind {P} {Q} m f first between next = record { at = λ t e p h. go t e p (m t) refl h }
    where
      go :
          (t : TxState) (e : Error)
          → P t
          → (x : Result Error (A × TxState)) → m t ≡ x
          → (elim x [ err e ↦ err e | ok (a, t') ↦ f a t' ]) ≡ err e
          → Other e
      go t e p (err x) is h = subst Other (err-same x e h) (first.at t x p is)
      go t e p (ok (a, t')) is h = (next a).at t' e (between t a t' p is) h

module _ {P : TxState → Type 0} where
  pub Throws-pure : {A : Type 0} (a : A) → Throws P (pure a)
  Throws-pure a = record { at = λ t e p h. cc }

  pub Throws-query : {A : Type 0} (f : Db → A) → Throws P (query f)
  Throws-query f = record { at = λ t e p h. cc }

  pub Throws-execute : (f : Db → Db) → Throws P (execute f)
  Throws-execute f = record { at = λ t e p h. cc }

  pub Throws-throw_if : (b : Bool) (x : Error) → Other x → Throws P (throw_if b x)
  Throws-throw_if true x other = record { at = λ t e p h. subst Other (err-same x e h) other }
  Throws-throw_if false x other = record { at = λ t e p h. cc }

  pub Throws-lift :
      {A : Type 0} (r : Result Error A) → ((e : Error) → r ≡ err e → Other e) → Throws P (lift r)
  Throws-lift (ok a) k = record { at = λ t e p h. cc }
  Throws-lift (err x) k = record { at = λ t e p h. subst Other (err-same x e h) (k x refl) }

share_rooms-Other :
    (members : Dict ActiveMember) (rooms : List Room) (shares : Dict ℕ) (e : Error)
    → share_rooms members rooms shares ≡ err e
    → Other e
unfolding share_rooms
share_rooms-Other members [] shares e h = cc
share_rooms-Other members (room ∷ rooms) shares e h =
    by_shares (λ shares' k. share_rooms-Other members rooms shares' e k)
      (divide_room_weight (int (pos room.weight_bp))
        (map user_of (sort_occupants (keep (in_room room.id) (values members)))))
      h
  where
    by_shares :
        ((shares' : Dict ℕ) → share_rooms members rooms shares' ≡ err e → Other e)
        → (r : Result SplitError Splits)
        → (elim r [
          | err x ↦ err (split_error x)
          | ok s ↦ share_rooms members rooms (set_all s shares)
        ])
          ≡ err e
        → Other e
    by_shares go (err x) k = subst Other (err-same (split_error x) e k) refl
    by_shares go (ok s) k = go (set_all s shares) k

weights_for-Other :
    (shares : Dict ℕ) (ids : List ℕ) (weights : Dict ℕ) (e : Error)
    → weights_for shares ids weights ≡ err e
    → Other e
unfolding weights_for
weights_for-Other shares [] weights e h = cc
weights_for-Other shares (id ∷ ids) weights e h =
    by_share (λ weights' k. weights_for-Other shares ids weights' e k) (lookup id shares) h
  where
    by_share :
        ((weights' : Dict ℕ) → weights_for shares ids weights' ≡ err e → Other e)
        → (o : Option ℕ)
        → (elim o [
          | none ↦ err (posting_problem "Every participant needs a room for a room-weighted split")
          | some share ↦ weights_for shares ids (insert id share weights)
        ])
          ≡ err e
        → Other e
    by_share go none k = subst Other (err-same _ e k) refl
    by_share go (some share) k = go (insert id share weights) k

to_error-Other : {A : Type 0} (r : Result SplitError A) (e : Error) → to_error r ≡ err e → Other e
to_error-Other (ok a) e h = cc
to_error-Other (err x) e h = subst Other (err-same (split_error x) e h) refl

Throws-derive_room_weights :
    (house_id : ℕ) (participants : List ℕ) (members : Dict ActiveMember)
    → Throws Any (derive_room_weights house_id participants members)
unfolding derive_room_weights
Throws-derive_room_weights house_id participants members =
    Throws-bind _ _ (Throws-query _) (λ t a t' p h. tt)
      (λ rooms.
        Throws-bind _ _ (Throws-lift _ (share_rooms-Other members rooms [])) (λ t a t' p h. tt)
          (λ shares. Throws-lift _ (weights_for-Other shares participants [])))

Throws-weights_to_use :
    (house_id : ℕ) (input : ResolveSplitsInput) (members : Dict ActiveMember)
    → Throws Any (weights_to_use house_id input members)
unfolding weights_to_use
Throws-weights_to_use house_id input members = by_mode (is_room_weighted input.mode)
  where
    by_mode :
        (b : Bool)
        → Throws Any (
            if b
            then (throw_if (not (is_null input.weights_bp)) (
                  posting_problem
                    "room_weighted splits are derived from rooms; do not send weightsBp")
                >> (derive_room_weights house_id input.participants members >>= λ weights.
                    pure (some weights)))
            else pure input.weights_bp)
    by_mode true =
        Throws-bind _ _ (Throws-throw_if _ _ refl) (λ t a t' p h. tt)
          (λ _.
            Throws-bind _ _ (Throws-derive_room_weights house_id input.participants members)
              (λ t a t' p h. tt) (λ weights. Throws-pure (some weights)))
    by_mode false = Throws-pure input.weights_bp

Throws-split_among :
    (house_id : ℕ) (input : ResolveSplitsInput) (by_id : Dict ActiveMember)
    → Throws Any (split_among house_id input by_id)
unfolding split_among
Throws-split_among house_id input by_id =
    Throws-bind _ _ (Throws-weights_to_use house_id input by_id) (λ t a t' p h. tt)
      (λ weights. Throws-lift _ (to_error-Other (compute_splits (split_input input weights))))

Throws-resolve_with :
    (house_id : ℕ) (input : ResolveSplitsInput) (by_id : Dict ActiveMember)
    → Throws Any (resolve_with house_id input by_id)
unfolding resolve_with
Throws-resolve_with house_id input by_id =
    Throws-bind _ _
      (Throws-throw_if (unknown_in by_id (involved_in input))
        (posting_problem "Payer and all participants must be active house members") refl)
      (λ t a t' p h. tt)
      (λ _.
        Throws-bind _ _
          (Throws-throw_if (placeholder_in input.paid_by by_id)
            (posting_problem "A placeholder roommate cannot pay an expense") refl)
          (λ t a t' p h. tt) (λ _. Throws-split_among house_id input by_id))

pub Throws-resolve_splits :
    (house_id : ℕ) (input : ResolveSplitsInput) (members : List ActiveMember)
    → Throws Any (resolve_splits house_id input (some members))
unfolding resolve_splits members_for
Throws-resolve_splits house_id input members =
    Throws-bind _ _ (Throws-pure members) (λ t a t' p h. tt)
      (λ preloaded. Throws-resolve_with house_id input (by_user preloaded []))
