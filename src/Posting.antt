-- ===== src/Posting.antt =====
-- packages/ledger/src/posting.ts: the money write core that the API and the worker share. The
-- SHARE locks are not modelled: here a transaction runs alone.
pub mod Members
pub mod Resolve
pub mod Exact
pub mod Insert
pub mod Errors
use homi_v.Prelude.{
  ℕ, ◌+◌, ◌<◌, Bool, true, false, not, ◌&&◌, ◌||◌, Option, none, some, String, List, [], ◌∷◌, ◌++◌,
  map, keep, any, find, contains, to_set, ltb, leb, ◌==◌, if◌then◌else◌,
}
use homi_v.Prelude.Dict.{Dict, lookup, insert, keys, values}
use homi_v.Prelude.Int.{pos}
use homi_v.Prelude.Result.{Result, ok, err}
use homi_v.Money.Number.{Number, int}
use homi_v.Money.Split.{SplitMode, room_weighted, Splits, SplitError, SplitInput, compute_splits}
use homi_v.Money.Rooms.{divide_room_weight}
use homi_v.Db.{
  Db, Error, posting_problem, split_error, unique_violation, check_violation, HouseMember, Room,
  Expense, ExpenseSplit,
}
use homi_v.Activity.{
  Tx, TxState, ◌>>=◌, ◌>>◌, pure, throw, throw_if, query, or_throw, lift, execute,
}

pub record ActiveMember : Type 0 where
  pub user_id : ℕ
  pub is_placeholder : Bool
  pub room_id : Option ℕ
  pub joined_at : ℕ

abbrev pub is_null {ℓ} : {A : Type ℓ} → Option A → Bool
is_null none = true
is_null (some _) = false

abbrev pub is_active : ℕ → HouseMember → Bool
is_active house_id m = m.house_id == house_id && is_null m.left_at

-- `inArray(userId, userIds)`, where ids are given.
abbrev pub in_scope : Option (List ℕ) → HouseMember → Bool
in_scope none m = true
in_scope (some user_ids) m = contains m.user_id user_ids

abbrev pub to_active : HouseMember → ActiveMember
to_active m = record {
  user_id = m.user_id;
  is_placeholder = m.is_placeholder;
  room_id = m.room_id;
  joined_at = m.joined_at;
}

unfoldable pub lock_active_members : ℕ → Option (List ℕ) → Tx (List ActiveMember)
lock_active_members house_id user_ids =
    query (λ db. map to_active (keep (λ m. is_active house_id m && in_scope user_ids m) db.members))

-- The membership row of a user who has not left.
unfoldable pub active_member : ℕ → ℕ → Db → Option HouseMember
active_member house_id user_id db =
    find (λ m. is_active house_id m && m.user_id == user_id) db.members

-- The messages name the subject and the verb of the caller.
unfoldable pub lock_acting_member : ℕ → ℕ → Tx (Unit {0})
lock_acting_member house_id user_id = do
  row ← query (active_member house_id user_id)
  m ← or_throw row (posting_problem "must be an active house member")
  throw_if m.is_placeholder (posting_problem "A placeholder roommate cannot")

-- The request, after the controller's schema: every number is a whole number of cents or basis
-- points that is not negative.
pub record ResolveSplitsInput : Type 0 where
  pub amount_cents : ℕ
  pub paid_by : ℕ
  pub mode : SplitMode
  pub participants : List ℕ
  pub exact_cents : Option (Dict ℕ)
  pub weights_bp : Option (Dict ℕ)

-- `new Map(members.map((m) => [m.userId, m]))`
unfoldable pub by_user : List ActiveMember → Dict ActiveMember → Dict ActiveMember
by_user [] d = d
by_user (m ∷ ms) d = by_user ms (insert m.user_id m d)

-- The rooms of the participants, `null` left out.
pub rooms_of : Dict ActiveMember → List ℕ → List ℕ
rooms_of d [] = []
rooms_of d (id ∷ ids) = elim (lookup id d) [
  | none ↦ rooms_of d ids
  | some m ↦ elim m.room_id [ none ↦ rooms_of d ids | some room ↦ room ∷ rooms_of d ids ]
]

abbrev pub in_room : ℕ → ActiveMember → Bool
in_room room m = elim m.room_id [ none ↦ false | some r ↦ r == room ]

-- `a.joinedAt - b.joinedAt || a.userId.localeCompare(b.userId)` is not positive.
abbrev joined_before : ActiveMember → ActiveMember → Bool
joined_before a b =
    ltb a.joined_at b.joined_at || (a.joined_at == b.joined_at && leb a.user_id b.user_id)

pub insert_occupant : ActiveMember → List ActiveMember → List ActiveMember
insert_occupant a [] = a ∷ []
insert_occupant a (b ∷ bs) = if joined_before a b then a ∷ b ∷ bs else b ∷ insert_occupant a bs

pub sort_occupants : List ActiveMember → List ActiveMember
sort_occupants [] = []
sort_occupants (a ∷ bs) = insert_occupant a (sort_occupants bs)

abbrev pub user_of : ActiveMember → ℕ
user_of m = m.user_id

abbrev pub to_error : {A : Type 0} → Result SplitError A → Result Error A
to_error (ok a) = ok a
to_error (err e) = err (split_error e)

-- `for (const [userId, share] of Object.entries(shares)) shareByUser.set(userId, share)`
pub set_all : Splits → Dict ℕ → Dict ℕ
set_all [] d = d
set_all ((k, v) ∷ s) d = set_all s (insert k v d)

pub share_rooms : Dict ActiveMember → List Room → Dict ℕ → Result Error (Dict ℕ)
share_rooms members [] shares = ok shares
share_rooms members (room ∷ rooms) shares =
    let occupants = sort_occupants (keep (in_room room.id) (values members)) in
    elim (divide_room_weight (int (pos room.weight_bp)) (map user_of occupants)) [
      | err e ↦ err (split_error e)
      | ok s ↦ share_rooms members rooms (set_all s shares)
    ]

-- The loop that collects the participants' weights.
pub weights_for : Dict ℕ → List ℕ → Dict ℕ → Result Error (Dict ℕ)
weights_for shares [] weights = ok weights
weights_for shares (id ∷ ids) weights = elim (lookup id shares) [
  | none ↦ err (posting_problem "Every participant needs a room for a room-weighted split")
  | some share ↦ weights_for shares ids (insert id share weights)
]

pub derive_room_weights : ℕ → List ℕ → Dict ActiveMember → Tx (Dict ℕ)
derive_room_weights house_id participants members = do
  let room_ids = to_set (rooms_of members participants)
  rooms ← query (λ db. keep (λ r. r.house_id == house_id && contains r.id room_ids) db.rooms)
  shares ← lift (share_rooms members rooms [])
  lift (weights_for shares participants [])

abbrev pub is_room_weighted : SplitMode → Bool
is_room_weighted room_weighted = true
is_room_weighted _ = false

abbrev pub to_numbers : Dict ℕ → Dict Number
to_numbers = map (λ e. (e.0, int (pos e.1)))

-- The weights of the call of `computeSplits`.
unfoldable pub weights_to_use : ℕ → ResolveSplitsInput → Dict ActiveMember → Tx (Option (Dict ℕ))
weights_to_use house_id input members =
    if is_room_weighted input.mode
    then (do
      throw_if (not (is_null input.weights_bp))
          (posting_problem "room_weighted splits are derived from rooms; do not send weightsBp")
      weights ← derive_room_weights house_id input.participants members
      pure (some weights))
    else pure input.weights_bp

abbrev pub involved_in : ResolveSplitsInput → List ℕ
involved_in input = to_set (input.participants ++ input.paid_by ∷ [])

-- `preloadedMembers ?? (await lockActiveMembers(...))`
unfoldable pub members_for :
    ℕ → ResolveSplitsInput → Option (List ActiveMember) → Tx (List ActiveMember)
members_for house_id input (some members) = pure members
members_for house_id input none =
    lock_active_members house_id
      (if is_room_weighted input.mode then none else some (involved_in input))

-- Some of the ids is in no row of the map.
unfoldable pub unknown_in : Dict ActiveMember → List ℕ → Bool
unknown_in members ids = any (λ id. not (contains id (keys members))) ids

unfoldable pub placeholder_in : ℕ → Dict ActiveMember → Bool
placeholder_in id members = elim (lookup id members) [ none ↦ false | some m ↦ m.is_placeholder ]

abbrev pub split_input : ResolveSplitsInput → Option (Dict ℕ) → SplitInput
split_input input weights = record {
  total_cents = int (pos input.amount_cents);
  paid_by = input.paid_by;
  mode = input.mode;
  participants = input.participants;
  exact_cents = elim input.exact_cents [ none ↦ none | some e ↦ some (to_numbers e) ];
  weights_bp = elim weights [ none ↦ none | some w ↦ some (to_numbers w) ];
}

-- `resolveSplits` from the weights on.
unfoldable pub split_among : ℕ → ResolveSplitsInput → Dict ActiveMember → Tx Splits
split_among house_id input by_id = do
  weights ← weights_to_use house_id input by_id
  lift (to_error (compute_splits (split_input input weights)))

-- `resolveSplits` from the first guard on.
unfoldable pub resolve_with : ℕ → ResolveSplitsInput → Dict ActiveMember → Tx Splits
resolve_with house_id input by_id = do
  throw_if (unknown_in by_id (involved_in input))
      (posting_problem "Payer and all participants must be active house members")
  throw_if (placeholder_in input.paid_by by_id)
      (posting_problem "A placeholder roommate cannot pay an expense")
  split_among house_id input by_id

unfoldable pub resolve_splits : ℕ → ResolveSplitsInput → Option (List ActiveMember) → Tx Splits
resolve_splits house_id input preloaded = do
  members ← members_for house_id input preloaded
  resolve_with house_id input (by_user members [])

pub record ExpenseSpec : Type 0 where
  pub house_id : ℕ
  pub description : String
  pub amount_cents : ℕ
  pub currency : String
  pub paid_by : ℕ
  pub category : Option String
  pub is_staple : Option Bool
  pub template_id : Option ℕ
  pub period : Option (List ℕ)
  pub created_by : ℕ

-- What the database supplies to an insert: a random id and its clock.
pub record Env : Type 0 where
  pub new_id : ℕ
  pub now : ℕ

abbrev pub same_text : List ℕ → List ℕ → Bool
same_text [] [] = true
same_text (a ∷ s) (b ∷ t) = a == b && same_text s t
same_text _ _ = false

-- The unique index on (template_id, period), and the primary key.
abbrev pub same_period : Option ℕ → Option (List ℕ) → Expense → Bool
same_period (some template) (some period) e =
    (elim e.template_id [ none ↦ false | some t ↦ t == template ])
    && (elim e.period [ none ↦ false | some p ↦ same_text p period ])
same_period _ _ e = false

abbrev pub split_rows : ℕ → Splits → List ExpenseSplit
split_rows expense_id =
    map (λ e. record { expense_id = expense_id; user_id = e.0; amount_cents = e.1 })

abbrev pub expense_row : Env → ExpenseSpec → Expense
expense_row env spec = record {
  id = env.new_id;
  house_id = spec.house_id;
  description = spec.description;
  amount_cents = spec.amount_cents;
  currency = spec.currency;
  paid_by = spec.paid_by;
  category = spec.category;
  is_staple = elim spec.is_staple [ none ↦ false | some b ↦ b ];
  template_id = spec.template_id;
  period = spec.period;
  created_by = spec.created_by;
  created_at = env.now;
  deleted_at = none;
}

unfoldable pub insert_expense : Env → ExpenseSpec → Splits → Tx Expense
insert_expense env spec splits = do
  rows ← query (λ db. db.expenses)
  throw_if (spec.amount_cents == 0) (check_violation "chk_expenses_amount_positive")
  throw_if (any (λ e. e.id == env.new_id) rows) (unique_violation "expenses_pkey")
  throw_if (any (same_period spec.template_id spec.period) rows)
      (unique_violation "uq_expenses_template_period")
  execute (λ db. record db { expenses = db.expenses ++ expense_row env spec ∷ [] })
  execute (λ db. record db { splits = db.splits ++ split_rows env.new_id splits })
  pure (expense_row env spec)
