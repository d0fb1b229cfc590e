-- ===== src/Houses/Snapshot.antt =====
-- The reads of snapshot.service.ts: the members and the action items of a caller.
pub mod Confirmed
pub mod Examples
use homi_v.Prelude.{
  ℕ, ◌+◌, Bool, true, false, not, ◌&&◌, Option, none, some, String, List, [], ◌∷◌, ◌++◌, map, find,
  keep, ltb, leb, ◌==◌, if◌then◌else◌,
}
use homi_v.Prelude.Int.{ℤ}
use homi_v.Prelude.Sort.{sort_by}
use homi_v.Money.Balances.{Balances, Debt, recorded}
use homi_v.Db.{Db, HouseMember, Payment, Role, User}
use homi_v.Posting.{is_null}
use homi_v.Ledger.Payments.{dispute_window_ms, has_status}
use homi_v.Ledger.Reading.{get_balances}
use homi_v.Ledger.Feed.{goes_before, payment_key}

-- A row of the join of the members with their users.
pub record SnapshotMember : Type 0 where
  pub user_id : ℕ
  pub name : String
  pub display_name : Option String
  pub role : Role
  pub is_placeholder : Bool
  pub room_id : Option ℕ
  pub joined_at : ℕ

unfoldable pub join_users : List User → List HouseMember → List SnapshotMember
join_users users [] = []
join_users users (m ∷ members) = elim (find (λ u. u.id == m.user_id) users) [
  | none ↦ join_users users members
  | some u ↦
      record {
        user_id = m.user_id;
        name = u.name;
        display_name = m.display_name;
        role = m.role;
        is_placeholder = m.is_placeholder;
        room_id = m.room_id;
        joined_at = m.joined_at;
      }
      ∷ join_users users members
]

unfoldable pub snapshot_members : ℕ → Db → List SnapshotMember
snapshot_members house_id db =
    sort_by (λ a b. leb a.joined_at b.joined_at)
      (join_users db.users (keep (λ m. m.house_id == house_id && is_null m.left_at) db.members))

pub data ActionItem : Type 0 where
  settle_up : ℕ → ℤ → ActionItem
  confirm_payment : ℕ → ℕ → ℕ → ℕ → ActionItem

-- What the caller owes.
abbrev pub debt_items : ℕ → List Debt → List ActionItem
debt_items user_id pairwise =
    map (λ d. settle_up d.to d.amount_cents) (keep (λ d. d.from == user_id) pairwise)

-- A recorded payment to the caller whose time is later than 72 hours ago.
abbrev pub is_disputable : ℕ → ℕ → ℕ → Payment → Bool
is_disputable house_id user_id now p =
    p.house_id == house_id
    && p.to_user == user_id
    && has_status recorded p
    && ltb now (p.created_at + dispute_window_ms)

unfoldable pub disputable_payments : ℕ → ℕ → ℕ → List Payment → List Payment
disputable_payments house_id user_id now ps =
    sort_by (λ a b. goes_before (payment_key a) (payment_key b))
      (keep (is_disputable house_id user_id now) ps)

abbrev pub confirmation_items : List Payment → List ActionItem
confirmation_items =
    map (λ p. confirm_payment p.id p.from_user p.amount_cents (p.created_at + dispute_window_ms))

unfoldable pub action_items : ℕ → ℕ → ℕ → Db → List ActionItem
action_items house_id user_id now db =
    debt_items user_id (get_balances house_id db).pairwise
    ++ confirmation_items (disputable_payments house_id user_id now db.payments)
