-- ===== src/Houses.antt =====
-- apps/api/src/houses and the role gate of apps/api/src/auth/house-role.ts.
pub mod Keeps
pub mod Claim
pub mod Members
pub mod Rooms
pub mod Snapshot
pub mod Service
pub mod Invites
pub mod Examples
use homi_v.Prelude.{
  ℕ, Bool, true, false, not, ◌&&◌, Option, none, some, String, List, find, ◌==◌, if◌then◌else◌,
}
use homi_v.Prelude.Result.{Result, ok, err}
use homi_v.Db.{Db, Error, forbidden, HouseMember, Role, admin, member}
use homi_v.Activity.{Tx, ◌>>=◌, query, throw_if}
use homi_v.Posting.{active_member}

-- `activeMemberRole`
unfoldable pub active_member_role : ℕ → ℕ → Db → Option Role
active_member_role house_id user_id db = elim (active_member house_id user_id db) [
  | none ↦ none
  | some m ↦ some m.role
]

abbrev pub is_admin : Option Role → Bool
is_admin none = false
is_admin (some admin) = true
is_admin (some member) = false

-- `requireAdmin`; the message names the action.
pub require_admin : ℕ → ℕ → Tx (Unit {0})
require_admin house_id user_id = do
  role ← query (active_member_role house_id user_id)
  throw_if (not (is_admin role)) (forbidden "Only house admins can")

-- The membership row of a user, who may have left.
abbrev pub is_row : ℕ → ℕ → HouseMember → Bool
is_row house_id user_id m = m.house_id == house_id && m.user_id == user_id
