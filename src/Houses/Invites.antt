-- ===== src/Houses/Invites.antt =====
-- InvitesService: createInvite, previewInvite and acceptInvite. A token is known by its hash, and
-- the link that it goes into is left out.
pub mod Claimable
pub mod Sound
use homi_v.Prelude.{
  ℕ, ◌+◌, ◌*◌, Bool, true, false, not, ◌&&◌, Option, none, some, String, [], ◌∷◌, ◌++◌, any, find,
  update_where, ltb, leb, ◌==◌, if◌then◌else◌,
}
use homi_v.Prelude.Result.{Result}
use homi_v.Db.{Error, bad_request, Invite, HouseMember, member, unique_violation, check_violation}
use homi_v.Activity.{
  Tx, ◌>>=◌, ◌>>◌, query, or_throw, throw_if, pure, execute, log, World, transact,
}
use homi_v.Posting.{is_null, Env}
use homi_v.Ledger.{event_of, find_house}
use homi_v.Houses.{require_admin, is_row}
use homi_v.Houses.Claim.{claim_history}

abbrev pub invite_ttl_ms : ℕ
invite_ttl_ms = 7 * 24 * 60 * 60 * 1000

-- A placeholder's membership row.
abbrev pub is_placeholder_row : ℕ → ℕ → HouseMember → Bool
is_placeholder_row house_id user_id m = is_row house_id user_id m && m.is_placeholder

abbrev unclaimed : Option HouseMember → Bool
unclaimed none = false
unclaimed (some m) = is_null m.claimed_by

-- The check of `createInvite`: the placeholder is in the house, and nobody has claimed it.
unfoldable pub check_placeholder : ℕ → Option ℕ → Tx (Unit {0})
check_placeholder house_id none = pure tt
check_placeholder house_id (some placeholder_id) = do
  row ← query (λ db.
      find (λ m. is_placeholder_row house_id placeholder_id m && is_null m.left_at) db.members)
  throw_if (not (unclaimed row))
      (bad_request "placeholderId must be an unclaimed placeholder of this house")

-- `max_uses` is the column's default.
unfoldable pub create_invite_tx : Env → ℕ → ℕ → ℕ → ℕ → Option ℕ → Tx Invite
create_invite_tx env max_uses token_hash house_id actor_id placeholder_id = do
  require_admin house_id actor_id
  check_placeholder house_id placeholder_id
  taken ← query (λ db. any (λ i. i.token_hash == token_hash) db.invites)
  throw_if taken (unique_violation "invites_token_hash")
  let invite : Invite = record {
    id = env.new_id;
    house_id = house_id;
    token_hash = token_hash;
    created_by = actor_id;
    placeholder_user_id = placeholder_id;
    expires_at = env.now + invite_ttl_ms;
    max_uses = max_uses;
    uses = 0;
    revoked_at = none;
  }
  execute (λ db. record db { invites = db.invites ++ invite ∷ [] })
  pure invite

-- The invite is not revoked, has not expired, and has a use left.
abbrev pub is_usable : ℕ → Invite → Bool
is_usable now i = is_null i.revoked_at && not (ltb i.expires_at now) && not (leb i.max_uses i.uses)

unfoldable pub usable : ℕ → Option Invite → Option Invite
usable now none = none
usable now (some i) = if is_usable now i then some i else none

pub record Preview : Type 0 where
  pub house_id : ℕ
  pub house_name : String
  pub invited_by_name : String
  pub expires_at : ℕ
  pub placeholder_name : Option String

-- The name that the invite's placeholder goes by, if it can still be claimed.
pub placeholder_name : Invite → ℕ → Tx (Option String)
placeholder_name invite placeholder_id = do
  row ← query (λ db. find (is_row invite.house_id placeholder_id) db.members)
  m ← or_throw row (bad_request "This invite link is no longer valid")
  user ← query (λ db. find (λ u. u.id == placeholder_id) db.users)
  u ← or_throw user (bad_request "This invite link is no longer valid")
  throw_if (not (is_null m.claimed_by)) (bad_request "This invite link is no longer valid")
  pure (elim m.display_name [ none ↦ some u.name | some name ↦ some name ])

pub preview_invite : ℕ → ℕ → Tx Preview
preview_invite now token_hash = do
  row ← query (λ db. find (λ i. i.token_hash == token_hash) db.invites)
  invite ← or_throw (usable now row) (bad_request "This invite link is no longer valid")
  home ← query (find_house invite.house_id)
  house ← or_throw home (bad_request "This invite link is no longer valid")
  host ← query (λ db. find (λ u. u.id == invite.created_by) db.users)
  inviter ← or_throw host (bad_request "This invite link is no longer valid")
  name ← elim invite.placeholder_user_id [
    | none ↦ pure none
    | some placeholder_id ↦ placeholder_name invite placeholder_id
  ]
  pure (record {
    house_id = invite.house_id;
    house_name = house.name;
    invited_by_name = inviter.name;
    expires_at = invite.expires_at;
    placeholder_name = name;
  })

pub record Accepted : Type 0 where
  pub house_id : ℕ
  pub already_member : Bool
  pub claimed_placeholder_id : Option ℕ

-- `existing?.leftAt === null`
abbrev pub still_in : Option HouseMember → Bool
still_in none = false
still_in (some m) = is_null m.left_at

abbrev claimable : Option HouseMember → Option HouseMember
claimable none = none
claimable (some m) = if is_null m.claimed_by && is_null m.left_at then some m else none

-- The room of the placeholder that the invite is bound to, which nobody has claimed.
unfoldable pub inherited_room : Invite → Tx (Option ℕ)
inherited_room invite = elim invite.placeholder_user_id [
  | none ↦ pure none
  | some placeholder_id ↦ do
    row ← query (λ db. find (is_placeholder_row invite.house_id placeholder_id) db.members)
    m ← or_throw (claimable row) (bad_request "This placeholder was already claimed")
    pure m.room_id
]

-- The membership row of a user who joins by an invite.
abbrev pub joined_row : ℕ → Invite → ℕ → Option ℕ → HouseMember
joined_row now invite user_id room = record {
  house_id = invite.house_id;
  user_id = user_id;
  role = member;
  display_name = none;
  is_placeholder = false;
  claimed_by = none;
  room_id = room;
  joined_at = now;
  left_at = none;
}

-- A new membership row; nothing happens if there is one.
pub insert_member : ℕ → Invite → ℕ → Option ℕ → Tx Bool
insert_member now invite user_id room = do
  taken ← query (λ db. any (is_row invite.house_id user_id) db.members)
  (if taken then pure false else (do
    execute (λ db. record db { members = db.members ++ joined_row now invite user_id room ∷ [] })
    pure true))

pub reactivate : ℕ → Invite → ℕ → Option ℕ → Tx (Unit {0})
reactivate now invite user_id room = execute (λ db. record db {
  members =
      update_where (is_row invite.house_id user_id)
        (λ m. record m { left_at = none; joined_at = now; role = member; room_id = room })
        db.members;
})

-- How the user is a member afterwards, with whether they were one before; `none` where the accept
-- ends because a concurrent one has won the insert.
unfoldable pub join : ℕ → Invite → ℕ → Option ℕ → Option HouseMember → Tx (Option Bool)
join now invite user_id room none = do
  inserted ← insert_member now invite user_id room
  pure (
      if inserted
      then some false
      else (if is_null invite.placeholder_user_id then none else some true))
join now invite user_id room (some existing) =
    if is_null existing.left_at
    then pure (some true)
    else (do reactivate now invite user_id room; pure (some false))

-- The claimer takes the placeholder's room, unless they occupy one.
unfoldable pub take_room : Invite → ℕ → Option ℕ → Tx (Unit {0})
take_room invite user_id none = pure tt
take_room invite user_id (some room) = execute (λ db. record db {
  members =
      update_where (λ m. is_row invite.house_id user_id m && is_null m.room_id && is_null m.left_at)
        (λ m. record m { room_id = some room }) db.members;
})

unfoldable pub claim : ℕ → Invite → ℕ → Option ℕ → Option ℕ → Tx (Unit {0})
claim now invite user_id room none = pure tt
claim now invite user_id room (some placeholder_id) = do
  take_room invite user_id room
  claim_history now invite.house_id placeholder_id user_id
  log (event_of invite.house_id user_id "member.claimed" "member" user_id)

-- The increment, with the check of the table.
unfoldable pub consume_use : Invite → Tx (Unit {0})
consume_use invite = do
  spent ← query (λ db. any (λ i. i.id == invite.id && leb i.max_uses i.uses) db.invites)
  throw_if spent (check_violation "chk_invites_uses_within_max")
  execute (λ db. record db {
    invites =
        update_where (λ i. i.id == invite.id) (λ i. record i { uses = i.uses + 1 }) db.invites;
  })

abbrev pub accepted : Invite → Bool → Option ℕ → Accepted
accepted invite already claimed = record {
  house_id = invite.house_id;
  already_member = already;
  claimed_placeholder_id = claimed;
}

-- The end of an accept: `none` is the early return.
unfoldable pub settle_accept : ℕ → Invite → ℕ → Option ℕ → Option Bool → Tx Accepted
settle_accept now invite user_id room none = pure (accepted invite true none)
settle_accept now invite user_id room (some already) = do
  claim now invite user_id room invite.placeholder_user_id
  consume_use invite
  (if already
      then pure tt
      else log (event_of invite.house_id user_id "member.joined" "member" user_id))
  pure (accepted invite already invite.placeholder_user_id)

-- What follows the check of the invite and the lookup of the membership.
unfoldable pub accept_usable : ℕ → Invite → ℕ → Option HouseMember → Tx Accepted
accept_usable now invite user_id existing =
    if still_in existing && is_null invite.placeholder_user_id
    then pure (accepted invite true none)
    else (do
      room ← inherited_room invite
      joined ← join now invite user_id room existing
      settle_accept now invite user_id room joined)

unfoldable pub accept_invite_tx : ℕ → ℕ → ℕ → Tx Accepted
accept_invite_tx now token_hash user_id = do
  row ← query (λ db. find (λ i. i.token_hash == token_hash) db.invites)
  invite ← or_throw (usable now row) (bad_request "This invite link is no longer valid")
  existing ← query (λ db. find (is_row invite.house_id user_id) db.members)
  accept_usable now invite user_id existing

unfoldable pub accept_invite : ℕ → ℕ → ℕ → World → Result Error Accepted × World
accept_invite now token_hash user_id = transact (accept_invite_tx now token_hash user_id)
