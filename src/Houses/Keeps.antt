-- ===== src/Houses/Keeps.antt =====
-- What depends on no user, member, room or invite is kept by the mutations of a house.
use homi_v.Ledger.{event_of}
use homi_v.Activity.Laws.{
  Keeps-if, Keeps-pure, Keeps-bind, Keeps-query, Keeps-throw_if, Keeps, Keeps-execute, keeps_rules,
}
use homi_v.Prelude.{
  ◌+◌, ◌++◌, [], ◌∷◌, update_where, delete_where, ◌==◌, any, none, some, ℕ, Option, String, List,
}
use homi_v.Houses.Invites.{check_placeholder, invite_ttl_ms, create_invite_tx}
use homi_v.Db.{User, HouseMember, Room, Invite, ActivityEvent, unique_violation}
use homi_v.Activity.{TxState, execute, log}
use homi_v.Posting.{Env}
use homi_v.Houses.{require_admin, is_row}
use homi_v.Houses.Members.{
  create_placeholder_tx, rename_member, set_display_name_tx, same_name, placeholder_row,
}
use homi_v.Houses.Rooms.{RoomInput, replace_rooms, set_rooms_tx, created_rooms, assign_rooms}

-- The tables that the mutations of a house write may be any.
pub record Apart (P : TxState → Type 0) : Type 0 where
  pub users :
      (t : TxState) (us : List User)
      → P t
      → P (record t { db = (let d = t.db in record d { users = us }) })
  pub members :
      (t : TxState) (ms : List HouseMember)
      → P t
      → P (record t { db = (let d = t.db in record d { members = ms }) })
  pub rooms :
      (t : TxState) (rs : List Room)
      → P t
      → P (record t { db = (let d = t.db in record d { rooms = rs }) })
  pub invites :
      (t : TxState) (is : List Invite)
      → P t
      → P (record t { db = (let d = t.db in record d { invites = is }) })
  pub logs : (e : ActivityEvent) → Keeps P (log e)

module _ {P : TxState → Type 0} (apart : Apart P) where
  users-Keeps :
      (f : List User → List User) → Keeps P (execute (λ db. record db { users = f db.users }))
  users-Keeps f =
      Keeps-execute (λ db. record db { users = f db.users }) (λ t h. apart.users t (f t.db.users) h)

  members-Keeps :
      (f : List HouseMember → List HouseMember)
      → Keeps P (execute (λ db. record db { members = f db.members }))
  members-Keeps f =
      Keeps-execute (λ db. record db { members = f db.members })
        (λ t h. apart.members t (f t.db.members) h)

  rooms-Keeps :
      (f : List Room → List Room) → Keeps P (execute (λ db. record db { rooms = f db.rooms }))
  rooms-Keeps f =
      Keeps-execute (λ db. record db { rooms = f db.rooms }) (λ t h. apart.rooms t (f t.db.rooms) h)

  invites-Keeps :
      (f : List Invite → List Invite)
      → Keeps P (execute (λ db. record db { invites = f db.invites }))
  invites-Keeps f =
      Keeps-execute (λ db. record db { invites = f db.invites })
        (λ t h. apart.invites t (f t.db.invites) h)

  require_admin-Keeps : (house_id user_id : ℕ) → Keeps P (require_admin house_id user_id)
  unfolding require_admin
  require_admin-Keeps house_id user_id = search keeps_rules

  replace_rooms-Keeps :
      (new_id : ℕ → ℕ) (house_id : ℕ) (rooms : List RoomInput)
      → Keeps P (replace_rooms new_id house_id rooms)
  unfolding replace_rooms
  replace_rooms-Keeps new_id house_id rooms =
      let vacated =
        members-Keeps
          (update_where (λ m. m.house_id == house_id) (λ m. record m { room_id = none })) in
      let deleted = rooms-Keeps (delete_where (λ r. r.house_id == house_id)) in
      let added = rooms-Keeps (λ rs. rs ++ created_rooms new_id 0 house_id rooms) in
      let moved_in = members-Keeps (assign_rooms new_id 0 house_id rooms) in
      search (keeps_rules, vacated, deleted, added, moved_in) depth 9

  pub set_rooms_tx-Keeps :
      (new_id : ℕ → ℕ) (house_id actor_id : ℕ) (rooms : List RoomInput)
      → Keeps P (set_rooms_tx new_id house_id actor_id rooms)
  unfolding set_rooms_tx
  set_rooms_tx-Keeps new_id house_id actor_id rooms =
      let logs = apart.logs in
      search (keeps_rules, require_admin-Keeps, replace_rooms-Keeps, logs) depth 9

  rename_member-Keeps :
      (house_id user_id : ℕ) (display_name : Option String) (current : HouseMember)
      → Keeps P (rename_member house_id user_id display_name current)
  unfolding rename_member
  rename_member-Keeps house_id user_id display_name current =
      let renamed =
        members-Keeps (
          update_where (is_row house_id user_id) (λ m. record m { display_name = display_name })) in
      Keeps-if (same_name current.display_name display_name) _ _ (Keeps-pure display_name) (
        Keeps-bind _ _ renamed (λ _.
          Keeps-bind _ _ (apart.logs (event_of house_id user_id "member.renamed" "member" user_id))
            (λ _. Keeps-pure display_name)))

  pub set_display_name_tx-Keeps :
      (house_id user_id : ℕ) (display_name : Option String)
      → Keeps P (set_display_name_tx house_id user_id display_name)
  unfolding set_display_name_tx
  set_display_name_tx-Keeps house_id user_id display_name =
      search (keeps_rules, rename_member-Keeps)

  pub create_placeholder_tx-Keeps :
      (env : Env) (house_id actor_id : ℕ) (name : String)
      → Keeps P (create_placeholder_tx env house_id actor_id name)
  unfolding create_placeholder_tx
  create_placeholder_tx-Keeps env house_id actor_id name =
      let user = users-Keeps (λ us.
        us ++ record { id = env.new_id; name = name; email = none; deleted_at = none } ∷ []) in
      let row = members-Keeps (λ ms. ms ++ placeholder_row env house_id ∷ []) in
      Keeps-bind _ _ (require_admin-Keeps house_id actor_id) (λ _.
        Keeps-bind _ _ (Keeps-query (λ db. any (λ u. u.id == env.new_id) db.users)) (λ taken.
          Keeps-bind _ _ (Keeps-throw_if taken (unique_violation "users_pkey")) (λ _.
            Keeps-bind _ _ user (λ _. Keeps-bind _ _ row (λ _.
              Keeps-bind _ _
                (apart.logs
                  (event_of house_id actor_id "member.placeholder_added" "member" env.new_id))
                (λ _. Keeps-pure env.new_id))))))

  check_placeholder-Keeps :
      (house_id : ℕ) (placeholder_id : Option ℕ)
      → Keeps P (check_placeholder house_id placeholder_id)
  unfolding check_placeholder
  check_placeholder-Keeps house_id none = search keeps_rules
  check_placeholder-Keeps house_id (some id) = search keeps_rules

  pub create_invite_tx-Keeps :
      (env : Env) (max_uses token_hash house_id actor_id : ℕ) (placeholder_id : Option ℕ)
      → Keeps P (create_invite_tx env max_uses token_hash house_id actor_id placeholder_id)
  unfolding create_invite_tx
  create_invite_tx-Keeps env max_uses token_hash house_id actor_id placeholder_id =
      let invite : Invite = record {
        id = env.new_id;
        house_id = house_id;
        token_hash = token_hash;
        created_by = actor_id;
        placeholder_user_id = placeholder_id;
        expires_at = env.now + invite_ttl_ms;
        max_uses = max_uses;
        uses = 0;
        revoked_at = none;
      } in
      let added = invites-Keeps (λ is. is ++ invite ∷ []) in
      Keeps-bind _ _ (require_admin-Keeps house_id actor_id) (λ _.
        Keeps-bind _ _ (check_placeholder-Keeps house_id placeholder_id) (λ _.
          Keeps-bind _ _ (Keeps-query (λ db. any (λ i. i.token_hash == token_hash) db.invites))
            (λ taken.
              Keeps-bind _ _ (Keeps-throw_if taken (unique_violation "invites_token_hash"))
                (λ _. Keeps-bind _ _ added (λ _. Keeps-pure invite)))))
