-- ===== src/Houses/Members.antt =====
-- MembersService: createPlaceholder and setDisplayName.
pub mod Renamed
use homi_v.Prelude.{
  ℕ, Bool, true, false, ◌&&◌, Option, none, some, String, List, [], ◌∷◌, ◌++◌, any, find,
  update_where, str_eq, ◌==◌, if◌then◌else◌,
}
use homi_v.Prelude.Result.{Result, ok, err}
use homi_v.Db.{Db, Error, not_found, unique_violation, User, HouseMember, member}
use homi_v.Activity.{
  Tx, ◌>>=◌, ◌>>◌, query, or_throw, throw_if, pure, execute, log, World, transact,
}
use homi_v.Posting.{Env, active_member}
use homi_v.Ledger.{event_of}
use homi_v.Houses.{require_admin, is_row}

abbrev pub placeholder_row : Env → ℕ → HouseMember
placeholder_row env house_id = record {
  house_id = house_id;
  user_id = env.new_id;
  role = member;
  display_name = none;
  is_placeholder = true;
  claimed_by = none;
  room_id = none;
  joined_at = env.now;
  left_at = none;
}

-- The id that it returns is the placeholder's.
unfoldable pub create_placeholder_tx : Env → ℕ → ℕ → String → Tx ℕ
create_placeholder_tx env house_id actor_id name = do
  require_admin house_id actor_id
  taken ← query (λ db. any (λ u. u.id == env.new_id) db.users)
  throw_if taken (unique_violation "users_pkey")
  execute (λ db. record db {
    users =
        db.users ++ record { id = env.new_id; name = name; email = none; deleted_at = none } ∷ [];
  })
  execute (λ db. record db { members = db.members ++ placeholder_row env house_id ∷ [] })
  log (event_of house_id actor_id "member.placeholder_added" "member" env.new_id)
  pure env.new_id

abbrev pub same_name : Option String → Option String → Bool
same_name none none = true
same_name (some a) (some b) = str_eq a b
same_name _ _ = false

-- What follows the lock of the membership row.
unfoldable pub rename_member : ℕ → ℕ → Option String → HouseMember → Tx (Option String)
rename_member house_id user_id display_name current =
    if same_name current.display_name display_name then pure display_name else (do
      execute (λ db. record db {
        members =
            update_where (is_row house_id user_id) (λ m. record m { display_name = display_name })
              db.members;
      })
      log (event_of house_id user_id "member.renamed" "member" user_id)
      pure display_name)

unfoldable pub set_display_name_tx : ℕ → ℕ → Option String → Tx (Option String)
set_display_name_tx house_id user_id display_name = do
  row ← query (active_member house_id user_id)
  current ← or_throw row (not_found "Membership not found")
  rename_member house_id user_id display_name current

unfoldable pub set_display_name :
    ℕ → ℕ → Option String → World → Result Error (Option String) × World
set_display_name house_id user_id display_name =
    transact (set_display_name_tx house_id user_id display_name)
