-- ===== src/Houses/Service.antt =====
-- HousesService: createHouse and listHouses.
pub mod Keeps
use homi_v.Prelude.{
  ℕ, Bool, true, false, ◌&&◌, Option, none, some, String, List, [], ◌∷◌, ◌++◌, any, find, keep, leb,
  ◌==◌, if◌then◌else◌,
}
use homi_v.Prelude.Result.{Result}
use homi_v.Prelude.Sort.{sort_by}
use homi_v.Db.{Db, Error, unique_violation, House, HouseMember, Role, admin}
use homi_v.Activity.{Tx, ◌>>=◌, ◌>>◌, query, throw_if, pure, execute, log, World, transact}
use homi_v.Posting.{Env, is_null}
use homi_v.Ledger.{event_of}

pub record CreateHouseInput : Type 0 where
  pub name : String
  pub timezone : String
  pub currency : String

-- A row of the join of a user's memberships with their houses.
pub record HouseRow : Type 0 where
  pub id : ℕ
  pub name : String
  pub timezone : String
  pub currency : String
  pub role : Role
  pub joined_at : ℕ

unfoldable pub join_houses : List House → List HouseMember → List HouseRow
join_houses houses [] = []
join_houses houses (m ∷ members) = elim (find (λ h. h.id == m.house_id) houses) [
  | none ↦ join_houses houses members
  | some h ↦
      record {
        id = h.id;
        name = h.name;
        timezone = h.timezone;
        currency = h.currency;
        role = m.role;
        joined_at = m.joined_at;
      }
      ∷ join_houses houses members
]

-- `listHouses`
unfoldable pub list_houses : ℕ → Db → List HouseRow
list_houses user_id db =
    sort_by (λ a b. leb a.joined_at b.joined_at)
      (join_houses db.houses (keep (λ m. m.user_id == user_id && is_null m.left_at) db.members))

abbrev pub house_row : Env → ℕ → CreateHouseInput → House
house_row env user_id input = record {
  id = env.new_id;
  name = input.name;
  timezone = input.timezone;
  currency = input.currency;
  created_by = user_id;
}

-- The row of the member who founds the house, with the defaults of the table.
abbrev pub founder_row : Env → ℕ → HouseMember
founder_row env user_id = record {
  house_id = env.new_id;
  user_id = user_id;
  role = admin;
  display_name = none;
  is_placeholder = false;
  claimed_by = none;
  room_id = none;
  joined_at = env.now;
  left_at = none;
}

unfoldable pub create_house_tx : Env → ℕ → CreateHouseInput → Tx House
create_house_tx env user_id input = do
  taken ← query (λ db. any (λ h. h.id == env.new_id) db.houses)
  throw_if taken (unique_violation "houses_pkey")
  execute (λ db. record db { houses = db.houses ++ house_row env user_id input ∷ [] })
  execute (λ db. record db { members = db.members ++ founder_row env user_id ∷ [] })
  log (event_of env.new_id user_id "house.created" "house" env.new_id)
  pure (house_row env user_id input)

-- `createHouse`
unfoldable pub create_house : Env → ℕ → CreateHouseInput → World → Result Error House × World
create_house env user_id input = transact (create_house_tx env user_id input)
