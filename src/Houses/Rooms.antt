-- ===== src/Houses/Rooms.antt =====
-- RoomsService: setRooms and getRooms.
pub mod Configured
use homi_v.Prelude.{
  ℕ, suc, ◌+◌, Bool, true, false, not, ◌&&◌, Option, none, some, String, List, [], ◌∷◌, ◌++◌, map,
  keep, contains, length, to_set, sum, update_where, delete_where, ◌==◌, if◌then◌else◌,
}
use homi_v.Prelude.Dict.{Dict, insert, get_or, values}
use homi_v.Prelude.Result.{Result, ok, err}
use homi_v.Db.{Db, Error, bad_request, Room, HouseMember}
use homi_v.Activity.{Tx, ◌>>=◌, ◌>>◌, query, throw_if, pure, execute, log, World, transact}
use homi_v.Posting.{is_null, is_active}
use homi_v.Ledger.{event_of}
use homi_v.Houses.{require_admin}

pub record RoomInput : Type 0 where
  pub name : String
  pub weight_bp : ℕ
  pub user_ids : List ℕ

-- `rooms.reduce((acc, r) => acc + r.weightBp, 0)`
unfoldable pub weight_sum : List RoomInput → ℕ
weight_sum [] = 0
weight_sum (r ∷ rooms) = r.weight_bp + weight_sum rooms

-- `rooms.flatMap((r) => r.userIds)`
unfoldable pub occupants_of : List RoomInput → List ℕ
occupants_of [] = []
occupants_of (r ∷ rooms) = r.user_ids ++ occupants_of rooms

-- The rows that the insert returns; `new_id` gives the random ids, from the i-th on.
unfoldable pub created_rooms : (ℕ → ℕ) → ℕ → ℕ → List RoomInput → List Room
created_rooms new_id i house_id [] = []
created_rooms new_id i house_id (r ∷ rooms) =
    record { id = new_id i; house_id = house_id; name = r.name; weight_bp = r.weight_bp }
    ∷ created_rooms new_id (suc i) house_id rooms

-- The loop that moves the occupants in.
unfoldable pub assign_rooms : (ℕ → ℕ) → ℕ → ℕ → List RoomInput → List HouseMember → List HouseMember
assign_rooms new_id i house_id [] members = members
assign_rooms new_id i house_id (r ∷ rooms) members = assign_rooms new_id (suc i) house_id rooms (
    update_where (λ m. m.house_id == house_id && contains m.user_id r.user_ids)
      (λ m. record m { room_id = some (new_id i) }) members)

-- The replacement of the whole configuration.
unfoldable pub replace_rooms : (ℕ → ℕ) → ℕ → List RoomInput → Tx (List Room)
replace_rooms new_id house_id rooms = do
  execute (λ db. record db {
    members =
        update_where (λ m. m.house_id == house_id) (λ m. record m { room_id = none }) db.members;
  })
  execute (λ db. record db { rooms = delete_where (λ r. r.house_id == house_id) db.rooms })
  execute (λ db. record db { rooms = db.rooms ++ created_rooms new_id 0 house_id rooms })
  execute (λ db. record db { members = assign_rooms new_id 0 house_id rooms db.members })
  pure (created_rooms new_id 0 house_id rooms)

unfoldable pub set_rooms_tx : (ℕ → ℕ) → ℕ → ℕ → List RoomInput → Tx (List Room)
set_rooms_tx new_id house_id actor_id rooms = do
  require_admin house_id actor_id
  active ←
      query (λ db.
        keep (λ m. is_active house_id m && contains m.user_id (occupants_of rooms)) db.members)
  throw_if (not (length active == length (occupants_of rooms)))
      (bad_request "Every room occupant must be an active house member")
  created ← replace_rooms new_id house_id rooms
  log (event_of house_id actor_id "rooms.configured" "house" house_id)
  pure created

unfoldable pub set_rooms :
    (ℕ → ℕ) → ℕ → ℕ → List RoomInput → World → Result Error (List Room) × World
set_rooms new_id house_id actor_id rooms w =
    if not (weight_sum rooms == 10000)
    then (err (bad_request "Room weights must sum to 10000 basis points"), w)
    else if not (length (to_set (occupants_of rooms)) == length (occupants_of rooms))
    then (err (bad_request "A member can occupy only one room"), w)
    else transact (set_rooms_tx new_id house_id actor_id rooms) w

-- A row of the left join of rooms and members.
pub record RoomRow : Type 0 where
  pub id : ℕ
  pub name : String
  pub weight_bp : ℕ
  pub occupant_id : Option ℕ

pub record RoomView : Type 0 where
  pub id : ℕ
  pub name : String
  pub weight_bp : ℕ
  pub user_ids : List ℕ

abbrev pub room_row : Room → Option ℕ → RoomRow
room_row r occupant_id = record {
  id = r.id;
  name = r.name;
  weight_bp = r.weight_bp;
  occupant_id = occupant_id;
}

abbrev pub lives_in_room : ℕ → HouseMember → Bool
lives_in_room room_id m =
    (elim m.room_id [ none ↦ false | some r ↦ r == room_id ]) && is_null m.left_at

-- The rows of a room: one without an occupant, if nobody lives there.
abbrev pub rows_of_room : Room → List HouseMember → List RoomRow
rows_of_room r [] = room_row r none ∷ []
rows_of_room r (m ∷ occupants) = map (λ o. room_row r (some o.user_id)) (m ∷ occupants)

unfoldable pub join_occupants : ℕ → List Room → List HouseMember → List RoomRow
join_occupants house_id [] members = []
join_occupants house_id (r ∷ rooms) members =
    if r.house_id == house_id
    then rows_of_room r (keep (lives_in_room r.id) members) ++ join_occupants house_id rooms members
    else join_occupants house_id rooms members

abbrev pub pushed : RoomRow → RoomView → RoomView
pushed row room = elim row.occupant_id [
  | none ↦ room
  | some id ↦ record room { user_ids = room.user_ids ++ id ∷ [] }
]

-- The loop over the rows, with its map `rooms`.
unfoldable pub group_rooms : List RoomRow → Dict RoomView → Dict RoomView
group_rooms [] rooms = rooms
group_rooms (row ∷ rows) rooms =
    let fresh : RoomView = record {
      id = row.id;
      name = row.name;
      weight_bp = row.weight_bp;
      user_ids = [];
    } in
    group_rooms rows (insert row.id (pushed row (get_or rooms row.id fresh)) rooms)

-- `getRooms`
unfoldable pub get_rooms : ℕ → Db → List RoomView
get_rooms house_id db = values (group_rooms (join_occupants house_id db.rooms db.members) [])
