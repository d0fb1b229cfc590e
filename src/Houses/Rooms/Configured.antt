-- ===== src/Houses/Rooms/Configured.antt =====
-- What a house's rooms are after setRooms.
use homi_v.Prelude.{
  ℕ, suc, ◌+◌, ◌≡◌, ◌≢◌, refl, ap, ◌∙◌, false, not, ◌&&◌, List, [], ◌∷◌, ◌++◌, keep, contains,
  length, to_set, delete_where, arith, ◌==◌, ==_refl, if◌then◌else◌, Bool-cases, inl, inr,
}
use homi_v.Prelude.Result.{Result, ok, err}
use homi_v.Db.{Error, bad_request, Room}
use homi_v.Activity.{TxState, query, throw_if, pure, log, World, transact}
use homi_v.Activity.Laws.{
  Keeps, keeps_rules, Keeps-query, Keeps-throw_if, Keeps-pure, transact-eq-ok,
}
use homi_v.Activity.Hoare.{Ensures, Ensures-bind, Ensures-then, Ensures-Keeps}
use homi_v.Activity.Unrelated.{log-Keeps}
use homi_v.Ledger.{event_of}
use homi_v.Posting.{is_active}
use homi_v.Houses.{require_admin}
use homi_v.Houses.Rooms.{
  RoomInput, weight_sum, occupants_of, created_rooms, replace_rooms, set_rooms_tx, set_rooms,
}

-- The weights of the rooms of a house.
abbrev pub weights_of : ℕ → List Room → ℕ
weights_of house_id [] = 0
weights_of house_id (r ∷ rooms) =
    (if r.house_id == house_id then r.weight_bp else 0) + weights_of house_id rooms

weights_of-created :
    (new_id : ℕ → ℕ) (i house_id : ℕ) (rooms : List RoomInput)
    → weights_of house_id (created_rooms new_id i house_id rooms) ≡ weight_sum rooms
unfolding created_rooms weight_sum
weights_of-created new_id i house_id [] = refl
weights_of-created new_id i house_id (r ∷ rooms) =
    ground (arith, ==_refl house_id, weights_of-created new_id (suc i) house_id rooms)

weights_of-replaced :
    (house_id : ℕ) (rooms more : List Room)
    → weights_of house_id (delete_where (λ r. r.house_id == house_id) rooms ++ more)
      ≡ weights_of house_id more
weights_of-replaced house_id [] more = refl
weights_of-replaced house_id (r ∷ rooms) more =
    ground (arith, weights_of-replaced house_id rooms more)

other-created :
    (new_id : ℕ → ℕ) (i house_id other : ℕ) (rooms : List RoomInput)
    → (house_id == other) ≡ false
    → keep (λ r. r.house_id == other) (created_rooms new_id i house_id rooms) ≡ []
unfolding created_rooms
other-created new_id i house_id other [] h = refl
other-created new_id i house_id other (r ∷ rooms) h =
    ground (arith, other-created new_id (suc i) house_id other rooms h)

other-replaced :
    (house_id other : ℕ) (rooms more : List Room)
    → (house_id == other) ≡ false
    → keep (λ r. r.house_id == other) more ≡ []
    → keep (λ r. r.house_id == other) (delete_where (λ r. r.house_id == house_id) rooms ++ more)
      ≡ keep (λ r. r.house_id == other) rooms
other-replaced house_id other [] more d e = e
other-replaced house_id other (r ∷ rooms) more d e =
    ground (arith, other-replaced house_id other rooms more d e)

replace-rooms :
    (new_id : ℕ → ℕ) (house_id : ℕ) (rooms : List RoomInput) (t t' : TxState) (cs : List Room)
    → replace_rooms new_id house_id rooms t ≡ ok (cs, t')
    → (cs ≡ created_rooms new_id 0 house_id rooms)
      × (t'.db.rooms
          ≡ delete_where (λ r. r.house_id == house_id) t.db.rooms
            ++ created_rooms new_id 0 house_id rooms)
unfolding replace_rooms
replace-rooms new_id house_id rooms t t' cs h = ground arith

require_admin-Keeps :
    {P : TxState → Type 0} (house_id user_id : ℕ) → Keeps P (require_admin house_id user_id)
unfolding require_admin
require_admin-Keeps house_id user_id = search keeps_rules

-- The rooms after a committed configuration, from the rooms before it.
abbrev Configured : (ℕ → ℕ) → ℕ → List RoomInput → List Room → TxState → Type 0
Configured new_id house_id rooms before t =
    t.db.rooms
    ≡ delete_where (λ r. r.house_id == house_id) before ++ created_rooms new_id 0 house_id rooms

replaced :
    (new_id : ℕ → ℕ) (house_id : ℕ) (rooms : List RoomInput) (before : List Room)
    → Ensures
        (λ t. t.db.rooms ≡ before)
        (replace_rooms new_id house_id rooms)
        (λ _. Configured new_id house_id rooms before)
replaced new_id house_id rooms before = record {
  after = λ t cs t' h k.
      let (_, tables) = replace-rooms new_id house_id rooms t t' cs k in
      tables
      ∙ ap
          (λ rs.
            delete_where (λ r. r.house_id == house_id) rs ++ created_rooms new_id 0 house_id rooms)
          h;
}

set_rooms_tx-Configured :
    (new_id : ℕ → ℕ) (house_id actor_id : ℕ) (rooms : List RoomInput) (before : List Room)
    → Ensures
        (λ t. t.db.rooms ≡ before)
        (set_rooms_tx new_id house_id actor_id rooms)
        (λ _. Configured new_id house_id rooms before)
unfolding set_rooms_tx
set_rooms_tx-Configured new_id house_id actor_id rooms before =
    let P : TxState → Type 0 = Configured new_id house_id rooms before in
    Ensures-then (require_admin house_id actor_id) _ (require_admin-Keeps house_id actor_id) (λ _.
      Ensures-then
        (query (λ db.
          keep (λ m. is_active house_id m && contains m.user_id (occupants_of rooms)) db.members))
        _ (Keeps-query _)
        (λ active.
          Ensures-then
            (throw_if (not (length active == length (occupants_of rooms)))
              (bad_request "Every room occupant must be an active house member"))
            _ (Keeps-throw_if _ _)
            (λ _.
              Ensures-bind (λ _. P) (replace_rooms new_id house_id rooms) _
                (replaced new_id house_id rooms before)
                (λ created.
                  Ensures-then
                    (log (event_of house_id actor_id "rooms.configured" "house" house_id)) _
                    (log-Keeps _ (λ t es ls h. h))
                    (λ _. Ensures-Keeps (pure created) (Keeps-pure created))))))

set_rooms-guards :
    (new_id : ℕ → ℕ) (house_id actor_id : ℕ) (rooms : List RoomInput) (w w' : World)
    (cs : List Room)
    → set_rooms new_id house_id actor_id rooms w ≡ (ok cs, w')
    → (weight_sum rooms ≡ 10000)
      × (transact (set_rooms_tx new_id house_id actor_id rooms) w ≡ (ok cs, w'))
unfolding set_rooms
set_rooms-guards new_id house_id actor_id rooms w w' cs h =
    elim (Bool-cases (weight_sum rooms == 10000)) [
      | inl full ↦
          elim (Bool-cases (length (to_set (occupants_of rooms)) == length (occupants_of rooms))) [
            | inl once ↦ (ground arith, rw (full, once) at h)
            | inr twice ↦ absurd (refused (rw (full, twice) at h))
          ]
      | inr short ↦ absurd (refused (rw short at h))
    ]
  where
    refused :
        {e : Error} {v : World} → ◌≢◌ {A = Result Error (List Room) × World} (err e, v) (ok cs, w')
    refused h = cc

-- After a successful `setRooms` the weights of the house's rooms add up to 10000 basis points, and
-- the rooms of every other house are the ones that it had.
pub set_rooms-weights :
    (new_id : ℕ → ℕ) (house_id actor_id : ℕ) (rooms : List RoomInput) (w w' : World)
    (cs : List Room)
    → set_rooms new_id house_id actor_id rooms w ≡ (ok cs, w')
    → (weights_of house_id w'.db.rooms ≡ 10000)
      × ((other : ℕ)
          → (house_id == other) ≡ false
          → keep (λ r. r.house_id == other) w'.db.rooms
            ≡ keep (λ r. r.house_id == other) w.db.rooms)
set_rooms-weights new_id house_id actor_id rooms w w' cs h =
    let (full, run) = set_rooms-guards new_id house_id actor_id rooms w w' cs h in
    let (t, ran, same) = transact-eq-ok (set_rooms_tx new_id house_id actor_id rooms) w w' cs run in
    let made = created_rooms new_id 0 house_id rooms in
    let tables =
      (set_rooms_tx-Configured new_id house_id actor_id rooms w.db.rooms).after
        (record { db = w.db; logged = [] }) cs t refl ran in
    let now = ap (λ d. d.rooms) same ∙ tables in
    (
      ap (weights_of house_id) now
          ∙ weights_of-replaced house_id w.db.rooms made
          ∙ weights_of-created new_id 0 house_id rooms
          ∙ full,
      λ other d.
          ap (keep (λ r. r.house_id == other)) now
          ∙ other-replaced house_id other w.db.rooms made d
              (other-created new_id 0 house_id other rooms d),
    )
