-- ===== src/Ledger/History/Homes.antt =====
-- The mutations of rooms, members and invites keep the ledger sound, and so does the pruning of keys.
use homi_v.Prelude.{ℕ, Option, String, List, Bool-cases, inl, inr, not, ◌==◌, length, to_set}
use homi_v.Activity.{Tx, TxState, World, transact}
use homi_v.Activity.Laws.{Keeps, log-Announced}
use homi_v.Activity.Unrelated.{log-Keeps}
use homi_v.Posting.{Env}
use homi_v.Houses.Keeps.{
  Apart, set_rooms_tx-Keeps, set_display_name_tx-Keeps, create_placeholder_tx-Keeps,
  create_invite_tx-Keeps,
}
use homi_v.Houses.Invites.{create_invite_tx}
use homi_v.Houses.Members.{create_placeholder_tx, set_display_name, set_display_name_tx}
use homi_v.Houses.Rooms.{RoomInput, set_rooms, set_rooms_tx, weight_sum, occupants_of}
use homi_v.Ledger.History.Steps.{IsSound, KeepsSound, transact-IsSound}

-- A transaction that keeps whatever is apart from the tables of houses keeps the ledger sound.
apart-KeepsSound :
    {A : Type 0} (m : Tx A) → ((P : TxState → Type 0) → Apart P → Keeps P m) → KeepsSound m
apart-KeepsSound m keeps = record {
  books = keeps _ (record {
    users = λ t us h. h;
    members = λ t ms h. h;
    rooms = λ t rs h. h;
    invites = λ t is h. h;
    logs = λ e. log-Keeps e (λ t es ls h. h);
  });
  payments = keeps _ (record {
    users = λ t us h. h;
    members = λ t ms h. h;
    rooms = λ t rs h. h;
    invites = λ t is h. h;
    logs = λ e. log-Keeps e (λ t es ls h. h);
  });
  announced = λ base. keeps _ (record {
    users = λ t us h. h;
    members = λ t ms h. h;
    rooms = λ t rs h. h;
    invites = λ t is h. h;
    logs = log-Announced base;
  });
  periods = keeps _ (record {
    users = λ t us h. h;
    members = λ t ms h. h;
    rooms = λ t rs h. h;
    invites = λ t is h. h;
    logs = λ e. log-Keeps e (λ t es ls h. h);
  });
}

pub set_rooms-IsSound :
    (new_id : ℕ → ℕ) (house_id actor_id : ℕ) (rooms : List RoomInput) (v : World)
    → IsSound v
    → IsSound (set_rooms new_id house_id actor_id rooms v).1
unfolding set_rooms
set_rooms-IsSound new_id house_id actor_id rooms v s =
    elim (Bool-cases (not (weight_sum rooms == 10000))) [
      | inl refused ↦ rw refused s
      | inr whole ↦
          elim (Bool-cases
            (not (length (to_set (occupants_of rooms)) == length (occupants_of rooms)))) [
              | inl refused ↦ rw (whole, refused) s
              | inr once ↦
                  rw (whole, once)
                    (transact-IsSound (set_rooms_tx new_id house_id actor_id rooms)
                      (apart-KeepsSound _
                        (λ P apart. set_rooms_tx-Keeps apart new_id house_id actor_id rooms))
                      v s)
            ]
    ]

pub set_display_name-IsSound :
    (house_id user_id : ℕ) (display_name : Option String) (v : World)
    → IsSound v
    → IsSound (set_display_name house_id user_id display_name v).1
unfolding set_display_name
set_display_name-IsSound house_id user_id display_name v s =
    transact-IsSound (set_display_name_tx house_id user_id display_name)
      (apart-KeepsSound _
        (λ P apart. set_display_name_tx-Keeps apart house_id user_id display_name))
      v s

pub create_placeholder-IsSound :
    (env : Env) (house_id actor_id : ℕ) (name : String) (v : World)
    → IsSound v
    → IsSound (transact (create_placeholder_tx env house_id actor_id name) v).1
create_placeholder-IsSound env house_id actor_id name v s =
    transact-IsSound (create_placeholder_tx env house_id actor_id name)
      (apart-KeepsSound _ (λ P apart. create_placeholder_tx-Keeps apart env house_id actor_id name))
      v s

pub create_invite-IsSound :
    (env : Env) (max_uses token_hash house_id actor_id : ℕ) (placeholder_id : Option ℕ) (v : World)
    → IsSound v
    → IsSound
        (transact (create_invite_tx env max_uses token_hash house_id actor_id placeholder_id) v).1
create_invite-IsSound env max_uses token_hash house_id actor_id placeholder_id v s =
    transact-IsSound (create_invite_tx env max_uses token_hash house_id actor_id placeholder_id)
      (apart-KeepsSound _ (λ P apart.
        create_invite_tx-Keeps apart env max_uses token_hash house_id actor_id placeholder_id))
      v s
