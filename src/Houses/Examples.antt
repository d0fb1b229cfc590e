-- ===== src/Houses/Examples.antt =====
-- The theorems on claims, rooms and display names at concrete inputs.
pub mod Accepts
use homi_v.Prelude.{ℕ, ◌+◌, ◌≡◌, refl, false, Option, none, some, String, List, [], ◌∷◌, keep, ◌==◌}
use homi_v.Prelude.Result.{Result, ok}
use homi_v.Db.{Error, ExpenseSplit, HouseMember, Role, admin, member, Room}
use homi_v.Activity.{World, log, transact}
use homi_v.Posting.{active_member}
use homi_v.Houses.{require_admin, active_member_role}
use homi_v.Houses.Rooms.{
  RoomInput, set_rooms, set_rooms_tx, replace_rooms, weight_sum, occupants_of, created_rooms,
  assign_rooms,
}
use homi_v.Houses.Rooms.Configured.{weights_of, set_rooms-weights}
use homi_v.Houses.Members.{set_display_name, set_display_name_tx, rename_member}
use homi_v.Houses.Members.Renamed.{set_display_name_resend}
use homi_v.Ledger.Books.{total_of}
use homi_v.Houses.Claim.{claim_splits}
use homi_v.Ledger.Shares.{Keyed}
use homi_v.Houses.Claim.Shares.{total_of-claim_splits}

abbrev pub row : ℕ → ℕ → ℕ → ExpenseSplit
row expense_id user_id amount_cents = record {
  expense_id = expense_id;
  user_id = user_id;
  amount_cents = amount_cents;
}

-- Both have a share in the expense 100, and only the placeholder 12 has one in the expense 101.
abbrev rows : List ExpenseSplit
rows = row 100 10 400 ∷ row 100 11 300 ∷ row 100 12 300 ∷ row 101 12 50 ∷ row 101 10 50 ∷ []

rows-Keyed : Keyed rows
rows-Keyed = (refl, (refl, (refl, (refl, (refl, tt)))))

total_of-claim_splits_example : total_of 100 (claim_splits 12 11 rows) ≡ total_of 100 rows
total_of-claim_splits_example = total_of-claim_splits 12 11 100 rows refl rows-Keyed

abbrev pub resident : ℕ → Role → HouseMember
resident user_id role = record {
  house_id = 1;
  user_id = user_id;
  role = role;
  display_name = none;
  is_placeholder = false;
  claimed_by = none;
  room_id = none;
  joined_at = 0;
  left_at = none;
}

abbrev start : World
start = record {
  db = record {
    users = [];
    houses = [];
    rooms =
        record { id = 5; house_id = 1; name = "Attic"; weight_bp = 10000 }
        ∷ record { id = 6; house_id = 2; name = "Hall"; weight_bp = 10000 }
        ∷ [];
    members = resident 10 admin ∷ resident 11 member ∷ [];
    invites = [];
    expenses = [];
    splits = [];
    revisions = [];
    bills = [];
    payments = [];
    keys = [];
    events = [];
  };
  published = [];
}

abbrev two_rooms : List RoomInput
two_rooms =
    record { name = "North"; weight_bp = 6000; user_ids = 10 ∷ [] }
    ∷ record { name = "South"; weight_bp = 4000; user_ids = 11 ∷ [] }
    ∷ []

abbrev fresh_id : ℕ → ℕ
fresh_id i = 50 + i

abbrev configure : World → Result Error (List Room) × World
configure = set_rooms fresh_id 1 10 two_rooms

abbrev configured_rooms : List Room
configured_rooms =
    record { id = 50; house_id = 1; name = "North"; weight_bp = 6000 }
    ∷ record { id = 51; house_id = 1; name = "South"; weight_bp = 4000 }
    ∷ []

configure_result : configure start ≡ (ok configured_rooms, (configure start).1)
unfolding set_rooms set_rooms_tx replace_rooms require_admin active_member_role active_member
    weight_sum occupants_of created_rooms assign_rooms log transact
configure_result = refl

set_rooms-weights_example :
    (weights_of 1 (configure start).1.db.rooms ≡ 10000)
    × ((other : ℕ)
        → (1 == other) ≡ false
        → keep (λ r. r.house_id == other) (configure start).1.db.rooms
          ≡ keep (λ r. r.house_id == other) start.db.rooms)
set_rooms-weights_example =
    set_rooms-weights fresh_id 1 10 two_rooms start (configure start).1 configured_rooms
      configure_result

abbrev call_me : World → Result Error (Option String) × World
call_me = set_display_name 1 11 (some "Sam")

call_me_result : call_me start ≡ (ok (some "Sam"), (call_me start).1)
unfolding set_display_name set_display_name_tx rename_member active_member log transact
call_me_result = refl

set_display_name_resend_example : call_me (call_me start).1 ≡ (ok (some "Sam"), (call_me start).1)
set_display_name_resend_example =
    set_display_name_resend 1 11 (some "Sam") start (call_me start).1 (some "Sam") call_me_result
