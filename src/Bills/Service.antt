-- ===== src/Bills/Service.antt =====
-- BillsService: createBill, listBills and setActive. `format` is `Intl.DateTimeFormat`: the text of
-- the date in a time zone, if it knows the zone.
pub mod Keeps
pub mod First
pub mod Resumed
use homi_v.Prelude.{
  ℕ, ◌+◌, Bool, true, false, not, ◌&&◌, ◌||◌, Option, none, some, String, List, [], ◌∷◌, ◌++◌, any,
  find, keep, update_where, ◌==◌, if◌then◌else◌,
}
use homi_v.Prelude.Result.{Result, ok, err}
use homi_v.Money.Split.{SplitMode}
use homi_v.Db.{
  Db, Error, bad_request, not_found, forbidden, schedule_error, check_violation, unique_violation,
  Cadence, BillTemplate, bill_body, StoredResponse, Role, admin, member, House,
}
use homi_v.Activity.{
  Tx, ◌>>=◌, ◌>>◌, query, or_throw, throw_if, pure, lift, execute, log, World, transact,
}
use homi_v.Idempotency.{Options, with_idempotency}
use homi_v.Posting.{Env, lock_acting_member}
use homi_v.Ledger.{as_400, find_house, reply, event_of}
use homi_v.Houses.{active_member_role, is_admin}
use homi_v.Bills.Schedule.{validate_schedule, first_due_date}

abbrev pub Format : Type 0
Format = String → ℕ → Option (List ℕ)

-- `todayInTimezone`
unfoldable pub today_in_timezone : Format → String → ℕ → Result Error (List ℕ)
today_in_timezone format timezone now = elim (format timezone now) [
  | none ↦ err (schedule_error "cannot compute dates in timezone")
  | some today ↦ ok today
]

pub record CreateBillInput : Type 0 where
  pub description : String
  pub amount_cents : ℕ
  pub split_mode : SplitMode
  pub cadence : Cadence
  pub cadence_day : List ℕ
  pub owner_id : Option ℕ

-- `input.ownerId ?? userId`
abbrev pub owner_or : Option ℕ → ℕ → ℕ
owner_or none user_id = user_id
owner_or (some owner_id) user_id = owner_id

abbrev pub bill_row : Env → ℕ → ℕ → CreateBillInput → List ℕ → BillTemplate
bill_row env house_id user_id input next_run = record {
  id = env.new_id;
  house_id = house_id;
  description = input.description;
  amount_cents = input.amount_cents;
  owner_id = owner_or input.owner_id user_id;
  split_mode = input.split_mode;
  cadence = input.cadence;
  cadence_day = input.cadence_day;
  next_run = next_run;
  active = true;
  created_by = user_id;
}

-- The insert, with the checks of the table.
unfoldable pub insert_bill : BillTemplate → Tx (Unit {0})
insert_bill bill = do
  taken ← query (λ db. any (λ b. b.id == bill.id) db.bills)
  throw_if (bill.amount_cents == 0) (check_violation "chk_bill_templates_amount_positive")
  throw_if taken (unique_violation "bill_templates_pkey")
  execute (λ db. record db { bills = db.bills ++ bill ∷ [] })

-- The transaction of `createBill`.
unfoldable pub create_bill_tx : Format → Options → Env → ℕ → ℕ → CreateBillInput → Tx StoredResponse
create_bill_tx format o env house_id user_id input = do
  row ← query (find_house house_id)
  house ← or_throw row (bad_request "House not found")
  as_400 (lock_acting_member house_id (owner_or input.owner_id user_id))
  today ← lift (today_in_timezone format house.timezone env.now)
  next_run ← lift (first_due_date input.cadence input.cadence_day today)
  insert_bill (bill_row env house_id user_id input next_run)
  reply o (event_of house_id user_id "bill.created" "bill" env.new_id)
      (record { status = 201; body = bill_body (bill_row env house_id user_id input next_run) })

abbrev pub schedule_as_400 : Error → Error
schedule_as_400 (schedule_error message) = bad_request message
schedule_as_400 e = e

-- `createBill`
unfoldable pub create_bill :
    Format
    → Options
    → Env
    → ℕ
    → ℕ
    → CreateBillInput
    → (World → World)
    → World
    → Result Error StoredResponse × World
create_bill format o env house_id user_id input meanwhile w =
    elim (validate_schedule input.cadence input.cadence_day) [
      | err e ↦ (err (schedule_as_400 e), w)
      | ok _ ↦
          with_idempotency o (transact (create_bill_tx format o env house_id user_id input))
            meanwhile w
    ]

-- `listBills`: the rows of the house, the oldest first.
pub list_bills : ℕ → Db → List BillTemplate
list_bills house_id db = keep (λ b. b.house_id == house_id) db.bills

abbrev pub same_flag : Bool → Bool → Bool
same_flag true b = b
same_flag false b = not b

-- The member is an admin of the house, or an active member who owns the bill.
abbrev pub may_change : Option Role → ℕ → BillTemplate → Bool
may_change none user_id bill = false
may_change (some role) user_id bill = is_admin (some role) || bill.owner_id == user_id

-- A resumed bill is due from today on; what it missed is skipped.
unfoldable pub next_run_for : Format → ℕ → ℕ → BillTemplate → Bool → Tx (List ℕ)
next_run_for format now house_id bill false = pure bill.next_run
next_run_for format now house_id bill true = do
  row ← query (find_house house_id)
  house ← or_throw row (not_found "House not found")
  today ← lift (today_in_timezone format house.timezone now)
  lift (first_due_date bill.cadence bill.cadence_day today)

abbrev pub switched : Bool → List ℕ → BillTemplate → BillTemplate
switched active next_run b = record b { active = active; next_run = next_run }

-- What follows the checks of `setActive`.
unfoldable pub switch_bill : Format → ℕ → ℕ → ℕ → BillTemplate → Bool → Tx BillTemplate
switch_bill format now house_id user_id bill active =
    if same_flag bill.active active then pure bill else (do
      next_run ← next_run_for format now house_id bill active
      execute (λ db. record db {
        bills = update_where (λ b. b.id == bill.id) (switched active next_run) db.bills;
      })
      log (
          event_of house_id user_id (if active then "bill.resumed" else "bill.paused") "bill"
            bill.id)
      pure (switched active next_run bill))

unfoldable pub set_active_tx : Format → ℕ → ℕ → ℕ → ℕ → Bool → Tx BillTemplate
set_active_tx format now house_id bill_id user_id active = do
  row ← query (λ db. find (λ b. b.id == bill_id && b.house_id == house_id) db.bills)
  bill ← or_throw row (not_found "Bill not found")
  role ← query (active_member_role house_id user_id)
  throw_if (not (may_change role user_id bill))
      (forbidden "Only the bill owner or a house admin can change a bill")
  switch_bill format now house_id user_id bill active

-- `setActive`
unfoldable pub set_active :
    Format → ℕ → ℕ → ℕ → ℕ → Bool → World → Result Error BillTemplate × World
set_active format now house_id bill_id user_id active =
    transact (set_active_tx format now house_id bill_id user_id active)
