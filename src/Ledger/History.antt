-- ===== src/Ledger/History.antt =====
-- The ledger from its first request on: the worlds that the requests which write lead to, and the
-- steps of the worker that posts bills and prunes keys. A request with an idempotency key may find
-- that others have committed between its look at the table of keys and its transaction. Nobody
-- accepts an invite that is bound to themselves: a placeholder has no account to sign in with.
pub mod Steps
pub mod Accepted
pub mod Billed
pub mod Housed
pub mod Homes
pub mod Runs
pub mod Sound
use homi_v.Prune.{delete_batch}
use homi_v.Houses.Invites.{create_invite_tx, accept_invite}
use homi_v.Houses.Members.{set_display_name, create_placeholder_tx}
use homi_v.Houses.Rooms.{RoomInput, set_rooms}
use homi_v.Activity.{transact, World}
use homi_v.Prelude.{ℕ, Bool, String, List, Option}
use homi_v.Db.{BillTemplate}
use homi_v.Bills.Service.{Format, CreateBillInput, create_bill, set_active}
use homi_v.Bills.Worker.{post_one, pause, skip_period}
use homi_v.Idempotency.{Options}
use homi_v.Posting.{Env}
use homi_v.Ledger.Expenses.{ExpenseInput, create_expense, edit_expense}
use homi_v.Ledger.Payments.{PaymentInput, record_payment, dispute_payment, resolve_payment}
use homi_v.Houses.Invites.Sound.{NotOwn}
use homi_v.Houses.Service.{CreateHouseInput, create_house}

-- A statement of the pruning of keys.
abbrev pub prune_batch : ℕ → ℕ → World → World
prune_batch cutoff limit w = record w {
  db = (let d = w.db in record d { keys = (delete_batch cutoff limit d.keys).1 });
}

-- `Reaches w v`: some requests, one after the other, lead from `w` to `v`.
pub data Reaches : World → World → Type 0 where
  stay : (w : World) → Reaches w w
  creates :
      (o : Options) (env : Env) (house_id user_id : ℕ) (input : ExpenseInput)
      (meanwhile : World → World) (w v : World)
      → Reaches w v
      → Reaches v (meanwhile v)
      → Reaches w (create_expense o env house_id user_id input meanwhile v).1
  edits :
      (o : Options) (expense_id user_id : ℕ) (input : ExpenseInput) (meanwhile : World → World)
      (w v : World)
      → Reaches w v
      → Reaches v (meanwhile v)
      → Reaches w (edit_expense o expense_id user_id input meanwhile v).1
  records :
      (o : Options) (env : Env) (house_id user_id : ℕ) (input : PaymentInput)
      (meanwhile : World → World) (w v : World)
      → Reaches w v
      → Reaches v (meanwhile v)
      → Reaches w (record_payment o env house_id user_id input meanwhile v).1
  disputes :
      (now payment_id user_id : ℕ) (w v : World)
      → Reaches w v
      → Reaches w (dispute_payment now payment_id user_id v).1
  resolves :
      (now payment_id user_id : ℕ) (w v : World)
      → Reaches w v
      → Reaches w (resolve_payment now payment_id user_id v).1
  accepts :
      (now token_hash user_id : ℕ) (w v : World)
      → Reaches w v
      → NotOwn token_hash user_id v.db.invites
      → Reaches w (accept_invite now token_hash user_id v).1
  creates_bill :
      (format : Format) (o : Options) (env : Env) (house_id user_id : ℕ) (input : CreateBillInput)
      (meanwhile : World → World) (w v : World)
      → Reaches w v
      → Reaches v (meanwhile v)
      → Reaches w (create_bill format o env house_id user_id input meanwhile v).1
  switches_bill :
      (format : Format) (now house_id bill_id user_id : ℕ) (active : Bool) (w v : World)
      → Reaches w v
      → Reaches w (set_active format now house_id bill_id user_id active v).1
  posts :
      (env : Env) (b : BillTemplate) (currency : String) (due_iso advanced : List ℕ) (w v : World)
      → Reaches w v
      → Reaches w (post_one env b currency due_iso advanced v).1
  pauses : (b : BillTemplate) (w v : World) → Reaches w v → Reaches w (pause b v)
  skips :
      (id : ℕ) (due_iso advanced : List ℕ) (w v : World)
      → Reaches w v
      → Reaches w (skip_period id due_iso advanced v)
  creates_house :
      (env : Env) (user_id : ℕ) (input : CreateHouseInput) (w v : World)
      → Reaches w v
      → Reaches w (create_house env user_id input v).1
  sets_rooms :
      (new_id : ℕ → ℕ) (house_id actor_id : ℕ) (rooms : List RoomInput) (w v : World)
      → Reaches w v
      → Reaches w (set_rooms new_id house_id actor_id rooms v).1
  renames :
      (house_id user_id : ℕ) (display_name : Option String) (w v : World)
      → Reaches w v
      → Reaches w (set_display_name house_id user_id display_name v).1
  adds_placeholder :
      (env : Env) (house_id actor_id : ℕ) (name : String) (w v : World)
      → Reaches w v
      → Reaches w (transact (create_placeholder_tx env house_id actor_id name) v).1
  invites :
      (env : Env) (max_uses token_hash house_id actor_id : ℕ) (placeholder_id : Option ℕ)
      (w v : World)
      → Reaches w v
      → Reaches w
          (transact (create_invite_tx env max_uses token_hash house_id actor_id placeholder_id) v).1
  prunes : (cutoff limit : ℕ) (w v : World) → Reaches w v → Reaches w (prune_batch cutoff limit v)
