-- ===== src/Db.antt =====
-- packages/db: the rows of the tables that the services read and write, and their errors. Ids are
-- numbers (UUIDs), times are milliseconds, a table is the list of its rows in insertion order.
-- Columns that no modelled code reads or writes are left out.
use homi_v.Prelude.{ℕ, Bool, Option, String, List}
use homi_v.Money.Split.{SplitMode, Splits, SplitError}
use homi_v.Money.Balances.{PaymentStatus}

pub record House : Type 0 where
  pub id : ℕ
  pub name : String
  pub timezone : String
  pub currency : String
  pub created_by : ℕ

pub record User : Type 0 where
  pub id : ℕ
  pub name : String
  pub email : Option String
  pub deleted_at : Option ℕ

pub record Room : Type 0 where
  pub id : ℕ
  pub house_id : ℕ
  pub name : String
  pub weight_bp : ℕ

pub data Role : Type 0 where
  admin member : Role

pub record HouseMember : Type 0 where
  pub house_id : ℕ
  pub user_id : ℕ
  pub role : Role
  pub display_name : Option String
  pub is_placeholder : Bool
  pub claimed_by : Option ℕ
  pub room_id : Option ℕ
  pub joined_at : ℕ
  pub left_at : Option ℕ

pub record Invite : Type 0 where
  pub id : ℕ
  pub house_id : ℕ
  pub token_hash : ℕ
  pub created_by : ℕ
  pub placeholder_user_id : Option ℕ
  pub expires_at : ℕ
  pub max_uses : ℕ
  pub uses : ℕ
  pub revoked_at : Option ℕ

pub record Expense : Type 0 where
  pub id : ℕ
  pub house_id : ℕ
  pub description : String
  pub amount_cents : ℕ
  pub currency : String
  pub paid_by : ℕ
  pub category : Option String
  pub is_staple : Bool
  pub template_id : Option ℕ
  pub period : Option (List ℕ)
  pub created_by : ℕ
  pub created_at : ℕ
  pub deleted_at : Option ℕ

pub record ExpenseSplit : Type 0 where
  pub expense_id : ℕ
  pub user_id : ℕ
  pub amount_cents : ℕ

-- `previous`: the expense's fields and its splits before the change.
pub record Revision : Type 0 where
  pub expense_id : ℕ
  pub changed_by : ℕ
  pub description : String
  pub amount_cents : ℕ
  pub currency : String
  pub paid_by : ℕ
  pub category : Option String
  pub is_staple : Bool
  pub splits : Splits

pub data Cadence : Type 0 where
  monthly weekly : Cadence

pub record BillTemplate : Type 0 where
  pub id : ℕ
  pub house_id : ℕ
  pub description : String
  pub amount_cents : ℕ
  pub owner_id : ℕ
  pub split_mode : SplitMode
  pub cadence : Cadence
  pub cadence_day : List ℕ
  pub next_run : List ℕ
  pub active : Bool
  pub created_by : ℕ

pub record Payment : Type 0 where
  pub id : ℕ
  pub house_id : ℕ
  pub from_user : ℕ
  pub to_user : ℕ
  pub amount_cents : ℕ
  pub currency : String
  pub method : Option String
  pub status : PaymentStatus
  pub created_at : ℕ
  pub disputed_at : Option ℕ
  pub resolved_at : Option ℕ

-- The body of a response, by the handler that made it.
pub data Body : Type 0 where
  expense_body : Expense → Splits → Body
  payment_body : Payment → Body
  bill_body : BillTemplate → Body

pub record StoredResponse : Type 0 where
  pub status : ℕ
  pub body : Body

pub record IdempotencyKey : Type 0 where
  pub key : ℕ
  pub user_id : ℕ
  pub endpoint : String
  pub request_hash : ℕ
  pub response : StoredResponse
  pub created_at : ℕ

pub record ActivityEvent : Type 0 where
  pub house_id : ℕ
  pub actor_id : ℕ
  pub type_ : String
  pub entity_type : String
  pub entity_id : ℕ

pub record Db : Type 0 where
  pub users : List User
  pub houses : List House
  pub rooms : List Room
  pub members : List HouseMember
  pub invites : List Invite
  pub expenses : List Expense
  pub splits : List ExpenseSplit
  pub revisions : List Revision
  pub bills : List BillTemplate
  pub payments : List Payment
  pub keys : List IdempotencyKey
  pub events : List ActivityEvent

-- What a call may throw. A message is the source's text without what it interpolates.
pub data Error : Type 0 where
  bad_request not_found forbidden conflict : String → Error
  posting_problem : String → Error
  schedule_error : String → Error
  split_error split_as_400 : SplitError → Error
  unique_violation check_violation : String → Error
