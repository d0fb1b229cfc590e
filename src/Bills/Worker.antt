-- ===== src/Bills/Worker.antt =====
-- apps/worker/src/bills/post-due-bills.ts. Each post and each pause is a transaction whose event is
-- published after the commit. `env` gives the id and the time of an insert in a world, and
-- `meanwhile` is what others commit before a transaction.

pub mod Keeps
pub mod Posted
pub mod Again
pub mod Rounds
pub mod Taken
pub mod Bounds
pub mod CaughtUp
use homi_v.Prelude.{
  ℕ, zero, suc, ◌+◌, ◌/◌, Bool, true, false, not, ◌&&◌, ◌||◌, Option, none, some, String, List, [],
  ◌∷◌, ◌++◌, map, any, find, keep, update_where, ◌==◌, if◌then◌else◌,
}
use homi_v.Prelude.Int.{pos}
use homi_v.Prelude.Decimal.{text_lt}
use homi_v.Prelude.Result.{Result, ok, err}
use homi_v.Money.Split.{Splits}
use homi_v.Db.{
  Db, Error, posting_problem, schedule_error, split_error, Cadence, BillTemplate, House, Expense,
}
use homi_v.Activity.{
  Tx, TxState, ◌>>=◌, ◌>>◌, query, throw_if, pure, lift, execute, log, World, transact,
}
use homi_v.Idempotency.{is_unique_violation}
use homi_v.Posting.{
  Env, ActiveMember, ResolveSplitsInput, ExpenseSpec, lock_active_members, resolve_splits,
  insert_expense, is_null, is_room_weighted, user_of, same_text,
}
use homi_v.Ledger.{event_of}
use homi_v.Bills.Calendar.{date_of}
use homi_v.Bills.Iso.{to_iso, iso_add_days}
use homi_v.Bills.Schedule.{next_due_date, period_key}
use homi_v.Bills.Service.{Format, today_in_timezone}

abbrev pub max_catchup_per_run : ℕ
max_catchup_per_run = 24

-- Everyone for an equal split, those with a room for a room-weighted one.
abbrev pub participants_of : BillTemplate → List ActiveMember → List ℕ
participants_of template members = map user_of (
    if is_room_weighted template.split_mode
    then keep (λ m. not (is_null m.room_id)) members
    else members)

abbrev pub is_empty {ℓ} : {A : Type ℓ} → List A → Bool
is_empty [] = true
is_empty (x ∷ xs) = false

abbrev pub bill_split : BillTemplate → List ℕ → ResolveSplitsInput
bill_split template participants = record {
  amount_cents = template.amount_cents;
  paid_by = template.owner_id;
  mode = template.split_mode;
  participants = participants;
  exact_cents = none;
  weights_bp = none;
}

abbrev pub bill_spec : BillTemplate → String → List ℕ → ExpenseSpec
bill_spec template currency period = record {
  house_id = template.house_id;
  description = template.description;
  amount_cents = template.amount_cents;
  currency = currency;
  paid_by = template.owner_id;
  category = none;
  is_staple = none;
  template_id = some template.id;
  period = some period;
  created_by = template.owner_id;
}

abbrev pub advance : ℕ → List ℕ → Db → Db
advance id next_run db = record db {
  bills = update_where (λ b. b.id == id) (λ b. record b { next_run = next_run }) db.bills;
}

-- The transaction of `postOne`, once the splits are known.
unfoldable pub post_splits : Env → BillTemplate → String → List ℕ → List ℕ → Splits → Tx ℕ
post_splits env template currency period advanced splits = do
  expense ← insert_expense env (bill_spec template currency period) splits
  log (event_of template.house_id template.owner_id "bill.posted" "expense" expense.id)
  execute (advance template.id advanced)
  pure expense.id

unfoldable pub post_one_tx : Env → BillTemplate → String → List ℕ → List ℕ → Tx ℕ
post_one_tx env template currency due_iso advanced = do
  period ← lift (period_key template.cadence due_iso)
  members ← lock_active_members template.house_id none
  throw_if (not (any (λ m. m.user_id == template.owner_id) members))
      (posting_problem "the bill owner is no longer a house member")
  throw_if (is_empty (participants_of template members))
      (posting_problem "the house has no active members")
  splits ←
      resolve_splits template.house_id (bill_split template (participants_of template members))
        (some members)
  post_splits env template currency period advanced splits

-- `postOne`
unfoldable pub post_one :
    Env → BillTemplate → String → List ℕ → List ℕ → World → Result Error ℕ × World
post_one env template currency due_iso advanced =
    transact (post_one_tx env template currency due_iso advanced)

-- The transaction of `pause`: somebody else may have paused the bill already.
unfoldable pub pause_tx : ℕ → ℕ → ℕ → Tx (Unit {0})
pause_tx template_id house_id actor_id = do
  found ← query (λ db. any (λ b. b.id == template_id && b.active) db.bills)
  (if found
      then (do
        execute (λ db. record db {
          bills =
              update_where (λ b. b.id == template_id && b.active) (λ b. record b { active = false })
                db.bills;
        })
        log (event_of house_id actor_id "bill.paused" "bill" template_id))
      else pure tt)

unfoldable pub pause : BillTemplate → World → World
pause template w = (transact (pause_tx template.id template.house_id template.owner_id) w).1

-- `PostDueBillsResult`, with the world that the run leaves, and what it threw, if it did.
pub record Run : Type 0 where
  pub posted : List (ℕ × ℕ × List ℕ)
  pub already_posted : List (ℕ × List ℕ)
  pub paused : List (ℕ × Error)
  pub world : World
  pub thrown : Option Error

abbrev pub start_run : World → Run
start_run w = record { posted = []; already_posted = []; paused = []; world = w; thrown = none }

-- A post that fails for a reason of the house pauses the bill.
abbrev pub pauses : Error → Bool
pauses (posting_problem _) = true
pauses (schedule_error _) = true
pauses (split_error _) = true
pauses _ = false

-- The compare-and-set of a period that another run has posted.
unfoldable pub skip_period : ℕ → List ℕ → List ℕ → World → World
skip_period id due_iso advanced w = record w {
  db =
      (let d = w.db in
        record d {
          bills =
              update_where (λ b. b.id == id && same_text b.next_run due_iso)
                (λ b. record b { next_run = advanced }) d.bills;
        });
}

abbrev pub period_or : Cadence → List ℕ → List ℕ
period_or cadence due_iso = elim (period_key cadence due_iso) [ ok p ↦ p | err _ ↦ [] ]

abbrev pub fails : Error → Run → Run
fails e run = record run { thrown = some e }

-- How a round ends, and the due date of the next, if there is one. A post that failed has left the
-- world as it was, and others may commit again before the skip or the pause.
unfoldable pub settle_post :
    (World → World)
    → BillTemplate
    → List ℕ
    → List ℕ
    → Run
    → Result Error ℕ × World
    → Run × Option (List ℕ)
settle_post meanwhile template due_iso advanced run (ok expense_id, w) = (
  record run {
    posted = run.posted ++ (template.id, expense_id, period_or template.cadence due_iso) ∷ [];
    world = w;
  },
  some advanced,
)
settle_post meanwhile template due_iso advanced run (err e, w) =
    if is_unique_violation e
    then (
      record run {
        already_posted =
            run.already_posted ++ (template.id, period_or template.cadence due_iso) ∷ [];
        world = skip_period template.id due_iso advanced (meanwhile w);
      },
      some advanced,
    )
    else if pauses e
    then (
      record run {
        paused = run.paused ++ (template.id, e) ∷ [];
        world = pause template (meanwhile w);
      },
      none,
    )
    else (fails e (record run { world = w }), none)

-- A due date that cannot be computed ends the run.
abbrev pub on_success : Run → (List ℕ → Run) → Result Error (List ℕ) → Run
on_success run k (err e) = fails e run
on_success run k (ok advanced) = k advanced

abbrev pub on_next : Run → (List ℕ → Run) → Option (List ℕ) → Run
on_next run k none = run
on_next run k (some due) = k due

module _ (env : World → Env) (meanwhile : World → World) where
  -- A round of the loop over the periods of a bill.
  unfoldable pub post_round : BillTemplate → String → List ℕ → List ℕ → Run → Run × Option (List ℕ)
  post_round template currency due_iso advanced run =
      let w = meanwhile run.world in
      settle_post meanwhile template due_iso advanced run
        (post_one (env w) template currency due_iso advanced w)

  -- The loop, with the rounds left.
  unfoldable pub catch_up : ℕ → BillTemplate → String → List ℕ → List ℕ → Run → Run
  catch_up zero template currency today next_run run = run
  catch_up (suc rounds) template currency today next_run run =
      if text_lt today next_run
      then run
      else (on_success run
          (λ advanced.
            let (run', next) = post_round template currency next_run advanced run in
            on_next run' (λ due. catch_up rounds template currency today due run') next)
          (next_due_date template.cadence template.cadence_day next_run))

-- A row of the join of the bills with their houses.
pub record DueTemplate : Type 0 where
  pub template : BillTemplate
  pub timezone : String
  pub currency : String

-- The date of a time in UTC: 1970 begins on the day 719528.
unfoldable pub utc_date : ℕ → List ℕ
utc_date now = to_iso (date_of (now / 86_400_000 + 719_528))

abbrev pub is_due : List ℕ → BillTemplate → Bool
is_due latest b = b.active && not (text_lt latest b.next_run)

-- The scan: the active bills whose next run is not after the latest date that any house has, with
-- their houses, the oldest first.
unfoldable pub due_templates : List ℕ → List House → List BillTemplate → List DueTemplate
due_templates latest houses [] = []
due_templates latest houses (b ∷ bills) =
    if is_due latest b
    then (elim (find (λ h. h.id == b.house_id) houses) [
      | none ↦ due_templates latest houses bills
      | some h ↦
          record { template = b; timezone = h.timezone; currency = h.currency }
          ∷ due_templates latest houses bills
    ])
    else due_templates latest houses bills

module _ (format : Format) (env : World → Env) (meanwhile : World → World) where
  -- The body of the loop over the bills.
  unfoldable pub post_template : ℕ → DueTemplate → Run → Run
  post_template now d run = elim (today_in_timezone format d.timezone now) [
    | err e ↦ record run {
      paused = run.paused ++ (d.template.id, e) ∷ [];
      world = pause d.template (meanwhile run.world);
    }
    | ok today ↦
        catch_up env meanwhile max_catchup_per_run d.template d.currency today d.template.next_run
          run
  ]

  unfoldable pub post_templates : ℕ → List DueTemplate → Run → Run
  post_templates now [] run = run
  post_templates now (d ∷ ds) run =
      if is_null run.thrown then post_templates now ds (post_template now d run) else run

  -- `postDueBills`
  unfoldable pub post_due_bills : ℕ → World → Run
  post_due_bills now w =
      on_success (start_run w)
        (λ latest. post_templates now (due_templates latest w.db.houses w.db.bills) (start_run w))
        (iso_add_days (utc_date now) (pos 1))
