-- ===== src/Bills/Worker/Keeps.antt =====
-- What a run of the worker keeps.
use homi_v.Prelude.{ℕ, ◌≡◌, false, ◌&&◌, some, String, List, sum, any, update_where, Distinct, ◌==◌}
use homi_v.Prelude.Dict.{keys, values}
use homi_v.Money.Split.{Splits}
use homi_v.Db.{BillTemplate, ActivityEvent}
use homi_v.Activity.{TxState, ◌>>=◌, execute, log}
use homi_v.Activity.Laws.{
  Keeps, Keeps-bind, Keeps-query, Keeps-pure, Keeps-execute, Keeps-if, keeps_rules,
}
use homi_v.Activity.Hoare.{Ensures, Ensures-bind, Ensures-then, Ensures-Keeps, Keeps-Ensures}
use homi_v.Posting.{Env, ExpenseSpec, ActiveMember, insert_expense, resolve_splits}
use homi_v.Posting.Resolve.{lock_active_members-Keeps}
use homi_v.Posting.Exact.{resolve_splits-Ensures}
use homi_v.Ledger.{event_of}
use homi_v.Bills.Worker.{
  participants_of, bill_split, bill_spec, advance, post_splits, post_one_tx, pause_tx,
}

-- The splits add up to the amount of the expense, one for each user.
abbrev pub Exact : ExpenseSpec → Splits → Type 0
Exact spec s = (sum (values s) ≡ spec.amount_cents) × Distinct (keys s)

-- What depends on no bill, and is kept by the insert of an expense whose splits are exact.
pub record Postable (P : TxState → Type 0) : Type 0 where
  pub bills :
      (t : TxState) (bs : List BillTemplate)
      → P t
      → P (record t { db = (let d = t.db in record d { bills = bs }) })
  pub logs : (e : ActivityEvent) → Keeps P (log e)
  pub inserts :
      (env : Env) (spec : ExpenseSpec) (s : Splits)
      → Ensures (λ t. (P t) × Exact spec s) (insert_expense env spec s) (λ _. P)

module _ (P : TxState → Type 0) (u : Postable P) where
  post_splits-Ensures :
      (env : Env) (b : BillTemplate) (currency : String) (period advanced : List ℕ) (s : Splits)
      → Ensures
          (λ t. (P t) × Exact (bill_spec b currency period) s)
          (post_splits env b currency period advanced s)
          (λ _. P)
  unfolding post_splits
  post_splits-Ensures env b currency period advanced s =
      Ensures-bind (λ _. P) (insert_expense env (bill_spec b currency period) s) _
        (u.inserts env (bill_spec b currency period) s)
        (λ e.
          Ensures-then (log (event_of b.house_id b.owner_id "bill.posted" "expense" e.id)) _
            (u.logs _)
            (λ _. Ensures-Keeps _ (
              Keeps-bind (execute (advance b.id advanced)) _
                (Keeps-execute (advance b.id advanced)
                  (λ t h. u.bills t (advance b.id advanced t.db).bills h))
                (λ _. Keeps-pure e.id))))

  resolved-Keeps :
      (env : Env) (b : BillTemplate) (currency : String) (period advanced : List ℕ)
      (members : List ActiveMember)
      → Keeps P (
          resolve_splits b.house_id (bill_split b (participants_of b members)) (some members)
          >>= post_splits env b currency period advanced)
  resolved-Keeps env b currency period advanced members = Keeps-Ensures _ (
      Ensures-bind _ _ _
        (resolve_splits-Ensures P b.house_id (bill_split b (participants_of b members))
          (some members))
        (post_splits-Ensures env b currency period advanced))

  -- A post keeps it.
  pub post_one_tx-Keeps :
      (env : Env) (b : BillTemplate) (currency : String) (due_iso advanced : List ℕ)
      → Keeps P (post_one_tx env b currency due_iso advanced)
  unfolding post_one_tx
  post_one_tx-Keeps env b currency due_iso advanced =
      search (keeps_rules, lock_active_members-Keeps, resolved-Keeps)

  -- So does a pause.
  pub pause_tx-Keeps : (id house_id actor_id : ℕ) → Keeps P (pause_tx id house_id actor_id)
  unfolding pause_tx
  pause_tx-Keeps id house_id actor_id =
      Keeps-bind _ _ (Keeps-query (λ db. any (λ b. b.id == id && b.active) db.bills)) (λ found.
        Keeps-if found _ _
          (Keeps-bind _ _
            (Keeps-execute
              (λ db. record db {
                bills =
                    update_where (λ b. b.id == id && b.active) (λ b. record b { active = false })
                      db.bills;
              })
              (λ t h.
                u.bills t
                  (update_where (λ b. b.id == id && b.active) (λ b. record b { active = false })
                    t.db.bills)
                  h))
            (λ _. u.logs (event_of house_id actor_id "bill.paused" "bill" id)))
          (Keeps-pure tt))
