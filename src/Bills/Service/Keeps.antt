-- ===== src/Bills/Service/Keeps.antt =====
-- What createBill and setActive keep: whatever depends on no bill.
use homi_v.Prelude.{ℕ, Bool, true, false, List, [], ◌∷◌, ◌++◌, any, update_where, ◌==◌}
use homi_v.Db.{check_violation, unique_violation, BillTemplate, StoredResponse, ActivityEvent}
use homi_v.Activity.{TxState, execute, log}
use homi_v.Activity.Laws.{
  Keeps, Keeps-execute, Keeps-bind, Keeps-query, Keeps-throw_if, keeps_rules,
}
use homi_v.Idempotency.{Options}
use homi_v.Posting.{Env}
use homi_v.Posting.Insert.{lock_acting_member-Keeps}
use homi_v.Ledger.{reply}
use homi_v.Ledger.Keeps.{as_400-Keeps}
use homi_v.Bills.Service.{
  Format, CreateBillInput, insert_bill, create_bill_tx, switched, next_run_for, switch_bill,
  set_active_tx,
}

module _ (P : TxState → Type 0)
    (bills : (t : TxState) (bs : List BillTemplate)
      → P t
      → P (record t { db = (let d = t.db in record d { bills = bs }) })) where
  bills-Keeps :
      (f : List BillTemplate → List BillTemplate)
      → Keeps P (execute (λ db. record db { bills = f db.bills }))
  bills-Keeps f =
      Keeps-execute (λ db. record db { bills = f db.bills }) (λ t h. bills t (f t.db.bills) h)

  insert_bill-Keeps : (bill : BillTemplate) → Keeps P (insert_bill bill)
  unfolding insert_bill
  insert_bill-Keeps bill =
      Keeps-bind _ _ (Keeps-query (λ db. any (λ b. b.id == bill.id) db.bills)) (λ taken.
        Keeps-bind _ _
          (Keeps-throw_if (bill.amount_cents == 0)
            (check_violation "chk_bill_templates_amount_positive"))
          (λ _.
            Keeps-bind _ _ (Keeps-throw_if taken (unique_violation "bill_templates_pkey"))
              (λ _. bills-Keeps (λ bs. bs ++ bill ∷ []))))

  pub create_bill_tx-Keeps :
      ((o : Options) (e : ActivityEvent) (r : StoredResponse) → Keeps P (reply o e r))
      → (format : Format) (o : Options) (env : Env) (house_id user_id : ℕ) (input : CreateBillInput)
      → Keeps P (create_bill_tx format o env house_id user_id input)
  unfolding create_bill_tx
  create_bill_tx-Keeps replies format o env house_id user_id input =
      search (keeps_rules, as_400-Keeps, lock_acting_member-Keeps, insert_bill-Keeps, replies) depth
        9

  next_run_for-Keeps :
      (format : Format) (now house_id : ℕ) (bill : BillTemplate) (active : Bool)
      → Keeps P (next_run_for format now house_id bill active)
  unfolding next_run_for
  next_run_for-Keeps format now house_id bill false = search keeps_rules
  next_run_for-Keeps format now house_id bill true = search keeps_rules

  switch_bill-Keeps :
      ((e : ActivityEvent) → Keeps P (log e))
      → (format : Format) (now house_id user_id : ℕ) (bill : BillTemplate) (active : Bool)
      → Keeps P (switch_bill format now house_id user_id bill active)
  unfolding switch_bill
  switch_bill-Keeps logs format now house_id user_id bill active = search (
    keeps_rules,
    next_run_for-Keeps,
    logs,
    λ (next_run : List ℕ).
        bills-Keeps (update_where (λ b. b.id == bill.id) (switched active next_run)),
  )

  pub set_active_tx-Keeps :
      ((e : ActivityEvent) → Keeps P (log e))
      → (format : Format) (now house_id bill_id user_id : ℕ) (active : Bool)
      → Keeps P (set_active_tx format now house_id bill_id user_id active)
  unfolding set_active_tx
  set_active_tx-Keeps logs format now house_id bill_id user_id active =
      let switch = switch_bill-Keeps logs format now house_id user_id in
      search (keeps_rules, switch)
