-- ===== src/Posting/Insert.antt =====
-- What the insert of an expense writes, and what the check of the acting member keeps.
use homi_v.Prelude.{ℕ, ◌≡◌, sym, subst, false, List, [], ◌∷◌, ◌++◌, any, arith, ◌==◌}
use homi_v.Prelude.Result.{ok}
use homi_v.Money.Split.{Splits}
use homi_v.Db.{Expense, ExpenseSplit}
use homi_v.Activity.{TxState}
use homi_v.Activity.Laws.{Keeps, keeps_rules}
use homi_v.Posting.{
  lock_acting_member, insert_expense, ExpenseSpec, Env, expense_row, split_rows, same_period,
}

module _ {P : TxState → Type 0} where
  pub lock_acting_member-Keeps :
      (house_id user_id : ℕ) → Keeps P (lock_acting_member house_id user_id)
  unfolding lock_acting_member
  lock_acting_member-Keeps house_id user_id = search keeps_rules

-- A committed insert had a new id and a positive amount, and wrote the expense and its splits.
pub record Inserted (env : Env) (spec : ExpenseSpec) (s : Splits) (t t' : TxState) : Type 0 where
  pub fresh : any (λ e. e.id == env.new_id) t.db.expenses ≡ false
  pub new_period : any (same_period spec.template_id spec.period) t.db.expenses ≡ false
  pub positive : (spec.amount_cents == 0) ≡ false
  pub state : t' ≡ record t {
    db =
        (let d = t.db in
          record d {
            expenses = d.expenses ++ expense_row env spec ∷ [];
            splits = d.splits ++ split_rows env.new_id s;
          });
  }

pub insert_expense-eq-ok :
    (env : Env) (spec : ExpenseSpec) (s : Splits) (t t' : TxState) (e : Expense)
    → insert_expense env spec s t ≡ ok (e, t')
    → Inserted env spec s t t'
unfolding insert_expense
insert_expense-eq-ok env spec s t t' e h = record {
  fresh = ground arith;
  new_period = ground arith;
  positive = ground arith;
  state = ground arith;
}

-- What does not depend on the expenses nor on their splits.
pub insert_expense-Keeps :
    (P : TxState → Type 0) (env : Env) (spec : ExpenseSpec) (s : Splits)
    → ((t : TxState) (es : List Expense) (rows : List ExpenseSplit)
        → P t
        → P (record t { db = (let d = t.db in record d { expenses = es; splits = rows }) }))
    → Keeps P (insert_expense env spec s)
insert_expense-Keeps P env spec s k = record {
  at = λ t a t' h e.
      subst P (sym (insert_expense-eq-ok env spec s t t' a e).state) (
        k t (t.db.expenses ++ expense_row env spec ∷ []) (t.db.splits ++ split_rows env.new_id s)
          h);
}
