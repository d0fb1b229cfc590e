-- ===== src/Ledger/Periods.antt =====
-- The expenses of bills: a period of a bill is posted once.
use homi_v.Prelude.{
  ℕ, ◌≡◌, refl, sym, ap, ◌∙◌, subst, Bool, false, ◌&&◌, ◌||◌, Option, none, some, List, [], ◌∷◌,
  ◌++◌, any, update_where, arith, ◌==◌, Bool-cases, inl, inr,
}
use homi_v.Money.Split.{Splits}
use homi_v.Db.{Expense}
use homi_v.Activity.{TxState}
use homi_v.Activity.Laws.{Keeps}
use homi_v.Posting.{Env, ExpenseSpec, same_text, same_period, expense_row, insert_expense}
use homi_v.Ledger.Expenses.{ExpenseInput, edited, replace_expense}
use homi_v.Ledger.Expenses.Edited.{replace-state}
use homi_v.Posting.Insert.{insert_expense-eq-ok}

-- Two expenses are for the same period of the same bill.
abbrev pub same_posting : Expense → Expense → Bool
same_posting a b = same_period a.template_id a.period b

-- No two expenses are for the same period of the same bill.
abbrev pub PostedOnce : List Expense → Type 0
PostedOnce [] = Unit
PostedOnce (e ∷ es) = (any (same_posting e) es ≡ false) × PostedOnce es

same_text_sym : (s t : List ℕ) → same_text s t ≡ same_text t s
same_text_sym [] [] = refl
same_text_sym [] (b ∷ t) = refl
same_text_sym (a ∷ s) [] = refl
same_text_sym (a ∷ s) (b ∷ t) = ground (arith, same_text_sym s t)

-- The test of the index, on the columns alone.
abbrev same_columns : Option ℕ → Option (List ℕ) → Option ℕ → Option (List ℕ) → Bool
same_columns (some t) (some p) (some u) (some q) = u == t && same_text q p
same_columns _ _ _ _ = false

same_columns_lem :
    (i : Option ℕ) (p : Option (List ℕ)) (e : Expense)
    → same_period i p e ≡ same_columns i p e.template_id e.period
same_columns_lem i p e = by_columns i p e.template_id e.period
  where
    by_columns :
        (i : Option ℕ) (p : Option (List ℕ)) (j : Option ℕ) (q : Option (List ℕ))
        → same_period i p (record e { template_id = j; period = q }) ≡ same_columns i p j q
    by_columns (some t) (some p) (some u) (some q) = refl
    by_columns (some t) (some p) (some u) none = ground arith
    by_columns (some t) (some p) none q = refl
    by_columns (some t) none j q = refl
    by_columns none p j q = refl

same_columns_sym :
    (i : Option ℕ) (p : Option (List ℕ)) (j : Option ℕ) (q : Option (List ℕ))
    → same_columns i p j q ≡ same_columns j q i p
same_columns_sym (some t) (some p) (some u) (some q) = ground (arith, same_text_sym q p)
same_columns_sym (some t) (some p) (some u) none = refl
same_columns_sym (some t) (some p) none (some q) = refl
same_columns_sym (some t) (some p) none none = refl
same_columns_sym (some t) none (some u) (some q) = refl
same_columns_sym (some t) none (some u) none = refl
same_columns_sym (some t) none none q = refl
same_columns_sym none p (some u) (some q) = refl
same_columns_sym none p (some u) none = refl
same_columns_sym none p none q = refl

same_posting_sym : (a b : Expense) → same_posting a b ≡ same_posting b a
same_posting_sym a b =
    same_columns_lem a.template_id a.period b
    ∙ (same_columns_sym a.template_id a.period b.template_id b.period
        ∙ sym (same_columns_lem b.template_id b.period a))

pub any-snoc :
    (p : Expense → Bool) (es : List Expense) (e : Expense)
    → any p (es ++ e ∷ []) ≡ (any p es || p e)
any-snoc p [] e = ground arith
any-snoc p (x ∷ es) e = ground (arith, any-snoc p es e)

-- An expense for a period that no other has keeps the invariant.
pub PostedOnce-snoc :
    (es : List Expense) (e : Expense)
    → PostedOnce es
    → any (same_posting e) es ≡ false
    → PostedOnce (es ++ e ∷ [])
PostedOnce-snoc [] e h k = (refl, tt)
PostedOnce-snoc (x ∷ es) e (first, h) k = (
  any-snoc (same_posting x) es e ∙ ground (arith, same_posting_sym x e),
  PostedOnce-snoc es e h (ground arith),
)

abbrev pub PostedOnceOf : TxState → Type 0
PostedOnceOf t = PostedOnce t.db.expenses

-- The insert of an expense keeps it: the index refuses a period that is there.
pub insert_expense-PostedOnce :
    (env : Env) (spec : ExpenseSpec) (s : Splits) → Keeps PostedOnceOf (insert_expense env spec s)
insert_expense-PostedOnce env spec s = record {
  at = λ t e t' h k.
      let i = insert_expense-eq-ok env spec s t t' e k in
      subst PostedOnceOf (sym i.state)
        (PostedOnce-snoc t.db.expenses (expense_row env spec) h i.new_period);
}

any-edited :
    (a : Expense) (id : ℕ) (input : ExpenseInput) (es : List Expense)
    → any (same_posting a) (update_where (λ e. e.id == id) (edited input) es)
      ≡ any (same_posting a) es
any-edited a id input [] = refl
any-edited a id input (e ∷ es) = elim (Bool-cases (e.id == id)) [
  | inl here ↦
      rw (here, any-edited a id input es) (ap (λ x. x || any (same_posting a) es) (columns e))
  | inr other ↦ rw (other, any-edited a id input es) refl
]
  where
    columns : (e : Expense) → same_posting a (edited input e) ≡ same_posting a e
    columns e =
        same_columns_lem a.template_id a.period (edited input e)
        ∙ sym (same_columns_lem a.template_id a.period e)

PostedOnce-edited :
    (id : ℕ) (input : ExpenseInput) (es : List Expense)
    → PostedOnce es
    → PostedOnce (update_where (λ e. e.id == id) (edited input) es)
PostedOnce-edited id input [] h = tt
PostedOnce-edited id input (e ∷ es) (first, h) = elim (Bool-cases (e.id == id)) [
  | inl here ↦
      rw here (any-edited (edited input e) id input es ∙ first, PostedOnce-edited id input es h)
  | inr other ↦ rw other (any-edited e id input es ∙ first, PostedOnce-edited id input es h)
]

-- An edit changes neither the bill nor the period of an expense.
pub replace_expense-PostedOnce :
    (id : ℕ) (input : ExpenseInput) (s : Splits) → Keeps PostedOnceOf (replace_expense id input s)
replace_expense-PostedOnce id input s = record {
  at = λ t a t' h k.
      subst PostedOnceOf (sym (replace-state id input s t t' k))
        (PostedOnce-edited id input t.db.expenses h);
}
