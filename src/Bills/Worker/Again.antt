-- ===== src/Bills/Worker/Again.antt =====
-- A period of a bill is posted once.
use homi_v.Prelude.{
  ℕ, ◌≡◌, refl, sym, ap, ◌∙◌, true, false, some, String, List, [], ◌∷◌, any, arith, ==_refl,
}
use homi_v.Prelude.Result.{Result, ok, err}
use homi_v.Db.{Error, BillTemplate}
use homi_v.Activity.{World}
use homi_v.Activity.Laws.{transact-eq-err}
use homi_v.Posting.{Env, same_text, same_period, expense_row}
use homi_v.Ledger.Periods.{any-snoc}
use homi_v.Bills.Schedule.{period_key}
use homi_v.Bills.Worker.{bill_spec, post_one, post_one_tx}
use homi_v.Bills.Worker.Posted.{post_one-Posted}

pub same_text_refl : (s : List ℕ) → same_text s s ≡ true
same_text_refl [] = refl
same_text_refl (c ∷ s) = ground (arith, same_text_refl s, ==_refl c)

-- A post fails and leaves the world as it was, with some error.
abbrev pub Refused : World → Result Error ℕ × World → Type 0
Refused w r = (e : Error) × (r ≡ (err e, w))

ok-same : {A : Type 0} {a b : A} → ◌≡◌ {A = Result Error A} (ok a) (ok b) → a ≡ b
ok-same h = cc

pub posted_there :
    (env : Env) (b : BillTemplate) (currency : String) (period : List ℕ)
    → same_period (some b.id) (some period) (expense_row env (bill_spec b currency period)) ≡ true
posted_there env b currency period = ground (arith, ==_refl b.id, same_text_refl period)

-- Once a bill is posted for a due date, each further post of that bill for it, in the world that
-- the first left, fails and changes nothing, even if the amount or the owner are other by then.
pub post_one_again :
    (env env' : Env) (b b' : BillTemplate) (currency currency' : String)
    (due_iso advanced advanced' : List ℕ) (w w' : World) (id : ℕ)
    → b'.id ≡ b.id
    → b'.cadence ≡ b.cadence
    → post_one env b currency due_iso advanced w ≡ (ok id, w')
    → Refused w' (post_one env' b' currency' due_iso advanced' w')
unfolding post_one
post_one_again env env' b b' currency currency' due_iso advanced advanced' w w' id same_bill
      same_cadence h =
    by_outcome (post_one env' b' currency' due_iso advanced' w') refl
  where
    by_outcome :
        (r : Result Error ℕ × World)
        → post_one env' b' currency' due_iso advanced' w' ≡ r
        → Refused w' r
    by_outcome (err e, v) k = (
      e,
      ap (λ x. (err e, x))
          (transact-eq-err (post_one_tx env' b' currency' due_iso advanced') w' v e k),
    )
    by_outcome (ok other, v) k =
        let p = post_one-Posted env b currency due_iso advanced w w' id h in
        let q = post_one-Posted env' b' currency' due_iso advanced' w' v other k in
        let same_period_key : p.period ≡ q.period =
          ok-same (sym p.named ∙ (ap (λ c. period_key c due_iso) (sym same_cadence) ∙ q.named)) in
        let taken : any (same_period (some b.id) (some p.period)) w'.db.expenses ≡ true =
          ap (any (same_period (some b.id) (some p.period))) p.expenses
          ∙ (any-snoc (same_period (some b.id) (some p.period)) w.db.expenses _
              ∙ ground (arith, posted_there env b currency p.period)) in
        let free : any (same_period (some b.id) (some p.period)) w'.db.expenses ≡ false =
          ap (λ x. any (same_period (some x) (some p.period)) w'.db.expenses) (sym same_bill)
          ∙ (ap (λ x. any (same_period (some b'.id) (some x)) w'.db.expenses) same_period_key
              ∙ q.new_period) in
        ground arith
