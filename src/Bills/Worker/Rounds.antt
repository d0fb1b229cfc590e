-- ===== src/Bills/Worker/Rounds.antt =====
-- How a round of the loop over the periods of a bill ends.
use homi_v.Prelude.{
  ℕ, suc, ◌+◌, ◌≡◌, refl, sym, ap, ◌∙◌, subst, true, false, ◌&&◌, Option, none, some, String, List,
  [], ◌∷◌, ◌++◌, any, update_where, length, arith, ◌==◌, Bool-cases, inl, inr,
}
use homi_v.Prelude.Result.{Result, ok, err}
use homi_v.Db.{Error, BillTemplate}
use homi_v.Activity.{World, log, transact}
use homi_v.Activity.Laws.{transact-eq-err}
use homi_v.Idempotency.{is_unique_violation}
use homi_v.Ledger.Periods.{any-snoc}
use homi_v.Posting.{Env, same_period}
use homi_v.Bills.Schedule.{period_key}
use homi_v.Bills.Worker.{
  Run, settle_post, pauses, period_or, post_one, post_one_tx, post_round, pause, pause_tx,
  skip_period,
}
use homi_v.Bills.Worker.Again.{posted_there}
use homi_v.Bills.Worker.Posted.{post_one-Posted}
use homi_v.Bills.Worker.Taken.{post_one-taken}

-- The period of a bill has an expense.
abbrev pub IsPosted : ℕ → List ℕ → World → Type 0
IsPosted id period w = any (same_period (some id) (some period)) w.db.expenses ≡ true

-- The bill is paused: no row of its id is active.
abbrev pub IsPaused : ℕ → World → Type 0
IsPaused id w = any (λ b. b.id == id && b.active) w.db.bills ≡ false

-- The number of periods that a run lists.
abbrev pub settled : Run → ℕ
settled run = length run.posted + length run.already_posted

-- What becomes of a period within a number of rounds.
pub data Outcome (id rounds : ℕ) (period : List ℕ) (run run' : Run) : Type 0 where
  posted : IsPosted id period run'.world → Outcome id rounds period run run'
  used_up : settled run' ≡ settled run + rounds → Outcome id rounds period run run'
  paused : IsPaused id run'.world → Outcome id rounds period run run'
  threw : (e : Error) → run'.thrown ≡ some e → Outcome id rounds period run run'

-- The expenses of bills in the one world are in the other.
abbrev pub Grows : World → World → Type 0
Grows w w' = (id : ℕ) (period : List ℕ) → IsPosted id period w → IsPosted id period w'

-- How a round ends.
pub data Ends (b : BillTemplate) (due_iso advanced : List ℕ) (run : Run)
    : Run × Option (List ℕ) → Type 0 where
  goes_on :
      (run' : Run)
      → Grows run.world run'.world
      → IsPosted b.id (period_or b.cadence due_iso) run'.world
      → settled run' ≡ suc (settled run)
      → Ends b due_iso advanced run (run', some advanced)
  stops :
      (run' : Run)
      → Grows run.world run'.world
      → IsPaused b.id run'.world
      → Ends b due_iso advanced run (run', none)
  fails_with :
      (run' : Run) (e : Error)
      → Grows run.world run'.world
      → run'.thrown ≡ some e
      → Ends b due_iso advanced run (run', none)

length-snoc : {A : Type 0} (xs : List A) (x : A) → length (xs ++ x ∷ []) ≡ suc (length xs)
length-snoc [] x = refl
length-snoc (y ∷ xs) x = ap suc (length-snoc xs x)

any-update_where :
    (id : ℕ) (bs : List BillTemplate)
    → any
        (λ b. b.id == id && b.active)
        (update_where (λ b. b.id == id && b.active) (λ b. record b { active = false }) bs)
      ≡ false
any-update_where id [] = refl
any-update_where id (b ∷ bs) = elim (Bool-cases (b.id == id && b.active)) [
  | inl here ↦ rw here (ground (arith, any-update_where id bs))
  | inr other ↦ rw other (rw other (any-update_where id bs))
]

-- A pause leaves no active row of the bill, and no expense is touched.
pause_lem :
    (b : BillTemplate) (w : World)
    → IsPaused b.id (pause b w) × ((pause b w).db.expenses ≡ w.db.expenses)
unfolding pause transact pause_tx log
pause_lem b w = elim (Bool-cases (any (λ x. x.id == b.id && x.active) w.db.bills)) [
  | inl active ↦ (
    rw (active, pause, transact, pause_tx, log) (any-update_where b.id w.db.bills),
    rw (active, pause, transact, pause_tx, log) refl,
  )
  | inr idle ↦
      (rw (idle, pause, transact, pause_tx) idle, rw (idle, pause, transact, pause_tx) refl)
]

Grows-expenses : (w w' : World) → w'.db.expenses ≡ w.db.expenses → Grows w w'
Grows-expenses w w' same id period h = ap (any (same_period (some id) (some period))) same ∙ h

period_or-named :
    (b : BillTemplate) (due_iso period : List ℕ)
    → period_key b.cadence due_iso ≡ ok period
    → period_or b.cadence due_iso ≡ period
period_or-named b due_iso period named =
    ap (λ (r : Result Error (List ℕ)). elim r [ ok p ↦ p | err _ ↦ [] ]) named

post_one-fails :
    (env : Env) (b : BillTemplate) (currency : String) (due_iso advanced : List ℕ) (w v : World)
    (e : Error)
    → post_one env b currency due_iso advanced w ≡ (err e, v)
    → v ≡ w
unfolding post_one
post_one-fails env b currency due_iso advanced w v e h =
    transact-eq-err (post_one_tx env b currency due_iso advanced) w v e h

module _ (env : World → Env) (meanwhile : World → World)
    (fresh : (w : World) → any (λ e. e.id == (env w).new_id) w.db.expenses ≡ false)
    (others : (w : World) → Grows w (meanwhile w)) (b : BillTemplate) (currency : String)
    (due_iso advanced : List ℕ) (run : Run) where
  ends :
      (r : Result Error ℕ × World)
      → post_one (env (meanwhile run.world)) b currency due_iso advanced (meanwhile run.world) ≡ r
      → Ends b due_iso advanced run (settle_post meanwhile b due_iso advanced run r)
  unfolding settle_post skip_period
  ends (ok id, v) h =
      let w = meanwhile run.world in
      let p = post_one-Posted (env w) b currency due_iso advanced w v id h in
      let named = period_or-named b due_iso p.period p.named in
      goes_on _
        (λ i q there.
          ap (any (same_period (some i) (some q))) p.expenses
          ∙ (any-snoc (same_period (some i) (some q)) w.db.expenses _
              ∙ ground (arith, others run.world i q there)))
        (ap (λ q. any (same_period (some b.id) (some q)) v.db.expenses) named
          ∙ (ap (any (same_period (some b.id) (some p.period))) p.expenses
              ∙ (any-snoc (same_period (some b.id) (some p.period)) w.db.expenses _
                  ∙ ground (arith, posted_there (env w) b currency p.period))))
        (rw (length-snoc run.posted (b.id, id, period_or b.cadence due_iso)) (omega arith))
  ends (err e, v) h = elim (Bool-cases (is_unique_violation e)) [
    | inl taken ↦ rw taken (
        goes_on _ (λ i q there. others v i q (left i q there))
          (others v b.id (period_or b.cadence due_iso) (
            subst (IsPosted b.id (period_or b.cadence due_iso)) (sym same)
              (post_one-taken (env w) b currency due_iso advanced w v e (fresh w) h taken)))
          (rw (length-snoc run.already_posted (b.id, period_or b.cadence due_iso)) (omega arith)))
    | inr other ↦ elim (Bool-cases (pauses e)) [
      | inl stop ↦
          rw (other, stop)
            (stops _
              (λ i q there.
                Grows-expenses (meanwhile v) (pause b (meanwhile v)) (pause_lem b (meanwhile v)).1 i
                  q (others v i q (left i q there)))
              (pause_lem b (meanwhile v)).0)
      | inr fails ↦ rw (other, fails) (fails_with _ e left refl)
    ]
  ]
    where
      w : World
      w = meanwhile run.world

      same : v ≡ meanwhile run.world
      same = post_one-fails (env w) b currency due_iso advanced (meanwhile run.world) v e h

      left : Grows run.world v
      left i q there = subst (IsPosted i q) (sym same) (others run.world i q there)

  pub post_round-Ends :
      Ends b due_iso advanced run (post_round env meanwhile b currency due_iso advanced run)
  unfolding post_round
  post_round-Ends =
      ends (post_one (env (meanwhile run.world)) b currency due_iso advanced (meanwhile run.world))
        refl
