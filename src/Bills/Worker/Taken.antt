-- ===== src/Bills/Worker/Taken.antt =====
-- A post fails on a unique key only if its period has an expense already.
use homi_v.Bills.Calendar.{Date}
use homi_v.Activity.Laws.{Keeps-throw_if}
use homi_v.Prelude.{
  ℕ, ◌≡◌, refl, subst, true, false, not, some, none, String, List, [], any, arith, ◌==◌, Bool-cases,
  inl, inr,
}
use homi_v.Prelude.Result.{Result, ok, err}
use homi_v.Money.Split.{Splits}
use homi_v.Db.{Error, posting_problem, BillTemplate, Cadence}
use homi_v.Activity.{Tx, TxState, World, ◌>>=◌, ◌>>◌, throw_if, log, transact, settle}
use homi_v.Idempotency.{is_unique_violation}
use homi_v.Posting.{
  Env, lock_active_members, resolve_splits, insert_expense, same_period, ActiveMember,
}
use homi_v.Posting.Errors.{
  Other, Throws, err-same, Throws-bind, Throws-query, Throws-throw_if, Throws-resolve_splits,
}
use homi_v.Posting.Resolve.{lock_active_members-Keeps, resolve_splits-Keeps}
use homi_v.Bills.Iso.{parse_iso}
use homi_v.Bills.Schedule.{period_key, period_of}
use homi_v.Bills.Worker.{
  participants_of, is_empty, bill_split, bill_spec, post_splits, post_one_tx, post_one, period_or,
}

parse_iso-Other : (iso : List ℕ) (e : Error) → parse_iso iso ≡ err e → Other e
unfolding parse_iso
parse_iso-Other iso e h = ground arith

period_key-Other :
    (cadence : Cadence) (iso : List ℕ) (e : Error) → period_key cadence iso ≡ err e → Other e
unfolding period_key
period_key-Other cadence iso e h = by_date (parse_iso iso) refl
  where
    by_date : (r : Result Error Date) → parse_iso iso ≡ r → Other e
    by_date (ok t) is =
        let wrong : ◌≡◌ {A = Result Error (List ℕ)} (ok (period_of cadence iso)) (err e) =
          rw is at h in
        absurd (cc)
    by_date (err x) is =
        let same : ◌≡◌ {A = Result Error (List ℕ)} (err x) (err e) = rw is at h in
        subst Other (err-same x e same) (parse_iso-Other iso x is)

module _ (env : Env) (b : BillTemplate) (currency : String) (period advanced : List ℕ) where
  -- The id and the period are free.
  abbrev Free : TxState → Type 0
  Free t =
      (any (λ e. e.id == env.new_id) t.db.expenses ≡ false)
      × (any (same_period (some b.id) (some period)) t.db.expenses ≡ false)

  Throws-insert_expense :
      (s : Splits) → Throws Free (insert_expense env (bill_spec b currency period) s)
  unfolding insert_expense
  Throws-insert_expense s = record { at = λ t e p h. ground arith }

  Throws-log : (s : Splits) → Throws Free (post_splits env b currency period advanced s)
  unfolding post_splits log
  Throws-log s =
      Throws-bind _ _ (Throws-insert_expense s) (λ t a t' p h. tt)
        (λ e. record { at = λ t x p h. cc })

  -- A post for the period, once its text is known.
  abbrev from_splits : Splits → Tx ℕ
  from_splits s = post_splits env b currency period advanced s

  abbrev resolved : List ActiveMember → Tx ℕ
  resolved members =
      resolve_splits b.house_id (bill_split b (participants_of b members)) (some members)
      >>= from_splits

  abbrev checked : List ActiveMember → Tx ℕ
  checked members =
      throw_if (not (any (λ m. m.user_id == b.owner_id) members))
        (posting_problem "the bill owner is no longer a house member")
      >> (throw_if (is_empty (participants_of b members))
            (posting_problem "the house has no active members")
          >> resolved members)

  Throws-resolved : (members : List ActiveMember) → Throws Free (resolved members)
  Throws-resolved members =
      Throws-bind _ _
        (record {
          at = λ t e p h.
              (Throws-resolve_splits b.house_id (bill_split b (participants_of b members))
                  members).at
                t e tt h;
        })
        (λ t s t' p h.
          (resolve_splits-Keeps {P = Free} b.house_id (bill_split b (participants_of b members))
              (some members)).at
            t s t' p h)
        (λ s. Throws-log s)

  Throws-checked : (members : List ActiveMember) → Throws Free (checked members)
  Throws-checked members =
      Throws-bind _ _
        (Throws-throw_if (not (any (λ m. m.user_id == b.owner_id) members))
          (posting_problem "the bill owner is no longer a house member") refl)
        (λ t a t' p h. (Keeps-throw_if {P = Free} _ _).at t a t' p h)
        (λ _.
          Throws-bind _ _
            (Throws-throw_if (is_empty (participants_of b members))
              (posting_problem "the house has no active members") refl)
            (λ t a t' p h. (Keeps-throw_if {P = Free} _ _).at t a t' p h)
            (λ _. Throws-resolved members))

  Throws-members : Throws Free (lock_active_members b.house_id none >>= checked)
  unfolding lock_active_members
  Throws-members =
      Throws-bind _ _ (Throws-query _)
        (λ t a t' p h. (lock_active_members-Keeps {P = Free} b.house_id none).at t a t' p h)
        (λ members. Throws-checked members)

settled_error :
    {A : Type 0} (w w' : World) (e : Error) (r : Result Error (A × TxState))
    → ◌≡◌ {A = Result Error A × World} (settle w r) (err e, w')
    → r ≡ err e
settled_error w w' e (err x) h = cc
settled_error w w' e (ok (a, t)) h = cc

-- A post that a unique key refuses, for an id that no expense has, is of a period that some expense
-- has.
pub post_one-taken :
    (env : Env) (b : BillTemplate) (currency : String) (due_iso advanced : List ℕ) (w w' : World)
    (e : Error)
    → any (λ x. x.id == env.new_id) w.db.expenses ≡ false
    → post_one env b currency due_iso advanced w ≡ (err e, w')
    → is_unique_violation e ≡ true
    → any (same_period (some b.id) (some (period_or b.cadence due_iso))) w.db.expenses ≡ true
unfolding post_one transact post_one_tx
post_one-taken env b currency due_iso advanced w w' e fresh h unique =
    by_period (period_key b.cadence due_iso) refl
  where
    t0 : TxState
    t0 = record { db = w.db; logged = [] }

    ran : post_one_tx env b currency due_iso advanced (record { db = w.db; logged = [] }) ≡ err e
    ran = settled_error w w' e _ h

    by_period :
        (r : Result Error (List ℕ))
        → period_key b.cadence due_iso ≡ r
        → any (same_period (some b.id) (some (period_or b.cadence due_iso))) w.db.expenses ≡ true
    by_period (err x) is =
        let thrown : ◌≡◌ {A = Result Error (ℕ × TxState)} (err x) (err e) = rw is at ran in
        let other = subst Other (err-same x e thrown) (period_key-Other b.cadence due_iso x is) in
        ground arith
    by_period (ok period) is =
        elim (Bool-cases (any (same_period (some b.id) (some period)) w.db.expenses)) [
          | inl taken ↦ rw (is, period_or) taken
          | inr free ↦
              let other =
                (Throws-members env b currency period advanced).at t0 e (fresh, free)
                  (rw is at ran) in
              ground arith
        ]
