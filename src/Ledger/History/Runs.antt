-- ===== src/Ledger/History/Runs.antt =====
-- A run of the worker is a sequence of the steps of the ledger's history.
use homi_v.Prelude.{
  ℕ, zero, suc, Option, none, some, String, List, [], ◌∷◌, ◌++◌, Bool-cases, inl, inr,
}
use homi_v.Prelude.Decimal.{text_lt}
use homi_v.Prelude.Int.{pos}
use homi_v.Prelude.Result.{Result, ok, err}
use homi_v.Db.{Error, BillTemplate}
use homi_v.Activity.{World}
use homi_v.Idempotency.{is_unique_violation}
use homi_v.Posting.{Env, is_null}
use homi_v.Bills.Iso.{iso_add_days}
use homi_v.Bills.Schedule.{next_due_date}
use homi_v.Bills.Service.{Format, today_in_timezone}
use homi_v.Bills.Worker.{
  Run, DueTemplate, post_one, on_success, on_next, settle_post, pauses as pauses_bill, post_round,
  catch_up, max_catchup_per_run, start_run, post_template, post_templates, post_due_bills,
  due_templates, utc_date, pause,
}
use homi_v.Ledger.History.{Reaches, posts, pauses, skips}

-- The world that a run leaves is reached.
abbrev RunReaches : World → Run → Type 0
RunReaches w run = Reaches w run.world

on_success-Reaches :
    (w : World) (run : Run) (k : List ℕ → Run) (r : Result Error (List ℕ))
    → RunReaches w run
    → ((advanced : List ℕ) → RunReaches w (k advanced))
    → RunReaches w (on_success run k r)
on_success-Reaches w run k (err e) here next = here
on_success-Reaches w run k (ok advanced) here next = next advanced

on_next-Reaches :
    (w : World) (run : Run) (k : List ℕ → Run) (o : Option (List ℕ))
    → RunReaches w run
    → ((due : List ℕ) → RunReaches w (k due))
    → RunReaches w (on_next run k o)
on_next-Reaches w run k none here next = here
on_next-Reaches w run k (some due) here next = next due

module _ (w : World) (env : World → Env) (meanwhile : World → World)
    (others : (v : World) → Reaches w v → Reaches w (meanwhile v)) where
  settle_post-Reaches :
      (b : BillTemplate) (due_iso advanced : List ℕ) (run : Run) (x : Result Error ℕ × World)
      → Reaches w x.1
      → RunReaches w (settle_post meanwhile b due_iso advanced run x).0
  unfolding settle_post
  settle_post-Reaches b due_iso advanced run (ok id, v) r = r
  settle_post-Reaches b due_iso advanced run (err e, v) r =
      elim (Bool-cases (is_unique_violation e)) [
        | inl taken ↦ rw taken (skips b.id due_iso advanced w (meanwhile v) (others v r))
        | inr other ↦ elim (Bool-cases (pauses_bill e)) [
          | inl stops ↦ rw (other, stops) (pauses b w (meanwhile v) (others v r))
          | inr fails ↦ rw (other, fails) r
        ]
      ]

  post_round-Reaches :
      (b : BillTemplate) (currency : String) (due_iso advanced : List ℕ) (run : Run)
      → RunReaches w run
      → RunReaches w (post_round env meanwhile b currency due_iso advanced run).0
  unfolding post_round
  post_round-Reaches b currency due_iso advanced run r =
      let v = meanwhile run.world in
      settle_post-Reaches b due_iso advanced run (post_one (env v) b currency due_iso advanced v)
        (posts (env v) b currency due_iso advanced w v (others run.world r))

  catch_up-Reaches :
      (rounds : ℕ) (b : BillTemplate) (currency : String) (today next_run : List ℕ) (run : Run)
      → RunReaches w run
      → RunReaches w (catch_up env meanwhile rounds b currency today next_run run)
  unfolding catch_up
  catch_up-Reaches zero b currency today next_run run r = r
  catch_up-Reaches (suc rounds) b currency today next_run run r =
      elim (Bool-cases (text_lt today next_run)) [
        | inl caught_up ↦ rw caught_up r
        | inr due ↦ rw due (
            on_success-Reaches w run _ (next_due_date b.cadence b.cadence_day next_run) r
              (λ advanced.
                let round = post_round-Reaches b currency next_run advanced run r in
                on_next-Reaches w _ _ (post_round env meanwhile b currency next_run advanced run).1
                  round (λ later. catch_up-Reaches rounds b currency today later _ round)))
      ]

  module _ (format : Format) (now : ℕ) where
    post_template-Reaches :
        (d : DueTemplate) (run : Run)
        → RunReaches w run
        → RunReaches w (post_template format env meanwhile now d run)
    unfolding post_template
    post_template-Reaches d run r = by_today (today_in_timezone format d.timezone now)
      where
        by_today :
            (today : Result Error (List ℕ))
            → (let out : Run = elim today [
              | err e ↦ record run {
                paused = run.paused ++ (d.template.id, e) ∷ [];
                world = pause d.template (meanwhile run.world);
              }
              | ok today ↦
                  catch_up env meanwhile max_catchup_per_run d.template d.currency today
                    d.template.next_run run
            ] in
                RunReaches w out)
        by_today (err e) = pauses d.template w (meanwhile run.world) (others run.world r)
        by_today (ok today) =
            catch_up-Reaches max_catchup_per_run d.template d.currency today d.template.next_run run
              r

    post_templates-Reaches :
        (ds : List DueTemplate) (run : Run)
        → RunReaches w run
        → RunReaches w (post_templates format env meanwhile now ds run)
    unfolding post_templates
    post_templates-Reaches [] run r = r
    post_templates-Reaches (d ∷ ds) run r = elim (Bool-cases (is_null run.thrown)) [
      | inl going ↦ rw going (
          post_templates-Reaches ds (post_template format env meanwhile now d run)
            (post_template-Reaches d run r))
      | inr over ↦ rw over r
    ]

    -- A run of the worker from a world that the ledger has reached ends in one that it reaches,
    -- whatever the dates in the time zones and the ids of the inserts, if what others commit before
    -- each of its transactions leads from reached worlds to reached ones.
    pub post_due_bills-Reaches :
        (v : World) → Reaches w v → Reaches w (post_due_bills format env meanwhile now v).world
    unfolding post_due_bills
    post_due_bills-Reaches v r =
        on_success-Reaches w (start_run v) _ (iso_add_days (utc_date now) (pos 1)) r (λ latest.
          post_templates-Reaches (due_templates latest v.db.houses v.db.bills) (start_run v) r)
