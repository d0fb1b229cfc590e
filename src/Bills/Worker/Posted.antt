-- ===== src/Bills/Worker/Posted.antt =====
-- What a committed post has written and announced.
use homi_v.Prelude.{
  ℕ, ◌≡◌, sym, ap, ◌∙◌, subst, false, not, none, some, String, List, [], ◌∷◌, ◌++◌, any, map,
  update_where, arith, ◌==◌,
}
use homi_v.Prelude.Result.{ok}
use homi_v.Money.Split.{Splits}
use homi_v.Db.{BillTemplate, posting_problem}
use homi_v.Activity.{Tx, TxState, World, hint_of, lift, throw_if, log, transact, settle}
use homi_v.Activity.Laws.{>>=-eq-ok, lift-eq-ok, throw_if-eq-ok, transact-eq-ok}
use homi_v.Posting.{
  Env, insert_expense, resolve_splits, lock_active_members, expense_row, split_rows, same_period,
}
use homi_v.Posting.Resolve.{lock_active_members-Keeps}
use homi_v.Posting.Exact.{resolve_splits-Ensures}
use homi_v.Ledger.{event_of}
use homi_v.Bills.Schedule.{period_key}
use homi_v.Bills.Worker.{
  participants_of, is_empty, bill_split, bill_spec, post_splits, post_one_tx, post_one,
}
use homi_v.Bills.Worker.Keeps.{Exact}

-- The state after a post: the expense of the period with its splits, the event, the next run.
record Written (env : Env) (b : BillTemplate) (currency : String) (period advanced : List ℕ)
    (s : Splits) (t t' : TxState) : Type 0 where
  pub fresh_id : any (λ e. e.id == env.new_id) t.db.expenses ≡ false
  pub new_period : any (same_period (some b.id) (some period)) t.db.expenses ≡ false
  pub state : t' ≡ record t {
    db =
        (let d = t.db in
          record d {
            expenses = d.expenses ++ expense_row env (bill_spec b currency period) ∷ [];
            splits = d.splits ++ split_rows env.new_id s;
            events =
                d.events ++ event_of b.house_id b.owner_id "bill.posted" "expense" env.new_id ∷ [];
            bills =
                update_where (λ x. x.id == b.id) (λ x. record x { next_run = advanced }) d.bills;
          });
    logged = t.logged ++ event_of b.house_id b.owner_id "bill.posted" "expense" env.new_id ∷ [];
  }

post_splits-Written :
    (env : Env) (b : BillTemplate) (currency : String) (period advanced : List ℕ) (s : Splits)
    (t t' : TxState) (id : ℕ)
    → post_splits env b currency period advanced s t ≡ ok (id, t')
    → Written env b currency period advanced s t t'
unfolding post_splits log insert_expense
post_splits-Written env b currency period advanced s t t' id h = record {
  fresh_id = ground arith;
  new_period = ground arith;
  state = ground arith;
}

post_splits-id :
    (env : Env) (b : BillTemplate) (currency : String) (period advanced : List ℕ) (s : Splits)
    (t t' : TxState) (id : ℕ)
    → post_splits env b currency period advanced s t ≡ ok (id, t')
    → id ≡ env.new_id
unfolding post_splits log insert_expense
post_splits-id env b currency period advanced s t t' id h = ground arith

-- The worlds before and after a post that commits.
pub record Posted (env : Env) (b : BillTemplate) (currency : String) (due_iso advanced : List ℕ)
    (id : ℕ) (w w' : World) : Type 0 where
  pub period : List ℕ
  pub splits : Splits
  pub named : period_key b.cadence due_iso ≡ ok period
  pub exact : Exact (bill_spec b currency period) splits
  pub id_is : id ≡ env.new_id
  pub new_period : any (same_period (some b.id) (some period)) w.db.expenses ≡ false
  pub expenses :
      w'.db.expenses ≡ w.db.expenses ++ expense_row env (bill_spec b currency period) ∷ []
  pub rows : w'.db.splits ≡ w.db.splits ++ split_rows env.new_id splits
  pub bills :
      w'.db.bills
      ≡ update_where (λ x. x.id == b.id) (λ x. record x { next_run = advanced }) w.db.bills
  pub published :
      w'.published
      ≡ w.published
        ++ hint_of (event_of b.house_id b.owner_id "bill.posted" "expense" env.new_id) ∷ []

-- What a transaction that commits announces.
transact-published :
    {A : Type 0} (m : Tx A) (w w' : World) (a : A) (t : TxState)
    → transact m w ≡ (ok a, w')
    → m (record { db = w.db; logged = [] }) ≡ ok (a, t)
    → w'.published ≡ w.published ++ map hint_of t.logged
unfolding transact
transact-published m w w' a t h run = ap (λ r. r.1.published) (sym (sym (ap (settle w) run) ∙ h))

-- The facts of the steps make up those of the post.
assemble :
    (env : Env) (b : BillTemplate) (currency : String) (due_iso advanced period : List ℕ)
    (s : Splits) (id : ℕ) (w w' : World) (t : TxState)
    → period_key b.cadence due_iso ≡ ok period
    → Exact (bill_spec b currency period) s
    → id ≡ env.new_id
    → Written env b currency period advanced s (record { db = w.db; logged = [] }) t
    → w'.db ≡ t.db
    → w'.published ≡ w.published ++ map hint_of t.logged
    → Posted env b currency due_iso advanced id w w'
assemble env b currency due_iso advanced period s id w w' t named exact id_is wr db out =
    let tables = db ∙ ap (λ x. x.db) wr.state in
    record {
      period = period;
      splits = s;
      named = named;
      exact = exact;
      id_is = id_is;
      new_period = wr.new_period;
      expenses = ap (λ d. d.expenses) tables;
      rows = ap (λ d. d.splits) tables;
      bills = ap (λ d. d.bills) tables;
      published = out ∙ ap (λ x. w.published ++ map hint_of x.logged) wr.state;
    }

-- A post that commits adds one expense, for a period of the bill that had none, whose splits add up
-- to the bill's amount; it moves the bill's next run on, and announces the expense.
pub post_one-Posted :
    (env : Env) (b : BillTemplate) (currency : String) (due_iso advanced : List ℕ) (w w' : World)
    (id : ℕ)
    → post_one env b currency due_iso advanced w ≡ (ok id, w')
    → Posted env b currency due_iso advanced id w w'
unfolding post_one post_one_tx
post_one-Posted env b currency due_iso advanced w w' id h =
    let (t', run, out) = transact-eq-ok (post_one_tx env b currency due_iso advanced) w w' id h in
    let t0 : TxState = record { db = w.db; logged = [] } in
    let (period, t1, named, r1) = >>=-eq-ok (lift (period_key b.cadence due_iso)) _ t0 run in
    let (members, t2, read, r2) = >>=-eq-ok (lock_active_members b.house_id none) _ t1 r1 in
    let (_, t3, g3, r3) =
      >>=-eq-ok
        (throw_if (not (any (λ m. m.user_id == b.owner_id) members))
          (posting_problem "the bill owner is no longer a house member"))
        _ t2 r2 in
    let (_, t4, g4, r4) =
      >>=-eq-ok
        (throw_if (is_empty (participants_of b members))
          (posting_problem "the house has no active members"))
        _ t3 r3 in
    let (s, t5, resolved, r5) =
      >>=-eq-ok
        (resolve_splits b.house_id (bill_split b (participants_of b members)) (some members)) _ t4
        r4 in
    let (named', e1) = lift-eq-ok (period_key b.cadence due_iso) t0 named in
    let (_, e3) = throw_if-eq-ok _ _ t2 g3 in
    let (_, e4) = throw_if-eq-ok _ _ t3 g4 in
    let e2 : t2 ≡ t0 =
      (lock_active_members-Keeps {P = λ x. x ≡ t0} b.house_id none).at t1 members t2 e1 read in
    let (e5, exact) =
      (resolve_splits-Ensures (λ x. x ≡ t0) b.house_id (bill_split b (participants_of b members))
          (some members)).after
        t4 s t5 (e4 ∙ e3 ∙ e2) resolved in
    let last : post_splits env b currency period advanced s t0 ≡ ok (id, t') =
      subst (λ x. post_splits env b currency period advanced s x ≡ ok (id, t')) e5 r5 in
    assemble env b currency due_iso advanced period s id w w' t' named' exact
      (post_splits-id env b currency period advanced s t0 t' id last)
      (post_splits-Written env b currency period advanced s t0 t' id last) out
      (transact-published (post_one_tx env b currency due_iso advanced) w w' id t' h run)
