-- ===== src/Bills/Service/First.antt =====
-- The next run of a bill that createBill adds.
use homi_v.Prelude.{
  ℕ, ◌≡◌, sym, ap, ◌∙◌, subst, ◌<◌, Option, some, List, [], ◌∷◌, ◌++◌, arith, none,
}
use homi_v.Prelude.Result as R
use homi_v.Prelude.Result.{Result, ok, err}
use homi_v.Db.{
  Db, Error, bad_request, Cadence, BillTemplate, House, StoredResponse, bill_body, schedule_error,
}
use homi_v.Activity.{Tx, TxState, World, query, or_throw, lift, transact, ◌>>=◌, ◌>>◌}
use homi_v.Activity.Laws.{>>=-eq-ok, or_throw-eq-ok, lift-eq-ok, transact-eq-ok}
use homi_v.Idempotency.{Options}
use homi_v.Posting.{Env, lock_acting_member}
use homi_v.Posting.Insert.{lock_acting_member-Keeps}
use homi_v.Ledger.{as_400, find_house, reply, event_of}
use homi_v.Ledger.Keeps.{as_400-Keeps, reply-Keeps}
use homi_v.Bills.Calendar.{Date}
use homi_v.Bills.Iso.{parse_iso, iso_add_days}
use homi_v.Bills.Schedule.{validate_schedule, next_due_date, first_due_date}
use homi_v.Bills.Schedule.Today.{IsFirst, first_due_date-IsFirst}
use homi_v.Bills.Service.{
  Format, CreateBillInput, today_in_timezone, owner_or, bill_row, insert_bill, create_bill_tx,
}
use homi_v.Prelude.Int.{negsuc}

pub read-eq-ok :
    {A : Type 0} (f : Db → A) (t t' : TxState) (a : A)
    → query f t ≡ ok (a, t')
    → (a ≡ f t.db) × (t' ≡ t)
read-eq-ok f t t' a h = (cc, cc)

pub some-same : {A : Type 0} (a b : A) → ◌≡◌ {A = Option A} (some a) (some b) → a ≡ b
some-same a b h = cc

pub ok-same : (a b : List ℕ) → ◌≡◌ {A = Result Error (List ℕ)} (ok a) (ok b) → a ≡ b
ok-same a b h = cc

abbrev pub today_text : Option (List ℕ) → Result Error (List ℕ)
today_text none = err (schedule_error "cannot compute dates in timezone")
today_text (some day) = ok day

-- Dates are computed for a schedule that passes the check only.
first_due_date-valid :
    (cadence : Cadence) (cadence_day today_iso next_run : List ℕ)
    → first_due_date cadence cadence_day today_iso ≡ ok next_run
    → validate_schedule cadence cadence_day ≡ ok tt
unfolding first_due_date next_due_date
first_due_date-valid cadence cadence_day today_iso next_run h =
    let (yesterday, _, next) = R.>>=-eq-ok (iso_add_days today_iso (negsuc 0)) _ h in
    let (_, valid, _) = R.>>=-eq-ok (validate_schedule cadence cadence_day) _ next in valid

-- The next run that the code computes.
pub next_run-IsFirst :
    (cadence : Cadence) (cadence_day today_iso next_run : List ℕ) (today : Date)
    → parse_iso today_iso ≡ ok today
    → 100 < today.year
    → today.year < 9999
    → first_due_date cadence cadence_day today_iso ≡ ok next_run
    → IsFirst cadence cadence_day today (ok next_run)
next_run-IsFirst cadence cadence_day today_iso next_run today parsed since until h =
    subst (IsFirst cadence cadence_day today) h (
      first_due_date-IsFirst cadence cadence_day today_iso today
        (first_due_date-valid cadence cadence_day today_iso next_run h) parsed since until)

insert_bill-bills :
    (bill : BillTemplate) (t t' : TxState)
    → insert_bill bill t ≡ ok (tt, t')
    → t'.db.bills ≡ t.db.bills ++ bill ∷ []
unfolding insert_bill
insert_bill-bills bill t t' h = ground arith

module _ (format : Format) (house_id user_id : ℕ) (house : House) (today_iso : List ℕ)
    (today : Date) (parsed : parse_iso today_iso ≡ ok today) (since : 100 < today.year)
    (until : today.year < 9999) where
  abbrev insert_and_reply : Options → Env → CreateBillInput → List ℕ → Tx StoredResponse
  insert_and_reply o env input next_run =
      let bill = bill_row env house_id user_id input next_run in
      insert_bill bill
      >> reply o (event_of house_id user_id "bill.created" "bill" env.new_id)
          (record { status = 201; body = bill_body bill })

  abbrev from_day : Options → Env → CreateBillInput → List ℕ → Tx StoredResponse
  from_day o env input day =
      lift (first_due_date input.cadence input.cadence_day day) >>= insert_and_reply o env input

  abbrev from_house : Options → Env → CreateBillInput → House → Tx StoredResponse
  from_house o env input in_house =
      as_400 (lock_acting_member house_id (owner_or input.owner_id user_id))
      >> (lift (today_in_timezone format in_house.timezone env.now) >>= from_day o env input)

  abbrev from_row : Options → Env → CreateBillInput → Option House → Tx StoredResponse
  from_row o env input row = or_throw row (bad_request "House not found") >>= from_house o env input

  -- A bill that createBill adds is due next on the least due date that is not before the day that
  -- it is in the house's time zone. That day is from the year 101 to the year 9998.
  pub create_bill_tx-IsFirst :
      (o : Options) (env : Env) (input : CreateBillInput) (w w' : World) (r : StoredResponse)
      → find_house house_id w.db ≡ some house
      → format house.timezone env.now ≡ some today_iso
      → transact (create_bill_tx format o env house_id user_id input) w ≡ (ok r, w')
      → (next_run : List ℕ) × (w'.db.bills
          ≡ w.db.bills ++ bill_row env house_id user_id input next_run ∷ [])
        × IsFirst input.cadence input.cadence_day today (ok next_run)
  unfolding create_bill_tx today_in_timezone
  create_bill_tx-IsFirst o env input w w' r found zoned h =
      let t0 : TxState = record { db = w.db; logged = [] } in
      let (t', run, out) =
        transact-eq-ok (create_bill_tx format o env house_id user_id input) w w' r h in
      let (row, t1, e1, r1) =
        >>=-eq-ok (query (find_house house_id)) (from_row o env input) t0 run in
      let (row_is, s1) = read-eq-ok (find_house house_id) t0 t1 row e1 in
      let (house', t2, e2, r2) =
        >>=-eq-ok (or_throw row (bad_request "House not found")) (from_house o env input) t1 r1 in
      let (some_house, s2) = or_throw-eq-ok row _ t1 e2 in
      let same : house' ≡ house = some-same house' house (sym some_house ∙ (row_is ∙ found)) in
      let (_, t3, e3, r3) =
        >>=-eq-ok (as_400 (lock_acting_member house_id (owner_or input.owner_id user_id)))
          (λ _. lift (today_in_timezone format house'.timezone env.now) >>= from_day o env input) t2
          r2 in
      let s3 : t3 ≡ t0 =
        (as_400-Keeps {P = λ x. x ≡ t0} _ (lock_acting_member-Keeps house_id _)).at t2 tt t3
          (s2 ∙ s1) e3 in
      let (day, t4, e4, r4) =
        >>=-eq-ok (lift (today_in_timezone format house'.timezone env.now)) (from_day o env input)
          t3 r3 in
      let (day_is, s4) = lift-eq-ok (today_in_timezone format house'.timezone env.now) t3 e4 in
      let zone : today_in_timezone format house'.timezone env.now ≡ ok today_iso =
        ap (λ x. today_in_timezone format x.timezone env.now) same ∙ ap today_text zoned in
      let on_day : day ≡ today_iso = ok-same day today_iso (sym day_is ∙ zone) in
      let (next_run, t5, e5, r5) =
        >>=-eq-ok (lift (first_due_date input.cadence input.cadence_day day))
          (insert_and_reply o env input) t4 r4 in
      let (next_is, s5) = lift-eq-ok (first_due_date input.cadence input.cadence_day day) t4 e5 in
      let bill = bill_row env house_id user_id input next_run in
      let event = event_of house_id user_id "bill.created" "bill" env.new_id in
      let response : StoredResponse = record { status = 201; body = bill_body bill } in
      let replies : Tx StoredResponse = reply o event response in
      let (_, t6, e6, r6) = >>=-eq-ok (insert_bill bill) (λ _. replies) t5 r5 in
      let start : t5 ≡ t0 = s5 ∙ (s4 ∙ s3) in
      let added : t6.db.bills ≡ w.db.bills ++ bill ∷ [] =
        insert_bill-bills bill t5 t6 e6 ∙ ap (λ x. x.db.bills ++ bill ∷ []) start in
      let kept : t'.db.bills ≡ w.db.bills ++ bill ∷ [] =
        (reply-Keeps (λ x. x.db.bills ≡ w.db.bills ++ bill ∷ []) o event response
            (record { events = λ t es ls h. h; keys = λ t ks h. h })).at
          t6 r t' added r6 in
      (
        next_run,
        ap (λ d. d.bills) out ∙ kept,
        next_run-IsFirst input.cadence input.cadence_day today_iso next_run today parsed since until
            (ap (first_due_date input.cadence input.cadence_day) (sym on_day) ∙ next_is),
      )
