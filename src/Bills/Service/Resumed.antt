-- ===== src/Bills/Service/Resumed.antt =====
-- The next run of a bill that setActive resumes.
use homi_v.Prelude.{
  ℕ, ◌≡◌, sym, ap, ◌∙◌, subst, ◌<◌, false, true, not, Option, some, List, [], find, update_where,
  arith, ◌==◌, ◌&&◌, String,
}
use homi_v.Prelude.Result.{ok}
use homi_v.Db.{not_found, forbidden, BillTemplate, House, Role}
use homi_v.Activity.{
  Tx, TxState, World, query, or_throw, lift, execute, log, throw_if, pure, ◌>>=◌, ◌>>◌,
}
use homi_v.Activity.Laws.{>>=-eq-ok, or_throw-eq-ok, lift-eq-ok, throw_if-eq-ok, transact-eq-ok}
use homi_v.Ledger.{find_house, event_of}
use homi_v.Houses.{active_member_role}
use homi_v.Bills.Calendar.{Date}
use homi_v.Bills.Iso.{parse_iso}
use homi_v.Bills.Schedule.{first_due_date}
use homi_v.Bills.Schedule.Today.{IsFirst}
use homi_v.Bills.Service.{
  Format, today_in_timezone, may_change, switched, next_run_for, switch_bill, set_active_tx,
  set_active,
}
use homi_v.Bills.Service.First.{read-eq-ok, some-same, ok-same, today_text, next_run-IsFirst}

module _ (format : Format) (house_id user_id : ℕ) (house : House) (today_iso : List ℕ)
    (today : Date) (parsed : parse_iso today_iso ≡ ok today) (since : 100 < today.year)
    (until : today.year < 9999) where
  abbrev on_house : ℕ → BillTemplate → House → Tx (List ℕ)
  on_house now bill in_house = lift (today_in_timezone format in_house.timezone now) >>= λ day.
      lift (first_due_date bill.cadence bill.cadence_day day)

  -- The next run of a bill that is resumed.
  next_run_for-IsFirst :
      (now : ℕ) (bill : BillTemplate) (t t' : TxState) (next_run : List ℕ)
      → find_house house_id t.db ≡ some house
      → format house.timezone now ≡ some today_iso
      → next_run_for format now house_id bill true t ≡ ok (next_run, t')
      → (t' ≡ t) × IsFirst bill.cadence bill.cadence_day today (ok next_run)
  unfolding next_run_for today_in_timezone
  next_run_for-IsFirst now bill t t' next_run found zoned run =
      let (row, t1, e1, r1) =
        >>=-eq-ok (query (find_house house_id))
          (λ row. or_throw row (not_found "House not found") >>= on_house now bill) t run in
      let (row_is, s1) = read-eq-ok (find_house house_id) t t1 row e1 in
      let (house', t2, e2, r2) =
        >>=-eq-ok (or_throw row (not_found "House not found")) (on_house now bill) t1 r1 in
      let (some_house, s2) = or_throw-eq-ok row (not_found "House not found") t1 e2 in
      let same : house' ≡ house = some-same house' house (sym some_house ∙ (row_is ∙ found)) in
      let (day, t3, e3, r3) =
        >>=-eq-ok (lift (today_in_timezone format house'.timezone now))
          (λ day. lift (first_due_date bill.cadence bill.cadence_day day)) t2 r2 in
      let (day_is, s3) = lift-eq-ok (today_in_timezone format house'.timezone now) t2 e3 in
      let (next_is, s4) = lift-eq-ok (first_due_date bill.cadence bill.cadence_day day) t3 r3 in
      let zone : today_in_timezone format house'.timezone now ≡ ok today_iso =
        ap (λ x. today_in_timezone format x.timezone now) same ∙ in_zone zoned in
      let on_day : day ≡ today_iso = ok-same day today_iso (sym day_is ∙ zone) in
      (
        s4 ∙ (s3 ∙ (s2 ∙ s1)),
        next_run-IsFirst bill.cadence bill.cadence_day today_iso next_run today parsed since until
            (ap (first_due_date bill.cadence bill.cadence_day) (sym on_day) ∙ next_is),
      )
    where
      in_zone :
          {zone : String}
          → format zone now ≡ some today_iso
          → today_in_timezone format zone now ≡ ok today_iso
      in_zone h = ap today_text h

  abbrev pub Resumed : BillTemplate → List BillTemplate → List BillTemplate → Type 0
  Resumed bill before after =
      (next_run : List ℕ) × (after
        ≡ update_where (λ b. b.id == bill.id) (λ b. record b { active = true; next_run = next_run })
            before)
      × IsFirst bill.cadence bill.cadence_day today (ok next_run)

  abbrev announce : ℕ → BillTemplate → List ℕ → Tx BillTemplate
  announce now bill next_run =
      execute (λ db. record db {
        bills = update_where (λ b. b.id == bill.id) (switched true next_run) db.bills;
      })
      >> (log (event_of house_id user_id "bill.resumed" "bill" bill.id)
          >> pure (switched true next_run bill))

  switch_bill-IsFirst :
      (now : ℕ) (bill : BillTemplate) (t t' : TxState) (b : BillTemplate)
      → find_house house_id t.db ≡ some house
      → format house.timezone now ≡ some today_iso
      → bill.active ≡ false
      → switch_bill format now house_id user_id bill true t ≡ ok (b, t')
      → Resumed bill t.db.bills t'.db.bills
  unfolding switch_bill log next_run_for
  switch_bill-IsFirst now bill t t' b found zoned paused h =
      let (next_run, t1, e1, r1) =
        >>=-eq-ok (next_run_for format now house_id bill true) (announce now bill) t
          (rw paused at h) in
      let (same, first) = next_run_for-IsFirst now bill t t1 next_run found zoned e1 in
      let written : t'.db.bills
          ≡ update_where (λ b. b.id == bill.id) (switched true next_run) t1.db.bills =
        ground arith in
      (
        next_run,
        written
            ∙ ap (λ x. update_where (λ b. b.id == bill.id) (switched true next_run) x.db.bills)
                same,
        first,
      )

  abbrev for_role : ℕ → BillTemplate → Option Role → Tx BillTemplate
  for_role now bill role =
      throw_if (not (may_change role user_id bill))
        (forbidden "Only the bill owner or a house admin can change a bill")
      >> switch_bill format now house_id user_id bill true

  abbrev for_bill : ℕ → BillTemplate → Tx BillTemplate
  for_bill now bill = query (active_member_role house_id user_id) >>= for_role now bill

  -- A paused bill that setActive resumes is due next on the least due date that is not before the
  -- day that it is in the house's time zone: what it missed is skipped. That day is from the year
  -- 101 to the year 9998.
  pub set_active-IsFirst :
      (now bill_id : ℕ) (bill b : BillTemplate) (w w' : World)
      → find_house house_id w.db ≡ some house
      → format house.timezone now ≡ some today_iso
      → find (λ b. b.id == bill_id && b.house_id == house_id) w.db.bills ≡ some bill
      → bill.active ≡ false
      → set_active format now house_id bill_id user_id true w ≡ (ok b, w')
      → Resumed bill w.db.bills w'.db.bills
  unfolding set_active set_active_tx
  set_active-IsFirst now bill_id bill b w w' found zoned bill_is paused h =
      let t0 : TxState = record { db = w.db; logged = [] } in
      let (t', run, out) =
        transact-eq-ok (set_active_tx format now house_id bill_id user_id true) w w' b h in
      let (row, t1, e1, r1) =
        >>=-eq-ok (query (λ db. find (λ b. b.id == bill_id && b.house_id == house_id) db.bills))
          (λ row. or_throw row (not_found "Bill not found") >>= for_bill now) t0 run in
      let (row_is, s1) =
        read-eq-ok (λ db. find (λ b. b.id == bill_id && b.house_id == house_id) db.bills) t0 t1 row
          e1 in
      let (bill', t2, e2, r2) =
        >>=-eq-ok (or_throw row (not_found "Bill not found")) (for_bill now) t1 r1 in
      let (some_bill, s2) = or_throw-eq-ok row (not_found "Bill not found") t1 e2 in
      let same : bill ≡ bill' = some-same bill bill' (sym bill_is ∙ (sym row_is ∙ some_bill)) in
      let (role, t3, e3, r3) =
        >>=-eq-ok (query (active_member_role house_id user_id)) (for_role now bill') t2 r2 in
      let (role_is, s3) = read-eq-ok (active_member_role house_id user_id) t2 t3 role e3 in
      let (_, t4, e4, r4) =
        >>=-eq-ok
          (throw_if (not (may_change role user_id bill'))
            (forbidden "Only the bill owner or a house admin can change a bill"))
          (λ _. switch_bill format now house_id user_id bill' true) t3 r3 in
      let (allowed, s4) = throw_if-eq-ok _ _ t3 e4 in
      let start : t4 ≡ t0 = s4 ∙ (s3 ∙ (s2 ∙ s1)) in
      let resumed : Resumed bill' w.db.bills t'.db.bills =
        subst (λ x. find_house house_id x.db ≡ some house → Resumed bill' x.db.bills t'.db.bills)
          start
          (λ there.
            switch_bill-IsFirst now bill' t4 t' b there zoned
              (ap (λ x. x.active) (sym same) ∙ paused) r4)
          found in
      subst (λ d. Resumed bill w.db.bills d.bills) (sym out)
        (subst (λ x. Resumed x w.db.bills t'.db.bills) (sym same) resumed)
