-- ===== src/Ledger/History/Sound.antt =====
-- Every world that the ledger reaches from a sound one is sound.
use homi_v.Ledger.History.Homes.{
  set_rooms-IsSound, set_display_name-IsSound, create_placeholder-IsSound, create_invite-IsSound,
}
use homi_v.Activity.{World}
use homi_v.Ledger.Expenses.{create_expense, edit_expense, create_expense_tx, edit_expense_tx}
use homi_v.Ledger.Payments.{
  dispute_payment, dispute_payment_tx, resolve_payment, resolve_payment_tx,
}
use homi_v.Ledger.History.{
  Reaches, stay, creates, edits, records, disputes, resolves, accepts, creates_bill, switches_bill,
  posts, pauses, skips, creates_house, sets_rooms, renames, adds_placeholder, invites, prunes,
}
use homi_v.Ledger.History.Steps.{
  IsSound, transact-IsSound, create-KeepsSound, edit-KeepsSound, dispute-KeepsSound,
  resolve-KeepsSound, idempotent-IsSound, record_payment-IsSound,
}
use homi_v.Ledger.History.Billed.{
  create_bill-IsSound, set_active-IsSound, post_one-IsSound, pause-IsSound, skip_period-IsSound,
}
use homi_v.Ledger.History.Housed.{create_house-IsSound}
use homi_v.Ledger.History.Accepted.{accept_invite-IsSound}

-- Whatever sequence of these steps leads from a sound world to another, the other is sound: requests
-- that create and edit expenses, record, dispute and resolve payments, create, pause and resume
-- bills, create houses, invites and placeholders, set rooms and display names, and accept invites,
-- where nobody accepts an invite that is bound to themselves; posts, pauses and skips of the worker;
-- and the pruning of keys; also when such steps are committed between the lookup of a request's key
-- and its transaction. A world is sound if the splits of every expense add up to its amount and
-- belong to an expense, no user has two splits of one expense, no two expenses share an id, no two
-- expenses are for the same period of the same bill, every payment moves a positive amount between
-- two people and has the time stamps of its status, and the events announced are those on the feed,
-- in the same order.
pub Reaches-IsSound : {w v : World} → Reaches w v → IsSound w → IsSound v
unfolding create_expense edit_expense dispute_payment resolve_payment
Reaches-IsSound (stay w) s = s
Reaches-IsSound (creates o env house_id user_id input meanwhile w v before between) s =
    let now = Reaches-IsSound before s in
    idempotent-IsSound o (create_expense_tx o env house_id user_id input)
      (create-KeepsSound o env house_id user_id input) meanwhile v now (Reaches-IsSound between now)
Reaches-IsSound (edits o expense_id user_id input meanwhile w v before between) s =
    let now = Reaches-IsSound before s in
    idempotent-IsSound o (edit_expense_tx o expense_id user_id input)
      (edit-KeepsSound o expense_id user_id input) meanwhile v now (Reaches-IsSound between now)
Reaches-IsSound (records o env house_id user_id input meanwhile w v before between) s =
    let now = Reaches-IsSound before s in
    record_payment-IsSound o env house_id user_id input meanwhile v now
      (Reaches-IsSound between now)
Reaches-IsSound (disputes now payment_id user_id w v before) s =
    transact-IsSound (dispute_payment_tx now payment_id user_id)
      (dispute-KeepsSound now payment_id user_id) v (Reaches-IsSound before s)
Reaches-IsSound (resolves now payment_id user_id w v before) s =
    transact-IsSound (resolve_payment_tx now payment_id user_id)
      (resolve-KeepsSound now payment_id user_id) v (Reaches-IsSound before s)
Reaches-IsSound (accepts now token_hash user_id w v before other) s =
    accept_invite-IsSound now token_hash user_id v other (Reaches-IsSound before s)
Reaches-IsSound (creates_bill format o env house_id user_id input meanwhile w v before between) s =
    let now = Reaches-IsSound before s in
    create_bill-IsSound format o env house_id user_id input meanwhile v now
      (Reaches-IsSound between now)
Reaches-IsSound (switches_bill format now house_id bill_id user_id active w v before) s =
    set_active-IsSound format now house_id bill_id user_id active v (Reaches-IsSound before s)
Reaches-IsSound (posts env b currency due_iso advanced w v before) s =
    post_one-IsSound env b currency due_iso advanced v (Reaches-IsSound before s)
Reaches-IsSound (pauses b w v before) s = pause-IsSound b v (Reaches-IsSound before s)
Reaches-IsSound (skips id due_iso advanced w v before) s =
    skip_period-IsSound id due_iso advanced v (Reaches-IsSound before s)
Reaches-IsSound (creates_house env user_id input w v before) s =
    create_house-IsSound env user_id input v (Reaches-IsSound before s)
Reaches-IsSound (sets_rooms new_id house_id actor_id rooms w v before) s =
    set_rooms-IsSound new_id house_id actor_id rooms v (Reaches-IsSound before s)
Reaches-IsSound (renames house_id user_id display_name w v before) s =
    set_display_name-IsSound house_id user_id display_name v (Reaches-IsSound before s)
Reaches-IsSound (adds_placeholder env house_id actor_id name w v before) s =
    create_placeholder-IsSound env house_id actor_id name v (Reaches-IsSound before s)
Reaches-IsSound (invites env max_uses token_hash house_id actor_id placeholder_id w v before) s =
    create_invite-IsSound env max_uses token_hash house_id actor_id placeholder_id v
      (Reaches-IsSound before s)
Reaches-IsSound (prunes cutoff limit w v before) s =
    let sound = Reaches-IsSound before s in
    record {
      books = sound.books;
      payments = sound.payments;
      announced = sound.announced;
      periods = sound.periods;
    }
