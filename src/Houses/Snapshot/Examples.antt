-- ===== src/Houses/Snapshot/Examples.antt =====
-- A payment of the last hours, shown to its recipient.
use homi_v.Prelude.{◌≡◌, refl, false, All}
use homi_v.Money.Balances.{recorded}
use homi_v.Posting.{active_member, is_null}
use homi_v.Ledger.Examples.Payments.{with_payment}
use homi_v.Houses.Snapshot.{disputable_payments}
use homi_v.Houses.Snapshot.Confirmed.{IsAcceptedNow, disputable_payments_accepted}

recipient_is_active : is_null (active_member 1 10 (with_payment recorded).db) ≡ false
unfolding active_member
recipient_is_active = refl

disputable_payments_accepted_example :
    All
      (IsAcceptedNow 1 10 5000 (with_payment recorded) recipient_is_active (refl, tt))
      (disputable_payments 1 10 5000 (with_payment recorded).db.payments)
disputable_payments_accepted_example =
    disputable_payments_accepted 1 10 5000 (with_payment recorded) recipient_is_active (refl, tt)
