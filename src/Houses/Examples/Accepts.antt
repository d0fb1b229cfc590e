-- ===== src/Houses/Examples/Accepts.antt =====
-- The theorem on acceptInvite at a concrete input: the claimer has a split of the expense too.
use homi_v.Prelude.{◌≡◌, refl, true, false, subst, none, some, [], ◌∷◌}
use homi_v.Db.{Invite, Expense, member}
use homi_v.Houses.Examples.{row, resident}
use homi_v.Houses.Invites.{
  accept_invite, accept_invite_tx, accept_usable, usable, inherited_room, join, settle_accept,
  claim, take_room, consume_use,
}
use homi_v.Houses.Claim.{
  add_share, grow, claim_history, log_folded, claim_splits, fold_shares, drop_folded, rename,
  folded_expenses,
}
use homi_v.Activity.{log, transact, World}
use homi_v.Houses.Invites.Claimable.{IsOther}
use homi_v.Houses.Invites.Sound.{NotOwn}
use homi_v.Ledger.History.Steps.{IsSound}
use homi_v.Ledger.History.Accepted.{accept_invite-IsSound}

abbrev link : Invite
link = record {
  id = 70;
  house_id = 1;
  token_hash = 9;
  created_by = 10;
  placeholder_user_id = some 12;
  expires_at = 5000;
  max_uses = 1;
  uses = 0;
  revoked_at = none;
}

abbrev dinner : Expense
dinner = record {
  id = 100;
  house_id = 1;
  description = "Dinner";
  amount_cents = 1000;
  currency = "USD";
  paid_by = 10;
  category = none;
  is_staple = false;
  template_id = none;
  period = none;
  created_by = 10;
  created_at = 500;
  deleted_at = none;
}

abbrev invited : World
invited = record {
  db = record {
    users = [];
    houses = [];
    rooms = [];
    members =
        resident 10 member
        ∷ resident 11 member
        ∷ (let m = resident 12 member in record m { is_placeholder = true })
        ∷ [];
    invites = link ∷ [];
    expenses = dinner ∷ [];
    splits = row 100 10 400 ∷ row 100 11 300 ∷ row 100 12 300 ∷ [];
    revisions = [];
    bills = [];
    payments = [];
    keys = [];
    events = [];
  };
  published = [];
}

invited-IsSound : IsSound invited
invited-IsSound = record {
  books = record {
    balanced = (refl, tt);
    referred = (refl, (refl, (refl, tt)));
    unique = (refl, tt);
    keyed = (refl, (refl, (refl, tt)));
  };
  payments = tt;
  announced = refl;
  periods = (refl, tt);
}

link-NotOwn : NotOwn 9 11 invited.db.invites
link-NotOwn i found =
    let same : link ≡ i = cc in subst (λ j. IsOther 11 j.placeholder_user_id) same refl

-- The two splits have become one.
accepts_link : (accept_invite 1000 9 11 invited).1.db.splits ≡ row 100 10 400 ∷ row 100 11 600 ∷ []
unfolding add_share grow accept_invite accept_invite_tx accept_usable usable inherited_room join
    settle_accept claim take_room claim_history log_folded claim_splits fold_shares drop_folded
    rename folded_expenses consume_use log transact
accepts_link = refl

accept_invite-IsSound_example : IsSound (accept_invite 1000 9 11 invited).1
accept_invite-IsSound_example = accept_invite-IsSound 1000 9 11 invited link-NotOwn invited-IsSound
