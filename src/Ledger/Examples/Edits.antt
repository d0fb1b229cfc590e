-- ===== src/Ledger/Examples/Edits.antt =====
-- The theorems on edits at concrete inputs.
use homi_v.Prelude.{◌≡◌, refl, false, none, some, [], ◌∷◌, ◌++◌, find, keep, ◌==◌}
use homi_v.Prelude.Result.{Result, ok}
use homi_v.Money.Split.{
  compute_splits, assert_valid_total, split_by_mode, split_equal, fill, remainder_recipient,
  give_rest,
}
use homi_v.Db.{Error, StoredResponse, Revision, Expense, expense_body}
use homi_v.Activity.{World, transact, log}
use homi_v.Idempotency.{
  Options, find_stored_response, with_idempotency, proceed, finish, store, answer,
}
use homi_v.Posting.{
  resolve_splits, members_for, lock_active_members, by_user, resolve_with, unknown_in,
  placeholder_in, split_among, weights_to_use, active_member, split_rows,
}
use homi_v.Ledger.{as_400, reply, options_for}
use homi_v.Ledger.Once.{edit_expense_retry}
use homi_v.Ledger.Expenses.Revised.{Holds, edit_expense-revisions}
use homi_v.Ledger.Expenses.{
  edit_expense_tx, find_expense, replace_expense, edited, ExpenseInput, edit_expense,
}
use homi_v.Ledger.Examples.{home, lunch, alone, lunch_splits}

-- The lunch was nine euros, and two of them ate.
abbrev corrected : ExpenseInput
corrected = record lunch { amount_cents = 900; participants = 10 ∷ 11 ∷ [] }

abbrev edit_options : Options
edit_options = options_for 501 11 "PUT /v1/expenses/:expenseId" 79 2000

abbrev lunch_row : Expense
lunch_row = record {
  id = 100;
  house_id = 1;
  description = "Lunch";
  amount_cents = 1000;
  currency = "USD";
  paid_by = 10;
  category = none;
  is_staple = false;
  template_id = none;
  period = none;
  created_by = 10;
  created_at = 1000;
  deleted_at = none;
}

abbrev lunch_world : World
lunch_world = record {
  db = (record home { expenses = lunch_row ∷ []; splits = split_rows 100 lunch_splits });
  published = [];
}

abbrev edit : World → Result Error StoredResponse × World
edit = transact (edit_expense_tx edit_options 100 11 corrected)

abbrev edit_response : StoredResponse
edit_response = record {
  status = 200;
  body = expense_body (edited corrected lunch_row) ((10, 450) ∷ (11, 450) ∷ []);
}

edit_result : edit lunch_world ≡ (ok edit_response, (edit lunch_world).1)
unfolding transact edit_expense_tx find_expense replace_expense active_member as_400 reply log store
    resolve_splits members_for lock_active_members by_user resolve_with unknown_in placeholder_in
    split_among weights_to_use compute_splits assert_valid_total split_by_mode split_equal fill
    remainder_recipient give_rest
edit_result = refl

abbrev edited_lunch : World
edited_lunch = (edit_expense edit_options 100 11 corrected alone lunch_world).1

edited_result :
    edit_expense edit_options 100 11 corrected alone lunch_world ≡ (ok edit_response, edited_lunch)
unfolding edit_expense with_idempotency proceed finish find_stored_response answer transact
    edit_expense_tx find_expense replace_expense active_member as_400 reply log store resolve_splits
    members_for lock_active_members by_user resolve_with unknown_in placeholder_in split_among
    weights_to_use compute_splits assert_valid_total split_by_mode split_equal fill
    remainder_recipient give_rest
edited_result = refl

edit_expense_retry_example :
    edit_expense edit_options 100 11 corrected alone edited_lunch ≡ (ok edit_response, edited_lunch)
edit_expense_retry_example =
    edit_expense_retry edit_options 100 11 corrected alone alone lunch_world edited_lunch
      edit_response edited_result

edit_expense-revisions_example :
    (e : Expense) × (revision : Revision) × (find (λ x. x.id == 100) (lunch_row ∷ []) ≡ some e)
    × ((edit lunch_world).1.db.revisions ≡ [] ++ revision ∷ [])
    × Holds 11 e (keep (λ s. s.expense_id == 100) (split_rows 100 lunch_splits)) revision
edit_expense-revisions_example =
    edit_expense-revisions edit_options 100 11 corrected lunch_world (edit lunch_world).1
      edit_response (refl, (refl, (refl, tt))) edit_result
