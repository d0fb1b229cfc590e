-- ===== src/Ledger/Feed/Examples.antt =====
-- The pages of a house with two expenses and a payment, two rows to a page.
use homi_v.Ledger.Feed.{row_key}
use homi_v.Prelude.Sort.{take, drop}
use homi_v.Prelude.Decimal.{decimal, value, codes, pad_start}
use homi_v.Prelude.{
  ℕ, ◌≡◌, refl, false, none, some, Option, List, [], ◌∷◌, map, arith, ap, length, ◌++◌, All,
}
use homi_v.Prelude.Result.{ok}
use homi_v.Money.Balances.{recorded}
use homi_v.Db.{Db, Expense, Payment}
use homi_v.Ledger.Cursor.{Platform, Parsed, Documented, Printed}
use homi_v.Ledger.Feed.Page.{feed, listed, shown}
use homi_v.Ledger.Feed.Falling.{Apart}
use homi_v.Ledger.Feed.Walk.{walk, walk-feed}
use homi_v.Ledger.Examples.{home}

-- A platform that writes the two texts after their lengths, and times as decimal numerals.
abbrev two_texts : Platform
two_texts = record {
  stringify = λ c. length c.t ∷ (c.t ++ c.id);
  parse = parse;
  to_base64url = λ s. s;
  from_base64url = λ s. s;
  to_iso_string = decimal;
  parse_date = λ s. some (value 0 s);
  uuid_text = λ id. codes "00000000-0000-4000-8000-" ++ pad_start 12 (decimal id);
  uuid_of = λ s. value 0 (drop 24 s);
}
  where
    parse : List ℕ → Option Parsed
    parse [] = none
    parse (n ∷ s) = some (record { t = some (take n s); id = some (drop n s) })

take_whole : (s t : List ℕ) → take (length s) (s ++ t) ≡ s
take_whole [] t = refl
take_whole (c ∷ s) t = ap (λ x. c ∷ x) (take_whole s t)

drop_whole : (s t : List ℕ) → drop (length s) (s ++ t) ≡ t
drop_whole [] t = refl
drop_whole (c ∷ s) t = drop_whole s t

two_texts-Documented : Documented two_texts
two_texts-Documented = record {
  decodes = λ s. refl;
  parses = λ c. rw (take_whole c.t c.id, drop_whole c.t c.id) refl;
  filled = λ c. refl;
}

abbrev bought : ℕ → ℕ → Expense
bought id created_at = record {
  id = id;
  house_id = 1;
  description = "Lunch";
  amount_cents = 1000;
  currency = "USD";
  paid_by = 10;
  category = none;
  is_staple = false;
  template_id = none;
  period = none;
  created_by = 10;
  created_at = created_at;
  deleted_at = none;
}

abbrev pub paid_back : Payment
paid_back = record {
  id = 200;
  house_id = 1;
  from_user = 11;
  to_user = 10;
  amount_cents = 334;
  currency = "USD";
  method = none;
  status = recorded;
  created_at = 6000;
  disputed_at = none;
  resolved_at = none;
}

abbrev used : Db
used = record home {
  expenses = bought 100 5000 ∷ bought 101 7000 ∷ [];
  splits =
      record { expense_id = 100; user_id = 10; amount_cents = 666 }
      ∷ record { expense_id = 100; user_id = 11; amount_cents = 334 }
      ∷ record { expense_id = 101; user_id = 10; amount_cents = 1000 }
      ∷ [];
  payments = paid_back ∷ [];
}

listed-Apart : Apart (listed 1 used)
listed-Apart = ((refl, (refl, tt)), ((refl, tt), (tt, tt)))

rows-Printed : All (λ r. Printed two_texts (row_key r)) (feed 1 used)
unfolding decimal pad_start
rows-Printed = (
  record { time = refl; form = refl; id_is = refl },
  (
    record { time = refl; form = refl; id_is = refl },
    (record { time = refl; form = refl; id_is = refl }, tt),
  ),
)

walk-feed_example : walk two_texts 1 2 used 4 none ≡ ok (map (shown used) (feed 1 used))
walk-feed_example =
    walk-feed two_texts 1 2 used two_texts-Documented rows-Printed listed-Apart (omega arith) 4
      (omega arith)
