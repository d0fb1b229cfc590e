-- ===== src/Bills/Fields.antt =====
-- The test of schedule.ts for the form of a date, with the numbers that it splits off.
use homi_v.Prelude.{
  ℕ, zero, suc, ◌+◌, ◌-◌, ◌*◌, Bool, true, false, Option, none, some, List, [], ◌∷◌, ◌==◌,
  if◌then◌else◌,
}
use homi_v.Prelude.Chain.{◌>>=◌}
use homi_v.Prelude.Decimal.{is_digit}
use homi_v.Bills.Calendar.{Date, date}

-- `\d{n}` at the start of a text: its number after the digits of `acc`, and the rest.
unfoldable pub take_digits : ℕ → ℕ → List ℕ → Option (ℕ × List ℕ)
take_digits zero acc s = some (acc, s)
take_digits (suc n) acc [] = none
take_digits (suc n) acc (c ∷ s) =
    if is_digit c then take_digits n (acc * 10 + (c - b'0')) s else none

-- `-` at the start of a text.
unfoldable pub take_dash : List ℕ → Option (List ℕ)
take_dash [] = none
take_dash (c ∷ s) = if c == b'-' then some s else none

abbrev pub is_end : List ℕ → Bool
is_end [] = true
is_end (c ∷ s) = false

-- The numbers of a text of the form `\d{4}-\d{2}-\d{2}`.
unfoldable pub iso_fields : List ℕ → Option Date
iso_fields iso = do
  year ← take_digits 4 0 iso
  from_month ← take_dash year.1
  month ← take_digits 2 0 from_month
  from_day ← take_dash month.1
  day ← take_digits 2 0 from_day
  if is_end day.1 then some (date year.0 month.0 day.0) else none
