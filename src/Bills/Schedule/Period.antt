-- ===== src/Bills/Schedule/Period.antt =====
-- Each period of a schedule has one due date.
use mathlib.Core.List.{append-nil}
use native.Mathlib.Nat.{suc-add}
use homi_v.Prelude.{ℕ, zero, suc, ◌+◌, ◌≡◌, refl, sym, ap, ◌∙◌, List, [], ◌∷◌, ◌++◌, length, arith}
use homi_v.Prelude.Decimal.{value}
use homi_v.Prelude.Result.{Result, ok}
use homi_v.Db.{Error, Cadence, monthly, weekly}
use homi_v.Bills.Calendar.{Date}
use homi_v.Bills.Calendar.Order.{days_in_month_bounds}
use homi_v.Bills.Iso.{parse_iso, to_iso}
use homi_v.Bills.Iso.Laws.{IsIso, to_iso-IsIso}
use homi_v.Bills.Iso.Order.{IsReal, parse_iso_lem}
use homi_v.Bills.Schedule.{take_text, period_key}
use homi_v.Bills.Schedule.Due.{IsDue, month_index, due_of_month}

pub real-IsIso : (t : Date) → IsReal t → IsIso (to_iso t) t
real-IsIso t r =
    let p = r.real.month_in in
    let dim = days_in_month_bounds t.year t.month p.1 p.0 in
    to_iso-IsIso t r.until (omega arith) (omega (arith, r.real.day_in))

-- The text of a date from the year 100 to 9999 parses back to the date.
pub parse_iso-to_iso : (t : Date) → IsReal t → parse_iso (to_iso t) ≡ ok t
parse_iso-to_iso t r = parse_iso_lem (to_iso t) t (real-IsIso t r) r

take_text-append :
    (n k : ℕ) (s r : List ℕ) → length s ≡ n → take_text (n + k) (s ++ r) ≡ s ++ take_text k r
take_text-append zero k [] r e = ap (λ j. take_text j r) (omega arith)
take_text-append zero k (c ∷ s) r e = absurd (omega arith)
take_text-append (suc n) k [] r e = absurd (omega arith)
take_text-append (suc n) k (c ∷ s) r e =
    ap (λ j. take_text j (c ∷ (s ++ r))) (suc-add n k)
    ∙ ap (λ l. c ∷ l) (take_text-append n k s r (omega arith))

-- Texts that agree where their first parts are of the same length agree in both parts.
append_parts : (s t u v : List ℕ) → length s ≡ length t → s ++ u ≡ t ++ v → (s ≡ t) × (u ≡ v)
append_parts [] [] u v e h = (refl, h)
append_parts [] (b ∷ t) u v e h = absurd (omega arith)
append_parts (a ∷ s) [] u v e h = absurd (omega arith)
append_parts (a ∷ s) (b ∷ t) u v e h =
    let (front, back) = append_parts s t u v (omega arith) (cc) in (cc, back)

-- The text before the day.
month_text : (s : List ℕ) (t : Date) (i : IsIso s t) → take_text 7 s ≡ i.year ++ b'-' ∷ i.month
month_text s t i =
    ap (take_text 7) i.text
    ∙ (take_text-append 4 3 i.year _ i.year_is.width_is
        ∙ ap (λ l. i.year ++ b'-' ∷ l)
            (take_text-append 2 0 i.month _ i.month_is.width_is ∙ append-nil i.month))

same_month :
    (s t : List ℕ) (a b : Date)
    → IsIso s a
    → IsIso t b
    → take_text 7 s ≡ take_text 7 t
    → month_index a ≡ month_index b
same_month s t a b i j e =
    let texts = sym (month_text s a i) ∙ (e ∙ month_text t b j) in
    let (years, rest) =
      append_parts i.year j.year _ _ (i.year_is.width_is ∙ sym j.year_is.width_is) texts in
    let months : i.month ≡ j.month = cc in
    let year : a.year ≡ b.year =
      sym i.year_is.value_is ∙ (ap (value 0) years ∙ j.year_is.value_is) in
    let month : a.month ≡ b.month =
      sym i.month_is.value_is ∙ (ap (value 0) months ∙ j.month_is.value_is) in
    omega arith

same_value : {A : Type 0} (a b : A) → ◌≡◌ {A = Result Error A} (ok a) (ok b) → a ≡ b
same_value a b e = cc

-- Two due dates of a schedule that have the same period are the same date: a unique index on the
-- template and the period admits one expense for each due date.
pub period_key-injective :
    (cadence : Cadence) (cadence_day : List ℕ) (s t : Date)
    → IsReal s
    → IsReal t
    → IsDue cadence cadence_day s
    → IsDue cadence cadence_day t
    → period_key cadence (to_iso s) ≡ period_key cadence (to_iso t)
    → s ≡ t
unfolding period_key
period_key-injective monthly cadence_day s t r q p p' e =
    let e' = rw (parse_iso-to_iso s r, parse_iso-to_iso t q) at e in
    let months =
      same_month (to_iso s) (to_iso t) s t (real-IsIso s r) (real-IsIso t q) (same_value _ _ e') in
    due_of_month cadence_day s t r.real q.real p p' months
period_key-injective weekly cadence_day s t r q p p' e =
    let e' = rw (parse_iso-to_iso s r, parse_iso-to_iso t q) at e in
    same_value s t
      (sym (parse_iso-to_iso s r) ∙ (ap parse_iso (same_value _ _ e') ∙ parse_iso-to_iso t q))
