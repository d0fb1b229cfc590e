-- ===== src/Bills/Iso/Laws.antt =====
-- Texts of dates: what they are read as, and their order.
use mathlib.Core.List.{append-nil}
use homi_v.Prelude.{
  ℕ, zero, suc, ◌+◌, ◌-◌, ◌*◌, ◌≤◌, ◌<◌, ◌≡◌, refl, sym, ap, ◌∙◌, inl, inr, Option, none, some,
  List, [], ◌∷◌, ◌++◌, length, arith, Bool-cases, if◌then◌else◌,
}
use homi_v.Prelude.Decimal.{
  is_digit, Digits, value, decimal, pad_start, value-decimal, Digits-decimal, length-decimal,
  value-pad_start, Digits-pad_start, length-pad_start,
}
use homi_v.Bills.Calendar.{Date, date}
use homi_v.Prelude.Chain.{>>=-eq-some}
use homi_v.Bills.Fields.{take_digits, take_dash, is_end, iso_fields}
use homi_v.Bills.Iso.{to_iso}

-- A numeral of this width that has this value.
pub record Numeral (width n : ℕ) (s : List ℕ) : Type 0 where
  pub digits : Digits s
  pub width_is : length s ≡ width
  pub value_is : value 0 s ≡ n

-- A text of the form of a date, with its three numbers.
pub record IsIso (s : List ℕ) (t : Date) : Type 0 where
  pub year : List ℕ
  pub month : List ℕ
  pub day : List ℕ
  pub year_is : Numeral 4 t.year year
  pub month_is : Numeral 2 t.month month
  pub day_is : Numeral 2 t.day day
  pub text : s ≡ year ++ b'-' ∷ (month ++ b'-' ∷ day)

pad_start-Numeral : (w n : ℕ) → length (decimal n) ≤ w → Numeral w n (pad_start w (decimal n))
pad_start-Numeral w n h = record {
  digits = Digits-pad_start w (decimal n) (Digits-decimal n);
  width_is = length-pad_start w (decimal n) h;
  value_is = value-pad_start w (decimal n) ∙ value-decimal n;
}

pub to_iso-IsIso : (t : Date) → t.year < 10000 → t.month < 100 → t.day < 100 → IsIso (to_iso t) t
unfolding to_iso
to_iso-IsIso t y m d = record {
  year = pad_start 4 (decimal t.year);
  month = pad_start 2 (decimal t.month);
  day = pad_start 2 (decimal t.day);
  year_is = pad_start-Numeral 4 t.year (length-decimal t.year 3 y);
  month_is = pad_start-Numeral 2 t.month (length-decimal t.month 1 m);
  day_is = pad_start-Numeral 2 t.day (length-decimal t.day 1 d);
  text = refl;
}

take_digits_lem :
    (n acc : ℕ) (s r : List ℕ)
    → Digits s
    → length s ≡ n
    → take_digits n acc (s ++ r) ≡ some (value acc s, r)
unfolding take_digits
take_digits_lem zero acc [] r h e = refl
take_digits_lem zero acc (c ∷ s) r h e = absurd (omega arith)
take_digits_lem (suc n) acc [] r h e = absurd (omega arith)
take_digits_lem (suc n) acc (c ∷ s) r h e =
    rw h.0 (take_digits_lem n (acc * 10 + (c - b'0')) s r h.1 (omega arith))

take_Numeral : (w n : ℕ) (s r : List ℕ) → Numeral w n s → take_digits w 0 (s ++ r) ≡ some (n, r)
take_Numeral w n s r k =
    take_digits_lem w 0 s r k.digits k.width_is ∙ ap (λ v. some (v, r)) k.value_is

take_end : (w n : ℕ) (s : List ℕ) → Numeral w n s → take_digits w 0 s ≡ some (n, [])
take_end w n s k = ap (take_digits w 0) (sym (append-nil s)) ∙ take_Numeral w n s [] k

-- Such a text is read as its three numbers.
pub iso_fields_lem : (s : List ℕ) (t : Date) → IsIso s t → iso_fields s ≡ some t
unfolding iso_fields take_dash
iso_fields_lem s t i = rw (
  i.text,
  take_Numeral 4 t.year i.year (b'-' ∷ (i.month ++ b'-' ∷ i.day)) i.year_is,
  take_Numeral 2 t.month i.month (b'-' ∷ i.day) i.month_is,
  take_end 2 t.day i.day i.day_is,
)

-- What `take_digits` takes.
record Taken (n acc : ℕ) (s : List ℕ) (v : ℕ) (r : List ℕ) : Type 0 where
  pub front : List ℕ
  pub digits : Digits front
  pub width_is : length front ≡ n
  pub value_is : value acc front ≡ v
  pub text : s ≡ front ++ r

take_digits-Taken :
    (n acc : ℕ) (s : List ℕ) (v : ℕ) (r : List ℕ)
    → take_digits n acc s ≡ some (v, r)
    → Taken n acc s v r
unfolding take_digits
take_digits-Taken zero acc s v r e = record {
  front = [];
  digits = tt;
  width_is = refl;
  value_is = cc;
  text = cc;
}
take_digits-Taken (suc n) acc [] v r e = cc
take_digits-Taken (suc n) acc (c ∷ s) v r e = elim (Bool-cases (is_digit c)) [
  | inl digit ↦
      let rest = take_digits-Taken n (acc * 10 + (c - b'0')) s v r (rw digit at e) in
      record {
        front = c ∷ rest.front;
        digits = (digit, rest.digits);
        width_is = omega (arith, rest.width_is);
        value_is = rest.value_is;
        text = ap (λ l. c ∷ l) rest.text;
      }
  | inr other ↦ absurd (none-ne-some (rw other at e))
]
  where
    none-ne-some : ◌≡◌ {A = Option (ℕ × List ℕ)} none (some (v, r)) → ⊥
    none-ne-some h = cc

take_dash-eq-some : (s r : List ℕ) → take_dash s ≡ some r → s ≡ b'-' ∷ r
unfolding take_dash
take_dash-eq-some [] r e = cc
take_dash-eq-some (c ∷ s) r e = ground arith

Taken-Numeral : (w v : ℕ) (s r : List ℕ) (k : Taken w 0 s v r) → Numeral w v k.front
Taken-Numeral w v s r k = record { digits = k.digits; width_is = k.width_is; value_is = k.value_is }

ended :
    (s : List ℕ) (u t : Date) → (if is_end s then some u else none) ≡ some t → (s ≡ []) × (u ≡ t)
ended [] u t e = (refl, cc)
ended (c ∷ s) u t e = cc

assemble :
    (y m d : ℕ) (s s1 s2 s3 s4 s5 : List ℕ) (t : Date)
    → Taken 4 0 s y s1
    → s1 ≡ b'-' ∷ s2
    → Taken 2 0 s2 m s3
    → s3 ≡ b'-' ∷ s4
    → Taken 2 0 s4 d s5
    → (if is_end s5 then some (date y m d) else none) ≡ some t
    → IsIso s t
assemble y m d s s1 s2 s3 s4 s5 t year first month second day finish =
    let (empty, is) = ended s5 (date y m d) t finish in
    let last : s4 ≡ day.front =
      day.text ∙ (ap (λ r. day.front ++ r) empty ∙ append-nil day.front) in
    rw (← is) (record {
      year = year.front;
      month = month.front;
      day = day.front;
      year_is = Taken-Numeral 4 y s s1 year;
      month_is = Taken-Numeral 2 m s2 s3 month;
      day_is = Taken-Numeral 2 d s4 s5 day;
      text =
          year.text
          ∙ ap (λ r. year.front ++ r)
              (first
                ∙ ap (λ r. b'-' ∷ r)
                    (month.text ∙ ap (λ r. month.front ++ r) (second ∙ ap (λ r. b'-' ∷ r) last)));
    })

-- Every other text is refused.
pub iso_fields-IsIso : (s : List ℕ) (t : Date) → iso_fields s ≡ some t → IsIso s t
unfolding iso_fields
iso_fields-IsIso s t e =
    let ((y, s1), e1, r1) = >>=-eq-some (take_digits 4 0 s) _ e in
    let (s2, e2, r2) = >>=-eq-some (take_dash s1) _ r1 in
    let ((m, s3), e3, r3) = >>=-eq-some (take_digits 2 0 s2) _ r2 in
    let (s4, e4, r4) = >>=-eq-some (take_dash s3) _ r3 in
    let ((d, s5), e5, r5) = >>=-eq-some (take_digits 2 0 s4) _ r4 in
    assemble y m d s s1 s2 s3 s4 s5 t (take_digits-Taken 4 0 s y s1 e1) (take_dash-eq-some s1 s2 e2)
      (take_digits-Taken 2 0 s2 m s3 e3) (take_dash-eq-some s3 s4 e4)
      (take_digits-Taken 2 0 s4 d s5 e5) r5
