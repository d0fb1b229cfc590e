-- ===== src/Bills/Iso/Order.antt =====
-- The order of dates as texts is that of the calendar, and what parseISO accepts.
use mathlib.Core.List.{append-nil}
use native.Mathlib.Nat.{le_trans}
use homi_v.Prelude.{
  ℕ, suc, ◌+◌, ◌*◌, ◌≤◌, ◌<◌, ◌≡◌, refl, sym, ap, ◌∙◌, subst, ltb→lt, inl, inr, Bool, true, false,
  not, ◌&&◌, ◌||◌, Option, none, some, List, [], ◌∷◌, ◌++◌, arith, ltb, ◌==◌, ==_refl, Bool-cases,
}
use homi_v.Prelude.Decimal.{text_lt, text_lt-Digits, value-lt, ten_to}
use homi_v.Prelude.Result.{ok, ◌>>◌, throw_if, or_throw, >>=-eq-ok}
use homi_v.Db.{Error, schedule_error}
use homi_v.Bills.Calendar.{Date, date_of, utc}
use homi_v.Bills.Calendar.Laws.{
  IsDate, day_number, date_of-IsDate, date_of-day_number, day_from_year-suc, year_length,
}
use homi_v.Bills.Calendar.Order.{earlier-eq-ltb, earlier, day_number_in_year, year-ge, year-lt}
use homi_v.Bills.Calendar.Utc.{utc-day_number, utc_old}
use homi_v.Bills.Fields.{iso_fields}
use homi_v.Bills.Iso.{same_date, parts_of, parse_iso}
use homi_v.Bills.Iso.Laws.{Numeral, IsIso, iso_fields_lem, iso_fields-IsIso}

-- Two numerals of one width are compared as numbers, before what follows them.
Numeral-lt :
    (w m n : ℕ) (s t u v : List ℕ)
    → Numeral w m s
    → Numeral w n t
    → text_lt (s ++ u) (t ++ v) ≡ (ltb m n || (m == n && text_lt u v))
Numeral-lt w m n s t u v p q =
    text_lt-Digits 0 0 s t u v p.digits q.digits (p.width_is ∙ sym q.width_is)
    ∙ rw (p.value_is, q.value_is) refl

text_lt-same : (c : ℕ) (s t : List ℕ) → text_lt (c ∷ s) (c ∷ t) ≡ text_lt s t
text_lt-same c s t = ground (arith, ==_refl c)

Numeral-end : (w m n : ℕ) (s t : List ℕ) → Numeral w m s → Numeral w n t → text_lt s t ≡ ltb m n
Numeral-end w m n s t p q =
    ap (λ l. text_lt l t) (sym (append-nil s))
    ∙ (ap (λ l. text_lt (s ++ []) l) (sym (append-nil t))
        ∙ (Numeral-lt w m n s t [] [] p q ∙ ground arith))

pub text_lt-IsIso : (s t : List ℕ) (a b : Date) → IsIso s a → IsIso t b → text_lt s t ≡ earlier a b
text_lt-IsIso s t a b i j =
    rw (i.text, j.text)
      (Numeral-lt 4 a.year b.year i.year j.year _ _ i.year_is j.year_is
        ∙ ap (λ x. ltb a.year b.year || (a.year == b.year && x))
            (text_lt-same b'-' (i.month ++ b'-' ∷ i.day) (j.month ++ b'-' ∷ j.day)
              ∙ (Numeral-lt 2 a.month b.month i.month j.month _ _ i.month_is j.month_is
                  ∙ ap (λ x. ltb a.month b.month || (a.month == b.month && x))
                      (text_lt-same b'-' i.day j.day
                        ∙ Numeral-end 2 a.day b.day i.day j.day i.day_is j.day_is))))

-- A date of the calendar in the years that a text of four digits and `Date.UTC` can name.
pub record IsReal (t : Date) : Type 0 where
  pub real : IsDate t
  pub since : 100 ≤ t.year
  pub until : t.year < 10000

same_date-eq : (s t : Date) → same_date s t ≡ true → s ≡ t
same_date-eq s t h = ground arith

same_date_refl : (t : Date) → same_date t t ≡ true
same_date_refl t = ground (arith, ==_refl t.year, ==_refl t.month, ==_refl t.day)

-- `parseISO` accepts a text of a date of the calendar, and returns that date.
pub parse_iso_lem : (s : List ℕ) (t : Date) → IsIso s t → IsReal t → parse_iso s ≡ ok t
unfolding parse_iso
parse_iso_lem s t i r = rw (
  iso_fields_lem s t i,
  utc-day_number t r.real r.since,
  date_of-day_number t r.real,
  same_date_refl t,
)

Numeral-until : (n : ℕ) (s : List ℕ) → Numeral 4 n s → n < 10000
Numeral-until n s k =
    let below = value-lt 0 s k.digits in
    let width = ap (λ w. 1 * ten_to w) k.width_is in omega (arith, below, width, k.value_is)

late : (t : Date) → date_of (utc t.year t.month t.day) ≡ t → 100 ≤ t.year
late t back = elim (Bool-cases (ltb t.year 100)) [
  | inl early ↦ absurd (
      omega (
        arith,
        utc_old t.year t.month t.day (ground arith),
        ap Date.year back,
        ltb→lt t.year 100 early,
      ))
  | inr old ↦ ground arith
]

-- `parseISO` accepts nothing else.
pub parse_iso-eq-ok : (s : List ℕ) (t : Date) → parse_iso s ≡ ok t → IsIso s t × IsReal t
unfolding parse_iso
parse_iso-eq-ok s t h =
    let (u, read, rest) = >>=-eq-ok (parts_of s) _ h in
    let fields = or_throw-eq-ok (iso_fields s) _ read in
    let form = iso_fields-IsIso s u fields in
    let (same, is) = checked (same_date (date_of (utc u.year u.month u.day)) u) u t rest in
    let back = same_date-eq (date_of (utc u.year u.month u.day)) u same in
    let real : IsDate u = subst IsDate back (date_of-IsDate _).0 in
    rw (← is) (
      form,
      record {
        real = real;
        since = late u back;
        until = Numeral-until u.year form.year form.year_is;
      },
    )
  where
    checked :
        (b : Bool) (u t : Date)
        → (throw_if (not b) (schedule_error "not a real calendar date") >> ok u) ≡ ok t
        → (b ≡ true) × (u ≡ t)
    checked true u t e = (refl, cc)
    checked false u t e = cc

    or_throw-eq-ok : (o : Option Date) (x : Error) {u : Date} → or_throw o x ≡ ok u → o ≡ some u
    or_throw-eq-ok none x e = cc
    or_throw-eq-ok (some u) x e = cc

-- A date at most a year after a real one that is not in the last year is real.
pub near-IsReal :
    (a t : Date)
    → IsReal a
    → IsDate t
    → a.year < 9999
    → day_number a ≤ day_number t
    → day_number t ≤ day_number a + 365
    → IsReal t
near-IsReal a t r v last_year from to =
    let (start, end) = day_number_in_year a r.real in
    let next = day_from_year-suc (suc a.year) in
    let year = year_length (suc a.year) in
    record {
      real = v;
      since = le_trans r.since (year-ge a.year t v (omega arith));
      until = omega (arith, year-lt (suc (suc a.year)) t v (omega arith));
    }

-- Texts that parseISO accepts are in the order of the days that it reads.
pub text_lt-parse_iso :
    (s t : List ℕ) (a b : Date)
    → parse_iso s ≡ ok a
    → parse_iso t ≡ ok b
    → text_lt s t ≡ ltb (day_number a) (day_number b)
text_lt-parse_iso s t a b h k =
    let (i, r) = parse_iso-eq-ok s a h in
    let (j, q) = parse_iso-eq-ok t b k in
    text_lt-IsIso s t a b i j ∙ earlier-eq-ltb a b r.real q.real
