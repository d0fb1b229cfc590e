-- ===== src/Mobile/Amount/Laws.antt =====
-- What the parser of amounts reads, and that it reads what the app writes.
use homi_v.Prelude.{
  ℕ, ◌+◌, ◌-◌, ◌*◌, ◌/◌, ◌%◌, ◌≤◌, ◌<◌, ◌≡◌, refl, ap, ◌∙◌, true, false, ◌||◌, some, List, [], ◌∷◌,
  ◌++◌, all, All, length, arith, ◌==◌,
}
use homi_v.Prelude.Decimal.{
  is_digit, Digits, value, decimal, pad_start, value-decimal, Digits-decimal, length-decimal,
  value-pad_start, Digits-pad_start, length-pad_start,
}
use homi_v.Mobile.Amount.{
  max_amount_cents, is_space, is_blank, trim_start, trim_end, take_whole, take_fraction, pad_two,
  or_zero, cents_of, parse_cents, parse_amount, cents_param_to_input,
}

-- A text without white space.
abbrev Plain : List ℕ → Type 0
Plain = All (λ c. is_space c ≡ false)

is_digit-Plain : (c : ℕ) → is_digit c ≡ true → is_space c ≡ false
is_digit-Plain c h = ground arith

Digits-Plain : (s : List ℕ) → Digits s → Plain s
Digits-Plain [] h = tt
Digits-Plain (c ∷ s) (d, h) = (is_digit-Plain c d, Digits-Plain s h)

Plain-append : (s t : List ℕ) → Plain s → Plain t → Plain (s ++ t)
Plain-append [] t h k = k
Plain-append (c ∷ s) t (p, h) k = (p, Plain-append s t h k)

trim_start-same : (s : List ℕ) → Plain s → trim_start s ≡ s
trim_start-same [] h = refl
trim_start-same (c ∷ s) (p, h) = rw p refl

trim_end-same : (s : List ℕ) → Plain s → trim_end s ≡ s
trim_end-same [] h = refl
trim_end-same (c ∷ s) (p, h) = rw p (ap (λ l. c ∷ l) (trim_end-same s h))

take_whole-append :
    (w : List ℕ) (c : ℕ) (f : List ℕ)
    → Digits w
    → is_digit c ≡ false
    → take_whole (w ++ c ∷ f) ≡ (w, c ∷ f)
take_whole-append [] c f h e = rw e refl
take_whole-append (d ∷ w) c f (p, h) e = rw (p, take_whole-append w c f h e) refl

all-Digits : (s : List ℕ) → Digits s → all is_digit s ≡ true
all-Digits [] h = refl
all-Digits (c ∷ s) (p, h) = ground (arith, all-Digits s h, p)

value-append : (n : ℕ) (s t : List ℕ) → value n (s ++ t) ≡ value (value n s) t
value-append n [] t = refl
value-append n (c ∷ s) t = value-append (n * 10 + (c - b'0')) s t

value-or_zero : (w t : List ℕ) → value 0 (or_zero w ++ t) ≡ value (value 0 w) t
value-or_zero [] t = refl
value-or_zero (c ∷ w) t = value-append 0 (c ∷ w) t

-- An amount of digits, a separator and at most two digits is read, with either separator.
pub parse_cents_lem :
    (w f : List ℕ) (c sep : ℕ)
    → Digits w
    → Digits f
    → length f ≤ 2
    → is_digit c ≡ false
    → is_space c ≡ false
    → (c == b'.' || c == sep) ≡ true
    → parse_cents (w ++ c ∷ f) sep ≡ cents_of w f
unfolding parse_cents
parse_cents_lem w f c sep dw df short no_digit no_space separates =
    let plain = Plain-append w (c ∷ f) (Digits-Plain w dw) (no_space, Digits-Plain f df) in
    let trimmed : trim_end (trim_start (w ++ c ∷ f)) ≡ w ++ c ∷ f =
      ap trim_end (trim_start-same _ plain) ∙ trim_end-same _ plain in
    let parts = ap take_whole trimmed ∙ take_whole-append w c f dw no_digit in
    let read : take_fraction sep (c ∷ f) ≡ some f =
      rw (separates, all-Digits f df) (ground (arith, short)) in
    rw (parts, read) refl

-- Two digits after a whole part.
two_digits :
    (m : ℕ) (f : List ℕ)
    → length f ≡ 2
    → (is_blank f ≡ false) × (pad_two f ≡ f) × (value m f ≡ m * 100 + value 0 f)
two_digits m [] h = absurd (omega arith)
two_digits m (a ∷ []) h = absurd (omega arith)
two_digits m (a ∷ b ∷ []) h = (refl, refl, omega arith)
two_digits m (a ∷ b ∷ c ∷ f) h = absurd (omega arith)

cents_of-decimal :
    (n : ℕ)
    → n ≤ max_amount_cents
    → cents_of (decimal (n / 100)) (pad_start 2 (decimal (n % 100))) ≡ some n
unfolding cents_of
cents_of-decimal n small =
    let w = decimal (n / 100) in
    let f = pad_start 2 (decimal (n % 100)) in
    let (full, same, shifted) =
      two_digits (value 0 w) f
        (length-pad_start 2 (decimal (n % 100)) (length-decimal (n % 100) 1 (omega arith))) in
    let number : value 0 (or_zero w ++ pad_two f) ≡ n =
      ap (λ t. value 0 (or_zero w ++ t)) same
      ∙ (value-or_zero w f
          ∙ (shifted
              ∙ omega (
                arith,
                value-decimal (n / 100),
                value-pad_start 2 (decimal (n % 100)),
                value-decimal (n % 100),
              ))) in
    ground (arith, full, number, small)

-- A route parameter that is a whole number of cents above zero and within the limit becomes a text
-- that parses, with whatever decimal separator, to the same number of cents.
pub parse_amount-cents_param_to_input :
    (param : List ℕ) (sep : ℕ)
    → all is_digit param ≡ true
    → 0 < value 0 param
    → value 0 param ≤ max_amount_cents
    → parse_amount (cents_param_to_input (some param)) sep ≡ some (value 0 param)
unfolding parse_amount cents_param_to_input
parse_amount-cents_param_to_input [] sep digits positive small = absurd (omega arith)
parse_amount-cents_param_to_input (c ∷ s) sep digits positive small =
    let n = value 0 (c ∷ s) in
    let text = decimal (n / 100) ++ b'.' ∷ pad_start 2 (decimal (n % 100)) in
    let written : cents_param_to_input (some (c ∷ s)) ≡ text =
      ground (arith, digits, positive, small) in
    let read : parse_cents text sep ≡ some n =
      parse_cents_lem (decimal (n / 100)) (pad_start 2 (decimal (n % 100))) b'.' sep
        (Digits-decimal (n / 100)) (Digits-pad_start 2 _ (Digits-decimal (n % 100)))
        (omega (
          arith,
          length-pad_start 2 (decimal (n % 100)) (length-decimal (n % 100) 1 (omega arith)),
        ))
        refl refl refl
      ∙ cents_of-decimal n small in
    rw (written, read) (ground (arith, positive))
