-- ===== src/Mobile/Amount.antt =====
-- apps/mobile/src/ui/amount.ts. A text is the list of its character codes. The device's decimal
-- separator is one character, and no digit.
pub mod Laws
use homi_v.Prelude.{
  ℕ, zero, suc, ◌+◌, ◌-◌, ◌*◌, ◌/◌, ◌%◌, Bool, true, false, not, ◌&&◌, ◌||◌, Option, none, some,
  List, [], ◌∷◌, ◌++◌, all, length, ltb, leb, ◌==◌, if◌then◌else◌,
}
use homi_v.Prelude.Chain.{◌>>=◌}
use homi_v.Prelude.Decimal.{is_digit, value, decimal, pad_start}

abbrev pub max_amount_cents : ℕ
max_amount_cents = 10_000_000_000

-- `Number.isSafeInteger` of a numeral of digits.
abbrev pub is_safe_integer : ℕ → Bool
is_safe_integer n = leb n 9_007_199_254_740_991

-- The white space and the line ends of the language.
abbrev pub is_space : ℕ → Bool
is_space c =
    (leb 9 c && leb c 13)
    || c == 32
    || c == 160
    || c == 5760
    || (leb 8192 c && leb c 8202)
    || c == 8232
    || c == 8233
    || c == 8239
    || c == 8287
    || c == 12288
    || c == 65279

abbrev pub is_blank : List ℕ → Bool
is_blank [] = true
is_blank (c ∷ s) = false

abbrev pub trim_start : List ℕ → List ℕ
trim_start [] = []
trim_start (c ∷ s) = if is_space c then trim_start s else c ∷ s

abbrev pub trim_end : List ℕ → List ℕ
trim_end [] = []
trim_end (c ∷ s) = let rest = trim_end s in if is_space c && is_blank rest then [] else c ∷ rest

-- `(\d*)` at the start of a text, and the rest.
abbrev pub take_whole : List ℕ → List ℕ × List ℕ
take_whole [] = ([], [])
take_whole (c ∷ s) =
    let rest = take_whole s in if is_digit c then (c ∷ rest.0, rest.1) else ([], c ∷ s)

-- `(?:(?:sep)(\d{0,2}))?$`
abbrev pub take_fraction : ℕ → List ℕ → Option (List ℕ)
take_fraction sep [] = some []
take_fraction sep (c ∷ s) =
    if (c == b'.' || c == sep) && all is_digit s && leb (length s) 2 then some s else none

-- `fraction.padEnd(2, '0')`
abbrev pub pad_two : List ℕ → List ℕ
pad_two [] = b'0' ∷ b'0' ∷ []
pad_two (c ∷ []) = c ∷ b'0' ∷ []
pad_two (c ∷ d ∷ s) = c ∷ d ∷ s

abbrev pub or_zero : List ℕ → List ℕ
or_zero [] = b'0' ∷ []
or_zero (c ∷ s) = c ∷ s

-- The amount of the two groups of the match.
unfoldable pub cents_of : List ℕ → List ℕ → Option ℕ
cents_of whole fraction =
    if is_blank whole && is_blank fraction
    then none
    else (let cents = value 0 (or_zero whole ++ pad_two fraction) in
        if not (is_safe_integer cents) || ltb max_amount_cents cents then none else some cents)

-- `parseCents`
unfoldable pub parse_cents : List ℕ → ℕ → Option ℕ
parse_cents input sep = do
  let parts = take_whole (trim_end (trim_start input))
  fraction ← take_fraction sep parts.1
  cents_of parts.0 fraction

-- `parseAmount`
unfoldable pub parse_amount : List ℕ → ℕ → Option ℕ
parse_amount input sep = do cents ← parse_cents input sep; if ltb 0 cents then some cents else none

-- `centsParamToInput`; a param that is missing or repeated is `none`.
unfoldable pub cents_param_to_input : Option (List ℕ) → List ℕ
cents_param_to_input none = []
cents_param_to_input (some param) =
    if is_blank param || not (all is_digit param)
    then []
    else (let cents = value 0 param in
        if not (is_safe_integer cents) || leb cents 0 || ltb max_amount_cents cents
        then []
        else decimal (cents / 100) ++ b'.' ∷ pad_start 2 (decimal (cents % 100)))
