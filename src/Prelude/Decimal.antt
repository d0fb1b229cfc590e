-- ===== src/Prelude/Decimal.antt =====
-- Texts as lists of character codes: decimal numerals and the order of texts.
use Prim.Native.Nat.{ℕ, zero, suc, ◌+◌, ◌-◌, ◌*◌, ◌/◌, ◌%◌, ◌≤◌, ◌<◌}
use Prim.Native.Char.{code}
use Prim.Native.String.{String}
use mathlib.Core.Path.{◌≡◌, refl, ap, ◌∙◌}
use mathlib.Core.Logic.{inl, inr}
use mathlib.Core.Bool.{Bool, true, false, ◌&&◌, ◌||◌}
use mathlib.Core.List.{List, [], ◌∷◌, ◌++◌}
use native.Mathlib.Omega.{arith}
use homi_v.Prelude.Tests.{ltb, leb, ◌==◌, if◌then◌else◌, Bool-cases}
use homi_v.Prelude.Lists.{length, All}

abbrev pub codes : String → List ℕ
codes String.[] = []
codes (String.◌∷◌ c s) = code c ∷ codes s

-- `a < b` on texts.
abbrev pub text_lt : List ℕ → List ℕ → Bool
text_lt s [] = false
text_lt [] (b ∷ t) = true
text_lt (a ∷ s) (b ∷ t) = ltb a b || (a == b && text_lt s t)

-- `\d`
abbrev pub is_digit : ℕ → Bool
is_digit c = leb b'0' c && leb c b'9'

abbrev pub Digits : List ℕ → Type 0
Digits = All (λ c. is_digit c ≡ true)

-- `Number(text)` of digits that follow those of `n`.
abbrev pub value : ℕ → List ℕ → ℕ
value n [] = n
value n (c ∷ s) = value (n * 10 + (c - b'0')) s

decimal_on : ℕ → ℕ → List ℕ → List ℕ
decimal_on zero n s = s
decimal_on (suc fuel) n s =
    let rest = decimal_on fuel (n / 10) ((b'0' + n % 10) ∷ s) in
    if ltb n 10 then (b'0' + n) ∷ s else rest

-- `String(n)`
unfoldable pub decimal : ℕ → List ℕ
unfolding decimal_on
decimal n = decimal_on (suc n) n []

pub zeros : ℕ → List ℕ → List ℕ
zeros zero s = s
zeros (suc n) s = b'0' ∷ zeros n s

-- `text.padStart(width, '0')`
unfoldable pub pad_start : ℕ → List ℕ → List ℕ
unfolding zeros
pad_start width s = zeros (width - length s) s

value-decimal_on : (fuel n : ℕ) (s : List ℕ) → n < fuel → value 0 (decimal_on fuel n s) ≡ value n s
unfolding decimal_on
value-decimal_on zero n s h = absurd (omega arith)
value-decimal_on (suc fuel) n s h = elim (Bool-cases (ltb n 10)) [
  | inl small ↦ rw small (ap (λ k. value k s) (omega arith))
  | inr large ↦ rw large (
      value-decimal_on fuel (n / 10) ((b'0' + n % 10) ∷ s) (ground arith)
      ∙ ap (λ k. value k s) (omega arith))
]

-- A printed number is read back.
pub value-decimal : (n : ℕ) → value 0 (decimal n) ≡ n
unfolding decimal
value-decimal n = value-decimal_on (suc n) n [] (omega arith)

Digits-decimal_on : (fuel n : ℕ) (s : List ℕ) → Digits s → Digits (decimal_on fuel n s)
unfolding decimal_on
Digits-decimal_on zero n s h = h
Digits-decimal_on (suc fuel) n s h = elim (Bool-cases (ltb n 10)) [
  | inl small ↦ rw small (ground arith, h)
  | inr large ↦ rw large (Digits-decimal_on fuel (n / 10) _ (ground arith, h))
]

pub Digits-decimal : (n : ℕ) → Digits (decimal n)
unfolding decimal
Digits-decimal n = Digits-decimal_on (suc n) n [] tt

-- A power of ten.
abbrev pub ten_to : ℕ → ℕ
ten_to zero = 1
ten_to (suc k) = 10 * ten_to k

length-decimal_on :
    (fuel n k : ℕ) (s : List ℕ)
    → n < ten_to (suc k)
    → length (decimal_on fuel n s) ≤ suc k + length s
unfolding decimal_on
length-decimal_on zero n k s h = omega arith
length-decimal_on (suc fuel) n zero s h = ground arith
length-decimal_on (suc fuel) n (suc k) s h = elim (Bool-cases (ltb n 10)) [
  | inl small ↦ rw small (omega arith)
  | inr large ↦
      rw large
        (omega (arith, length-decimal_on fuel (n / 10) k ((b'0' + n % 10) ∷ s) (omega arith)))
]

pub length-decimal : (n k : ℕ) → n < ten_to (suc k) → length (decimal n) ≤ suc k
unfolding decimal
length-decimal n k h = omega (arith, length-decimal_on (suc n) n k [] h)

value-zeros : (n : ℕ) (s : List ℕ) → value 0 (zeros n s) ≡ value 0 s
unfolding zeros
value-zeros zero s = refl
value-zeros (suc n) s = value-zeros n s

pub value-pad_start : (w : ℕ) (s : List ℕ) → value 0 (pad_start w s) ≡ value 0 s
unfolding pad_start
value-pad_start w s = value-zeros (w - length s) s

Digits-zeros : (n : ℕ) (s : List ℕ) → Digits s → Digits (zeros n s)
unfolding zeros
Digits-zeros zero s h = h
Digits-zeros (suc n) s h = (refl, Digits-zeros n s h)

pub Digits-pad_start : (w : ℕ) (s : List ℕ) → Digits s → Digits (pad_start w s)
unfolding pad_start
Digits-pad_start w s h = Digits-zeros (w - length s) s h

length-zeros : (n : ℕ) (s : List ℕ) → length (zeros n s) ≡ n + length s
unfolding zeros
length-zeros zero s = omega arith
length-zeros (suc n) s = omega (arith, length-zeros n s)

pub length-pad_start : (w : ℕ) (s : List ℕ) → length s ≤ w → length (pad_start w s) ≡ w
unfolding pad_start
length-pad_start w s h = omega (arith, length-zeros (w - length s) s)

-- Numerals of the same length are ordered as the numbers, before what follows them.
pub text_lt-Digits :
    (m n : ℕ) (s t u v : List ℕ)
    → Digits s
    → Digits t
    → length s ≡ length t
    → (ltb m n || (m == n && text_lt (s ++ u) (t ++ v)))
      ≡ (ltb (value m s) (value n t) || (value m s == value n t && text_lt u v))
text_lt-Digits m n [] [] u v p q e = refl
text_lt-Digits m n (a ∷ s) [] u v p q e = absurd (omega arith)
text_lt-Digits m n [] (b ∷ t) u v p q e = absurd (omega arith)
text_lt-Digits m n (a ∷ s) (b ∷ t) u v p q e =
    first ∙ text_lt-Digits (m * 10 + (a - b'0')) (n * 10 + (b - b'0')) s t u v p.1 q.1 (omega arith)
  where
    first : (ltb m n || (m == n && (ltb a b || (a == b && text_lt (s ++ u) (t ++ v))))) ≡ (
        ltb (m * 10 + (a - b'0')) (n * 10 + (b - b'0'))
        || (m * 10 + (a - b'0') == n * 10 + (b - b'0') && text_lt (s ++ u) (t ++ v)))
    first = ground (arith, p.0, q.0)

-- A numeral is less than the power of ten of its width.
pub value-lt : (n : ℕ) (s : List ℕ) → Digits s → value n s < suc n * ten_to (length s)
value-lt n [] h = omega arith
value-lt n (c ∷ s) h =
    let step : suc (n * 10 + (c - b'0')) ≤ suc n * 10 = ground arith in
    grind (arith, value-lt (n * 10 + (c - b'0')) s h.1)
