-- ===== src/Money/Rooms/Laws.antt =====
-- A shared room's weight is divided exactly, and as evenly as whole basis points allow.
use homi_v.Prelude.{
  ℕ, zero, suc, ◌+◌, ◌-◌, ◌*◌, ◌/◌, ◌≤◌, ◌<◌, min, ◌≡◌, refl, sym, ap, ◌∙◌, some, List, [], ◌∷◌,
  ◌++◌, arith, length, sum, Distinct, Distinct-of_size, to_set, Option-cases, inl, inr,
}
use homi_v.Prelude.Dict.{
  keys, values, insert, insert_new, Fresh, Fresh-nil, Fresh-snoc, keys-append,
}
use homi_v.Prelude.Result.{ok}
use homi_v.Money.Number.{Number, checked}
use homi_v.Money.Split.{Splits}
use homi_v.Money.Split.Fair.{rest_bounds}
use homi_v.Money.Rooms.{hand_out, divide_room_weight}
use mathlib.Core.List.{append-nil, append_assoc}

-- One basis point more for the first `remainder` occupants.
abbrev pub shares : ℕ → ℕ → List ℕ → Splits
shares base remainder [] = []
shares base zero (o ∷ os) = (o, base) ∷ shares base zero os
shares base (suc r) (o ∷ os) = (o, base + 1) ∷ shares base r os

hand_out-zero :
    (base o : ℕ) (os : List ℕ) (d : Splits)
    → hand_out base zero (o ∷ os) d ≡ hand_out base zero os (insert o base d)
unfolding hand_out
hand_out-zero base o os d = ground arith

hand_out-suc :
    (base r o : ℕ) (os : List ℕ) (d : Splits)
    → hand_out base (suc r) (o ∷ os) d ≡ hand_out base r os (insert o (base + 1) d)
unfolding hand_out
hand_out-suc base r o os d = ground arith

-- Appending one entry to a dictionary that the later occupants are not in.
module _ (o v : ℕ) (os : List ℕ) (d : Splits) (h : Distinct (o ∷ os))
    (f : Fresh (o ∷ os) (keys d)) where
  append-Fresh : Fresh os (keys (d ++ (o, v) ∷ []))
  append-Fresh = rw (keys-append d ((o, v) ∷ [])) (Fresh-snoc os o (keys d) f.1 h.0)

hand_out_lem :
    (base r : ℕ) (os : List ℕ) (d : Splits)
    → Distinct os
    → Fresh os (keys d)
    → hand_out base r os d ≡ d ++ shares base r os
hand_out_lem base r [] d h f = unfold hand_out in sym (append-nil d)
hand_out_lem base zero (o ∷ os) d h f =
    hand_out-zero base o os d
    ∙ ap (hand_out base zero os) (insert_new o base d f.0)
    ∙ hand_out_lem base zero os (d ++ (o, base) ∷ []) h.1 (append-Fresh o base os d h f)
    ∙ append_assoc d ((o, base) ∷ []) (shares base zero os)
hand_out_lem base (suc r) (o ∷ os) d h f =
    hand_out-suc base r o os d
    ∙ ap (hand_out base r os) (insert_new o (base + 1) d f.0)
    ∙ hand_out_lem base r os (d ++ (o, base + 1) ∷ []) h.1 (append-Fresh o (base + 1) os d h f)
    ∙ append_assoc d ((o, base + 1) ∷ []) (shares base r os)

sum-shares :
    (base r : ℕ) (os : List ℕ)
    → sum (values (shares base r os)) ≡ base * length os + min r (length os)
sum-shares base r [] = omega arith
sum-shares base zero (o ∷ os) = grind (arith, sum-shares base zero os)
sum-shares base (suc r) (o ∷ os) = grind (arith, sum-shares base r os)

keys-shares : (base r : ℕ) (os : List ℕ) → keys (shares base r os) ≡ os
keys-shares base r [] = refl
keys-shares base zero (o ∷ os) = ap (λ ks. o ∷ ks) (keys-shares base zero os)
keys-shares base (suc r) (o ∷ os) = ap (λ ks. o ∷ ks) (keys-shares base r os)

-- Every share is `base` or one more, in the order of the occupants: the larger ones come first.
abbrev pub Even : ℕ → Splits → Type 0
Even base [] = Unit
Even base ((_, v) ∷ []) = (base ≤ v) × (v ≤ base + 1)
Even base ((_, v) ∷ (o, w) ∷ d) = (w ≤ v) × (v ≤ base + 1) × Even base ((o, w) ∷ d)

shares-Even : (base r : ℕ) (os : List ℕ) → Even base (shares base r os)
shares-Even base r [] = tt
shares-Even base zero (o ∷ []) = omega arith
shares-Even base (suc r) (o ∷ []) = omega arith
shares-Even base zero (o ∷ p ∷ os) = (omega arith, omega arith, shares-Even base zero (p ∷ os))
shares-Even base (suc zero) (o ∷ p ∷ os) =
    (omega arith, omega arith, shares-Even base zero (p ∷ os))
shares-Even base (suc (suc r)) (o ∷ p ∷ os) =
    (omega arith, omega arith, shares-Even base (suc r) (p ∷ os))

divide_room_weight-guards :
    (weight_bp : Number) (occupants : List ℕ) {s : Splits}
    → divide_room_weight weight_bp occupants ≡ ok s
    → (w : ℕ) × (checked weight_bp ≡ some w)
      × (0 < length occupants)
      × (length (to_set occupants) ≡ length occupants)
      × (hand_out (w / length occupants) (w - w / length occupants * length occupants) occupants []
          ≡ s)
unfolding divide_room_weight
divide_room_weight-guards weight_bp occupants h = elim (Option-cases (checked weight_bp)) [
  | inl bad ↦ ground arith
  | inr (w, e) ↦ (w, e, ground arith, ground arith, ground arith)
]

-- A successful division gives every occupant, in their order, a share: the shares add up to the
-- room's weight exactly, no two differ by more than one basis point, and none is larger than an
-- earlier one.
pub divide_room_weight_exact :
    (weight_bp : Number) (occupants : List ℕ) (s : Splits)
    → divide_room_weight weight_bp occupants ≡ ok s
    → (checked weight_bp ≡ some (sum (values s)))
      × (keys s ≡ occupants)
      × Even (sum (values s) / length occupants) s
divide_room_weight_exact weight_bp occupants s h =
    let (w, valid, n_pos, size, found) = divide_room_weight-guards weight_bp occupants h in
    let n = length occupants in
    let base = w / n in
    let r = w - base * n in
    let (whole, small) = rest_bounds w n n_pos in
    let form =
      sym found
      ∙ hand_out_lem base r occupants [] (Distinct-of_size occupants size) (Fresh-nil occupants) in
    let sums : sum (values s) ≡ w =
      ap (λ (d : Splits). sum (values d)) form ∙ sum-shares base r occupants ∙ omega arith in
    (
      valid ∙ ap some (sym sums),
      ap keys form ∙ keys-shares base r occupants,
      rw (sums, form) (shares-Even base r occupants),
    )
