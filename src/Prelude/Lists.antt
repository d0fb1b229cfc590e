-- ===== src/Prelude/Lists.antt =====
-- Lists of numbers: length, membership, duplicates and order, over the native numbers.
use Prim.Native.Nat.{ℕ, suc, ◌+◌, ◌≤◌}
use mathlib.Core.Path.{◌≡◌, refl}
use mathlib.Core.Bool.{Bool, true, false, ◌&&◌, ◌||◌}
use mathlib.Core.Option.{Option, none, some}
use mathlib.Core.List.{List, [], ◌∷◌, ◌++◌}
use native.Mathlib.Omega.{arith}
use homi_v.Prelude.Tests.{leb, ◌==◌, if◌then◌else◌}

module _ {ℓ} {A : Type ℓ} where
  abbrev pub length : List A → ℕ
  length [] = 0
  length (x ∷ xs) = suc (length xs)

  abbrev pub head? : List A → Option A
  head? [] = none
  head? (x ∷ xs) = some x

  -- `Array.prototype.filter`, `some` and `every`.
  abbrev pub keep : (A → Bool) → List A → List A
  keep p [] = []
  keep p (x ∷ xs) = if p x then x ∷ keep p xs else keep p xs

  abbrev pub any : (A → Bool) → List A → Bool
  any p [] = false
  any p (x ∷ xs) = p x || any p xs

  abbrev pub all : (A → Bool) → List A → Bool
  all p [] = true
  all p (x ∷ xs) = p x && all p xs

  abbrev pub find : (A → Bool) → List A → Option A
  find p [] = none
  find p (x ∷ xs) = if p x then some x else find p xs

  -- An `UPDATE ... SET f WHERE p`, and a `DELETE ... WHERE p`.
  abbrev pub update_where : (A → Bool) → (A → A) → List A → List A
  update_where p f [] = []
  update_where p f (x ∷ xs) = (if p x then f x else x) ∷ update_where p f xs

  abbrev pub delete_where : (A → Bool) → List A → List A
  delete_where p [] = []
  delete_where p (x ∷ xs) = if p x then delete_where p xs else x ∷ delete_where p xs

  pub length-append : (xs ys : List A) → length (xs ++ ys) ≡ length xs + length ys
  length-append [] ys = omega arith
  length-append (x ∷ xs) ys = omega (arith, length-append xs ys)

module _ {ℓ κ} {A : Type ℓ} (P : A → Type κ) where
  abbrev pub All : List A → Type κ
  All [] = Unit
  All (x ∷ xs) = P x × All xs

abbrev pub sum : List ℕ → ℕ
sum [] = 0
sum (x ∷ xs) = x + sum xs

-- `Array.prototype.includes`
abbrev pub contains : ℕ → List ℕ → Bool
contains a [] = false
contains a (x ∷ xs) = x == a || contains a xs

-- A value occurs once at most.
abbrev pub Distinct : List ℕ → Type 0
Distinct [] = Unit
Distinct (x ∷ xs) = (contains x xs ≡ false) × Distinct xs

abbrev pub remove : ℕ → List ℕ → List ℕ
remove a [] = []
remove a (x ∷ xs) = if x == a then remove a xs else x ∷ remove a xs

-- `new Set(xs)`: the values in the order of their first occurrence.
abbrev pub to_set : List ℕ → List ℕ
to_set [] = []
to_set (x ∷ xs) = x ∷ remove x (to_set xs)

length-remove : (a : ℕ) (xs : List ℕ) → length (remove a xs) ≤ length xs
length-remove a [] = omega arith
length-remove a (x ∷ xs) = ground (arith, length-remove a xs)

contains-remove :
    (a b : ℕ) (xs : List ℕ) → contains a (remove b xs) ≡ (if a == b then false else contains a xs)
contains-remove a b [] = ground arith
contains-remove a b (x ∷ xs) = ground (arith, contains-remove a b xs)

-- Nothing is lost or invented by `new Set`.
pub contains-to_set : (a : ℕ) (xs : List ℕ) → contains a (to_set xs) ≡ contains a xs
contains-to_set a [] = refl
contains-to_set a (x ∷ xs) = ground (arith, contains-remove a x (to_set xs), contains-to_set a xs)

length-to_set : (xs : List ℕ) → length (to_set xs) ≤ length xs
length-to_set [] = omega arith
length-to_set (x ∷ xs) = omega (arith, length-to_set xs, length-remove x (to_set xs))

contains_of_length-remove :
    (a : ℕ) (xs : List ℕ) → length (remove a xs) ≡ length xs → contains a xs ≡ false
contains_of_length-remove a [] h = refl
contains_of_length-remove a (x ∷ xs) h =
    ground (arith, length-remove a xs, contains_of_length-remove a xs)

-- The source's test for duplicates, `new Set(xs).size !== xs.length`, is exact.
pub Distinct-of_size : (xs : List ℕ) → length (to_set xs) ≡ length xs → Distinct xs
Distinct-of_size [] h = tt
Distinct-of_size (x ∷ xs) h =
    let smaller = length-remove x (to_set xs) in
    let bound = length-to_set xs in
    let absent = contains_of_length-remove x (to_set xs) (omega arith) in
    (sym-contains x xs absent, Distinct-of_size xs (omega arith))
  where
    sym-contains : (a : ℕ) (ys : List ℕ) → contains a (to_set ys) ≡ false → contains a ys ≡ false
    sym-contains a ys e = ground (arith, contains-to_set a ys)

remove_absent : (a : ℕ) (xs : List ℕ) → contains a xs ≡ false → remove a xs ≡ xs
remove_absent a [] h = refl
remove_absent a (x ∷ xs) h = ground (arith, remove_absent a xs)

pub to_set_lem : (xs : List ℕ) → Distinct xs → to_set xs ≡ xs
to_set_lem [] h = refl
to_set_lem (x ∷ xs) h = rw (to_set_lem xs h.1) (rw (remove_absent x xs h.0))

-- The default sort of ids, ascending.
abbrev pub insert_sorted : ℕ → List ℕ → List ℕ
insert_sorted a [] = a ∷ []
insert_sorted a (x ∷ xs) = if leb a x then a ∷ x ∷ xs else x ∷ insert_sorted a xs

abbrev pub sort : List ℕ → List ℕ
sort [] = []
sort (x ∷ xs) = insert_sorted x (sort xs)
