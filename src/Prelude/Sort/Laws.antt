-- ===== src/Prelude/Sort/Laws.antt =====
-- What becomes of the start and of a filter of a sorted list.
use Prim.Native.Nat.{ℕ, zero, suc, ◌≤◌}
use mathlib.Core.Path.{◌≡◌, refl, sym, ap, ◌∙◌}
use mathlib.Core.Logic.{inl, inr}
use mathlib.Core.Bool.{Bool, true}
use mathlib.Core.List.{List, [], ◌∷◌, ◌++◌}
use native.Mathlib.Omega.{arith}
use homi_v.Prelude.Tests.{if◌then◌else◌, Bool-cases}
use homi_v.Prelude.Lists.{keep, All}
use homi_v.Prelude.Sort.{take, insert_by, sort_by, IsOrder}

module _ {ℓ} {A : Type ℓ} (before : A → A → Bool) (order : IsOrder before) where
  abbrev pub Sorted : List A → Type 0
  Sorted [] = Unit
  Sorted (x ∷ xs) = All (λ y. before x y ≡ true) xs × Sorted xs

  abbrev into : A → (List A → List A) → List A → List A
  into x rest [] = x ∷ rest []
  into x rest (y ∷ ys) = if before x y then x ∷ rest (y ∷ ys) else y ∷ into x rest ys

  abbrev merge : List A → List A → List A
  merge [] ys = ys
  merge (x ∷ xs) ys = into x (merge xs) ys

  insert-merge-nil : (x : A) (ys : List A) → insert_by before x ys ≡ merge (x ∷ []) ys
  insert-merge-nil x [] = refl
  insert-merge-nil x (y ∷ ys) = elim (Bool-cases (before x y)) [
    | inl first ↦ rw first refl
    | inr later ↦ rw later (ap (λ l. y ∷ l) (insert-merge-nil x ys))
  ]

  insert-merge :
      (x : A) (xs ys : List A) → insert_by before x (merge xs ys) ≡ merge (insert_by before x xs) ys
  insert-merge x [] ys = insert-merge-nil x ys
  insert-merge x (a ∷ xs) [] = elim (Bool-cases (before x a)) [
    | inl first ↦ rw first refl
    | inr later ↦ rw later (ap (λ l. a ∷ l) (insert-merge x xs []))
  ]
  insert-merge x (a ∷ xs) (y ∷ ys) = elim (Bool-cases (before a y)) [
    | inl a_first ↦ elim (Bool-cases (before x a)) [
      | inl first ↦ rw (a_first, first, order.trans x a y first a_first, a_first) refl
      | inr later ↦ rw (a_first, later, a_first) (ap (λ l. a ∷ l) (insert-merge x xs (y ∷ ys)))
    ]
    | inr y_first ↦ elim (Bool-cases (before x y)) [
      | inl first ↦
          rw (y_first, first, order.trans x y a first (order.total a y y_first), first, y_first)
            refl
      | inr later ↦ elim (Bool-cases (before x a)) [
        | inl x_a ↦
            rw (y_first, later, x_a, later)
              (ap (λ l. y ∷ l) (insert-merge x (a ∷ xs) ys ∙ rw x_a refl))
        | inr a_x ↦
            rw (y_first, later, a_x, y_first)
              (ap (λ l. y ∷ l) (insert-merge x (a ∷ xs) ys ∙ rw a_x refl))
      ]
    ]
  ]

  sort-append :
      (xs ys : List A) → sort_by before (xs ++ ys) ≡ merge (sort_by before xs) (sort_by before ys)
  sort-append [] ys = refl
  sort-append (x ∷ xs) ys =
      ap (insert_by before x) (sort-append xs ys)
      ∙ insert-merge x (sort_by before xs) (sort_by before ys)

  -- The start of a merge is the merge of the starts.
  take-merge :
      (n m k : ℕ) (xs ys : List A)
      → n ≤ m
      → n ≤ k
      → take n (merge (take m xs) (take k ys)) ≡ take n (merge xs ys)
  take-merge zero m k xs ys h j = refl
  take-merge (suc n) zero k xs ys h j = absurd (omega arith)
  take-merge (suc n) (suc m) zero xs ys h j = absurd (omega arith)
  take-merge (suc n) (suc m) (suc k) [] [] h j = refl
  take-merge (suc n) (suc m) (suc k) [] (y ∷ ys) h j =
      ap (λ l. y ∷ l) (take-merge n (suc m) k [] ys (omega arith) (omega arith))
  take-merge (suc n) (suc m) (suc k) (x ∷ xs) [] h j =
      ap (λ l. x ∷ l) (take-merge n m (suc k) xs [] (omega arith) (omega arith))
  take-merge (suc n) (suc m) (suc k) (x ∷ xs) (y ∷ ys) h j = elim (Bool-cases (before x y)) [
    | inl first ↦
        rw first (ap (λ l. x ∷ l) (take-merge n m (suc k) xs (y ∷ ys) (omega arith) (omega arith)))
    | inr later ↦
        rw later (ap (λ l. y ∷ l) (take-merge n (suc m) k (x ∷ xs) ys (omega arith) (omega arith)))
  ]

  All-before :
      (x y : A) (ys : List A)
      → before x y ≡ true
      → All (λ z. before y z ≡ true) ys
      → All (λ z. before x z ≡ true) ys
  All-before x y [] h all = tt
  All-before x y (z ∷ ys) h (first, all) = (order.trans x y z h first, All-before x y ys h all)

  pub All-insert_by :
      (P : A → Type 0) (x : A) (xs : List A) → P x → All P xs → All P (insert_by before x xs)
  All-insert_by P x [] p all = (p, tt)
  All-insert_by P x (y ∷ ys) p (first, all) = elim (Bool-cases (before x y)) [
    | inl yes_first ↦ rw yes_first (p, (first, all))
    | inr later ↦ rw later (first, All-insert_by P x ys p all)
  ]

  pub All-sort_by : (P : A → Type 0) (xs : List A) → All P xs → All P (sort_by before xs)
  All-sort_by P [] h = tt
  All-sort_by P (x ∷ xs) (p, h) = All-insert_by P x (sort_by before xs) p (All-sort_by P xs h)

  insert_by-Sorted : (x : A) (xs : List A) → Sorted xs → Sorted (insert_by before x xs)
  insert_by-Sorted x [] s = (tt, tt)
  insert_by-Sorted x (y ∷ ys) (first, s) = elim (Bool-cases (before x y)) [
    | inl x_first ↦ rw x_first ((x_first, All-before x y ys x_first first), (first, s))
    | inr later ↦ rw later (
      All-insert_by (λ z. before y z ≡ true) x ys (order.total x y later) first,
      insert_by-Sorted x ys s,
    )
  ]

  pub sort_by-Sorted : (xs : List A) → Sorted (sort_by before xs)
  sort_by-Sorted [] = tt
  sort_by-Sorted (x ∷ xs) = insert_by-Sorted x (sort_by before xs) (sort_by-Sorted xs)

  All-take : (P : A → Type 0) (n : ℕ) (xs : List A) → All P xs → All P (take n xs)
  All-take P zero xs h = tt
  All-take P (suc n) [] h = tt
  All-take P (suc n) (x ∷ xs) (p, h) = (p, All-take P n xs h)

  take-Sorted : (n : ℕ) (xs : List A) → Sorted xs → Sorted (take n xs)
  take-Sorted zero xs s = tt
  take-Sorted (suc n) [] s = tt
  take-Sorted (suc n) (x ∷ xs) (first, s) =
      (All-take (λ y. before x y ≡ true) n xs first, take-Sorted n xs s)

  insert_by-first :
      (x : A) (xs : List A) → All (λ y. before x y ≡ true) xs → insert_by before x xs ≡ x ∷ xs
  insert_by-first x [] h = refl
  insert_by-first x (y ∷ ys) (first, h) = rw first refl

  sort_by-again : (xs : List A) → Sorted xs → sort_by before xs ≡ xs
  sort_by-again [] s = refl
  sort_by-again (x ∷ xs) (first, s) =
      ap (insert_by before x) (sort_by-again xs s) ∙ insert_by-first x xs first

  -- The first values of two lists are among the first values of each.
  pub take-sort_by :
      (n m : ℕ) (xs ys : List A)
      → n ≤ m
      → take n (sort_by before (take m (sort_by before xs) ++ take m (sort_by before ys)))
        ≡ take n (sort_by before (xs ++ ys))
  take-sort_by n m xs ys h =
      ap (take n) (sort-append (take m (sort_by before xs)) (take m (sort_by before ys)))
      ∙ (ap (λ l. take n (merge l (sort_by before (take m (sort_by before ys)))))
            (sort_by-again _ (take-Sorted m _ (sort_by-Sorted xs)))
          ∙ (ap (λ l. take n (merge (take m (sort_by before xs)) l))
                (sort_by-again _ (take-Sorted m _ (sort_by-Sorted ys)))
              ∙ (take-merge n m m (sort_by before xs) (sort_by before ys) h h
                  ∙ ap (take n) (sym (sort-append xs ys)))))

  pub All-keep : (P : A → Type 0) (p : A → Bool) (xs : List A) → All P xs → All P (keep p xs)
  All-keep P p [] h = tt
  All-keep P p (x ∷ xs) (first, h) = elim (Bool-cases (p x)) [
    | inl kept ↦ rw kept (first, All-keep P p xs h)
    | inr left_out ↦ rw left_out (All-keep P p xs h)
  ]

  keep-insert_by :
      (p : A → Bool) (x : A) (xs : List A)
      → Sorted xs
      → keep p (insert_by before x xs) ≡ (if p x then insert_by before x (keep p xs) else keep p xs)
  keep-insert_by p x [] s = refl
  keep-insert_by p x (y ∷ ys) (first, s) = elim (Bool-cases (before x y)) [
    | inl x_first ↦
        let rest =
          All-keep (λ z. before x z ≡ true) p (y ∷ ys) (x_first, All-before x y ys x_first first) in
        rw x_first (
          ap (λ l. if p x then l else keep p (y ∷ ys))
            (sym (insert_by-first x (keep p (y ∷ ys)) rest)))
    | inr later ↦ elim (Bool-cases (p y)) [
      | inl kept ↦
          rw (later, kept, keep-insert_by p x ys s)
            (elim (Bool-cases (p x)) [
              | inl x_kept ↦ rw (x_kept, later) refl
              | inr x_left_out ↦ rw x_left_out refl
            ])
      | inr left_out ↦ rw (later, left_out, keep-insert_by p x ys s) refl
    ]
  ]

  -- What a filter leaves is sorted as it was.
  pub keep-sort_by :
      (p : A → Bool) (xs : List A) → keep p (sort_by before xs) ≡ sort_by before (keep p xs)
  keep-sort_by p [] = refl
  keep-sort_by p (x ∷ xs) =
      keep-insert_by p x (sort_by before xs) (sort_by-Sorted xs)
      ∙ (ap (λ l. if p x then insert_by before x l else l) (keep-sort_by p xs)
          ∙ (elim (Bool-cases (p x)) [ inl kept ↦ rw kept refl | inr left_out ↦ rw left_out refl ]))
