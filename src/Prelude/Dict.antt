-- ===== src/Prelude/Dict.antt =====
-- A JavaScript object or `Map` keyed by ids, in insertion order.
use Prim.Native.Nat.{ℕ}
use mathlib.Core.Path.{◌≡◌, refl, sym, ap, ◌∙◌}
use mathlib.Core.Bool.{true, false}
use mathlib.Core.Option.{Option, none, some}
use mathlib.Core.List.{append-nil, append_assoc, List, [], ◌∷◌, ◌++◌}
use native.Mathlib.Omega.{arith}
use mathlib.Core.Logic.{inl, inr}
use homi_v.Prelude.Tests.{◌==◌, if◌then◌else◌, Bool-cases}
use homi_v.Prelude.Lists.{contains, Distinct}

abbrev pub Dict {ℓ} : Type ℓ → Type ℓ
Dict V = List (ℕ × V)

module _ {ℓ} {V : Type ℓ} where
  abbrev pub lookup : ℕ → Dict V → Option V
  lookup k [] = none
  lookup k ((j, v) ∷ d) = if j == k then some v else lookup k d

  -- `d[k] = v`: a new key goes to the end.
  abbrev pub insert : ℕ → V → Dict V → Dict V
  insert k v [] = (k, v) ∷ []
  insert k v ((j, w) ∷ d) = if j == k then (j, v) ∷ d else (j, w) ∷ insert k v d

  -- `d[k] ?? v`
  abbrev pub get_or : Dict V → ℕ → V → V
  get_or d k v = elim (lookup k d) [ none ↦ v | some w ↦ w ]

  abbrev pub keys : Dict V → List ℕ
  keys [] = []
  keys ((k, _) ∷ d) = k ∷ keys d

  abbrev pub values : Dict V → List V
  values [] = []
  values ((_, v) ∷ d) = v ∷ values d

  pub lookup-insert :
      (k j : ℕ) (v : V) (d : Dict V)
      → lookup j (insert k v d) ≡ (if k == j then some v else lookup j d)
  lookup-insert k j v [] = refl
  lookup-insert k j v ((i, w) ∷ d) = ground (arith, lookup-insert k j v d)

  pub get_or-insert :
      (k j : ℕ) (v w : V) (d : Dict V)
      → get_or (insert k v d) j w ≡ (if k == j then v else get_or d j w)
  get_or-insert k j v w d =
      ap (λ o. elim o [ none ↦ w | some x ↦ x ]) (lookup-insert k j v d)
      ∙ elim (Bool-cases (k == j)) [ inl here ↦ rw here refl | inr other ↦ rw other refl ]

  pub insert_new :
      (k : ℕ) (v : V) (d : Dict V) → contains k (keys d) ≡ false → insert k v d ≡ d ++ (k, v) ∷ []
  insert_new k v [] h = refl
  insert_new k v ((i, w) ∷ d) h = ground (arith, insert_new k v d)

contains-snoc :
    (j k : ℕ) (ks : List ℕ)
    → contains j ks ≡ false
    → (k == j) ≡ false
    → contains j (ks ++ k ∷ []) ≡ false
contains-snoc j k [] c ne = ground arith
contains-snoc j k (i ∷ ks) c ne = ground (arith, contains-snoc j k ks)

-- No key of the first list is in the second.
abbrev pub Fresh : List ℕ → List ℕ → Type 0
Fresh [] js = Unit
Fresh (k ∷ ks) js = (contains k js ≡ false) × Fresh ks js

pub Fresh-snoc :
    (ks : List ℕ) (k : ℕ) (js : List ℕ)
    → Fresh ks js
    → contains k ks ≡ false
    → Fresh ks (js ++ k ∷ [])
Fresh-snoc [] k js h c = tt
Fresh-snoc (j ∷ ks) k js h c =
    (contains-snoc j k js h.0 (ground arith), Fresh-snoc ks k js h.1 (ground arith))

pub Fresh-nil : (ks : List ℕ) → Fresh ks []
Fresh-nil [] = tt
Fresh-nil (k ∷ ks) = (refl, Fresh-nil ks)

-- The object that a loop `for (const k of ks) d[k] = f(k)` builds, if no key comes twice.
abbrev pub tabulate {ℓ} : {V : Type ℓ} → (ℕ → V) → List ℕ → Dict V
tabulate f [] = []
tabulate f (k ∷ ks) = (k, f k) ∷ tabulate f ks

module _ {ℓ} {V : Type ℓ} where
  pub keys-append : (d e : Dict V) → keys (d ++ e) ≡ keys d ++ keys e
  keys-append [] e = refl
  keys-append ((k, v) ∷ d) e = ap (λ ks. k ∷ ks) (keys-append d e)

  pub keys-tabulate : (f : ℕ → V) (ks : List ℕ) → keys (tabulate f ks) ≡ ks
  keys-tabulate f [] = refl
  keys-tabulate f (k ∷ ks) = ap (λ js. k ∷ js) (keys-tabulate f ks)

  pub lookup-tabulate :
      (f : ℕ → V) (k : ℕ) (ks : List ℕ)
      → lookup k (tabulate f ks) ≡ (if contains k ks then some (f k) else none)
  lookup-tabulate f k [] = refl
  lookup-tabulate f k (j ∷ ks) = ground (arith, lookup-tabulate f k ks)

  pub tabulate_cong :
      (f g : ℕ → V) (ks : List ℕ)
      → ((k : ℕ) → contains k ks ≡ true → f k ≡ g k)
      → tabulate f ks ≡ tabulate g ks
  tabulate_cong f g [] h = refl
  tabulate_cong f g (k ∷ ks) h =
      let here : f k ≡ g k = h k (ground arith) in
      let there = tabulate_cong f g ks (λ j c. h j (ground arith)) in cc

  -- A loop `for (const k of ks) d[k] = f(k)`.
  abbrev pub assign : (ℕ → V) → List ℕ → Dict V → Dict V
  assign f [] d = d
  assign f (k ∷ ks) d = assign f ks (insert k (f k) d)

  -- Over distinct new keys the loop appends the table of its values.
  pub assign_lem :
      (f : ℕ → V) (ks : List ℕ) (d : Dict V)
      → Distinct ks
      → Fresh ks (keys d)
      → assign f ks d ≡ d ++ tabulate f ks
  assign_lem f [] d h fr = sym (append-nil d)
  assign_lem f (k ∷ ks) d h fr = rw (insert_new k (f k) d fr.0) (
      assign_lem f ks (d ++ (k, f k) ∷ []) h.1
        (rw (keys-append d ((k, f k) ∷ [])) (Fresh-snoc ks k (keys d) fr.1 h.0))
      ∙ append_assoc d ((k, f k) ∷ []) (tabulate f ks))
