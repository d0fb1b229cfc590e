-- ===== src/Posting/Members.antt =====
-- The map of members by user, and the tests that the posting core makes on it.
use homi_v.Prelude.{
  ℕ, ◌≡◌, refl, ◌⊎◌, Bool, true, false, ◌&&◌, ◌||◌, Option, some, List, [], ◌∷◌, ◌++◌, map, keep,
  any, contains, arith, ◌==◌, Bool-cases, inl, inr, &&_iff, ||-cases, ||-right,
}
use homi_v.Prelude.Dict.{Dict, lookup, insert, keys, lookup-insert}
use homi_v.Db.{HouseMember}
use homi_v.Posting.{ActiveMember, is_active, in_scope, to_active, by_user}

pub lookup_of_contains {ℓ} :
    {V : Type ℓ} (k : ℕ) (d : Dict V) → contains k (keys d) ≡ true → (v : V) × (lookup k d ≡ some v)
lookup_of_contains k [] h = absurd (cc)
lookup_of_contains k ((j, v) ∷ d) h = elim (Bool-cases (j == k)) [
  | inl here ↦ (v, rw here)
  | inr there ↦ let (w, e) = lookup_of_contains k d (ground arith) in (w, rw there e)
]

-- Every value of the list has the property that no value fails.
pub any-false :
    (p : ℕ → Bool) (a : ℕ) (xs : List ℕ) → contains a xs ≡ true → any p xs ≡ false → p a ≡ false
any-false p a [] c h = cc
any-false p a (x ∷ xs) c h = elim (Bool-cases (x == a)) [
  | inl here ↦ let e : x ≡ a = ground arith in rw (← e) (ground arith)
  | inr there ↦ any-false p a xs (ground arith) (ground arith)
]

pub contains-append :
    (a : ℕ) (xs ys : List ℕ) → contains a (xs ++ ys) ≡ (contains a xs || contains a ys)
contains-append a [] ys = refl
contains-append a (x ∷ xs) ys = ground (arith, contains-append a xs ys)

module _ (p : ActiveMember → Bool) (id : ℕ) where
  abbrev pub is_such : ActiveMember → Bool
  is_such m = m.user_id == id && p m

  -- What the map holds for a user comes from the list, or was there before.
  by_user-any :
      (ms : List ActiveMember) (d : Dict ActiveMember) {m : ActiveMember}
      → lookup id (by_user ms d) ≡ some m
      → p m ≡ true
      → (any is_such ms ≡ true) ⊎ (lookup id d ≡ some m)
  unfolding by_user
  by_user-any [] d h q = inr h
  by_user-any (x ∷ ms) d {m} h q = elim (by_user-any ms (insert x.user_id x d) h q) [
    | inl later ↦ inl (ground arith)
    | inr before ↦ elim (Bool-cases (x.user_id == id)) [
      | inl here ↦
          let same : x ≡ m = ground (arith, lookup-insert x.user_id id x d) in
          let px : p x ≡ true = rw same q in inl (ground arith)
      | inr other ↦ inr (ground (arith, lookup-insert x.user_id id x d))
    ]
  ]

  pub any_of_by_user :
      (ms : List ActiveMember) {m : ActiveMember}
      → lookup id (by_user ms []) ≡ some m
      → p m ≡ true
      → any is_such ms ≡ true
  any_of_by_user ms h q = elim (by_user-any ms [] h q) [ inl found ↦ found | inr nothing ↦ cc ]

  -- The same of the rows that the query selected.
  pub any-rows :
      (house_id : ℕ) (scope : Option (List ℕ)) (rows : List HouseMember)
      → any is_such (map to_active (keep (λ m. is_active house_id m && in_scope scope m) rows))
        ≡ true
      → any (λ m. is_active house_id m && is_such (to_active m)) rows ≡ true
  any-rows house_id scope [] h = h
  any-rows house_id scope (x ∷ rows) h =
      elim (Bool-cases (is_active house_id x && in_scope scope x)) [
        | inl chosen ↦
            let live : is_active house_id x ≡ true =
              ((&&_iff (is_active house_id x) (in_scope scope x)).0 chosen).0 in
            elim (||-cases (is_such (to_active x)) _ (rw chosen at h)) [
              | inl such ↦ rw (live, such)
              | inr later ↦ ||-right _ _ (any-rows house_id scope rows later)
            ]
        | inr left_out ↦ ||-right _ _ (any-rows house_id scope rows (rw left_out at h))
      ]
