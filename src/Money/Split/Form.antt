-- ===== src/Money/Split/Form.antt =====
-- What each loop of split.ts builds: a table of shares in the order of the participants.
use homi_v.Prelude.{
  ℕ, ◌+◌, ◌≤◌, ◌≡◌, refl, ap, ◌∙◌, true, false, some, List, [], ◌∷◌, arith, sum, contains, Distinct,
  sort, insert_sorted, head?, ◌==◌, leb, if◌then◌else◌, Bool-cases, inl, inr,
}
use homi_v.Prelude.Dict.{
  Dict, insert, values, tabulate, tabulate_cong, assign, assign_lem, Fresh-nil,
}
use homi_v.Prelude.Result.{ok}
use homi_v.Money.Split.{Splits, remainder_recipient, share_by_weight, allocate, give_rest, fill}

fill-eq-assign : (base : ℕ) (ids : List ℕ) (d : Splits) → fill base ids d ≡ assign (λ _. base) ids d
unfolding fill
fill-eq-assign base [] d = refl
fill-eq-assign base (id ∷ ids) d = fill-eq-assign base ids (insert id base d)

pub fill_lem :
    (base : ℕ) (ids : List ℕ) → Distinct ids → fill base ids [] ≡ tabulate (λ _. base) ids
fill_lem base ids h = fill-eq-assign base ids [] ∙ assign_lem (λ _. base) ids [] h (Fresh-nil ids)

-- The sum of the values that a function takes.
abbrev pub sum_of : (ℕ → ℕ) → List ℕ → ℕ
sum_of f [] = 0
sum_of f (id ∷ ids) = f id + sum_of f ids

pub sum-values-tabulate : (f : ℕ → ℕ) (ids : List ℕ) → sum (values (tabulate f ids)) ≡ sum_of f ids
sum-values-tabulate f [] = refl
sum-values-tabulate f (id ∷ ids) = ap (λ n. f id + n) (sum-values-tabulate f ids)

allocate-eq-assign :
    (total : ℕ) (w : Dict _) (ids : List ℕ) (d : Splits) (n : ℕ)
    → (allocate total w ids d n).0 ≡ assign (share_by_weight total w) ids d
unfolding allocate
allocate-eq-assign total w [] d n = refl
allocate-eq-assign total w (id ∷ ids) d n =
    allocate-eq-assign total w ids (insert id (share_by_weight total w id) d)
      (n + share_by_weight total w id)

pub allocate_lem :
    (total : ℕ) (w : Dict _) (ids : List ℕ)
    → Distinct ids
    → (allocate total w ids [] 0).0 ≡ tabulate (share_by_weight total w) ids
allocate_lem total w ids h =
    allocate-eq-assign total w ids [] 0
    ∙ assign_lem (share_by_weight total w) ids [] h (Fresh-nil ids)

pub allocated-eq-sum_of :
    (total : ℕ) (w : Dict _) (ids : List ℕ) (d : Splits) (n : ℕ)
    → (allocate total w ids d n).1 ≡ n + sum_of (share_by_weight total w) ids
unfolding allocate
allocated-eq-sum_of total w [] d n = omega arith
allocated-eq-sum_of total w (id ∷ ids) d n =
    allocated-eq-sum_of total w ids (insert id (share_by_weight total w id) d)
      (n + share_by_weight total w id)
    ∙ omega arith

-- The share of `id` when the recipient gets `rest` on top of the share `f`.
abbrev pub with_rest : ℕ → ℕ → (ℕ → ℕ) → ℕ → ℕ
with_rest recipient rest f id = if id == recipient then f id + rest else f id

pub give_rest-tabulate :
    (r rest : ℕ) (f : ℕ → ℕ) (ids : List ℕ)
    → Distinct ids
    → contains r ids ≡ true
    → give_rest r rest (tabulate f ids) ≡ tabulate (with_rest r rest f) ids
unfolding give_rest
give_rest-tabulate r rest f [] h c = cc
give_rest-tabulate r rest f (id ∷ ids) h c = elim (Bool-cases (id == r)) [
  | inl same ↦
      let e : id ≡ r = ground arith in
      let later = tabulate_cong f (with_rest r rest f) ids (λ k ck. ground arith) in cc (later, e)
  | inr other ↦ ground (arith, give_rest-tabulate r rest f ids h.1)
]

pub sum_of_cong :
    (f g : ℕ → ℕ) (ids : List ℕ)
    → ((k : ℕ) → contains k ids ≡ true → f k ≡ g k)
    → sum_of f ids ≡ sum_of g ids
sum_of_cong f g [] h = refl
sum_of_cong f g (id ∷ ids) h =
    omega (arith, h id (ground arith), sum_of_cong f g ids (λ k c. h k (ground arith)))

pub sum_of-with_rest :
    (r rest : ℕ) (f : ℕ → ℕ) (ids : List ℕ)
    → Distinct ids
    → contains r ids ≡ true
    → sum_of (with_rest r rest f) ids ≡ sum_of f ids + rest
sum_of-with_rest r rest f [] h c = cc
sum_of-with_rest r rest f (id ∷ ids) h c = elim (Bool-cases (id == r)) [
  | inl same ↦
      let later = sum_of_cong (with_rest r rest f) f ids (λ k ck. ground arith) in ground arith
  | inr other ↦ ground (arith, sum_of-with_rest r rest f ids h.1)
]

-- Who receives the leftover cents: the payer if they take part, otherwise the least participant.
pub record IsRecipient (participants : List ℕ) (paid_by r : ℕ) : Type 0 where
  pub member : contains r participants ≡ true
  pub payer : contains paid_by participants ≡ true → r ≡ paid_by
  pub least :
      contains paid_by participants ≡ false → (id : ℕ) → contains id participants ≡ true → r ≤ id

-- The head of a sorted list is one of its members, and the least of them.
record IsLeast (ids : List ℕ) (r : ℕ) : Type 0 where
  member : contains r ids ≡ true
  least : (id : ℕ) → contains id ids ≡ true → r ≤ id

head?-insert_sorted :
    (a r : ℕ) (xs : List ℕ)
    → head? xs ≡ some r
    → head? (insert_sorted a xs) ≡ some (if leb a r then a else r)
head?-insert_sorted a r [] h = cc
head?-insert_sorted a r (x ∷ xs) h = ground arith

head-sort :
    (id : ℕ) (ids : List ℕ) → (r : ℕ) × (head? (sort (id ∷ ids)) ≡ some r) × IsLeast (id ∷ ids) r
head-sort id [] = (id, refl, record { member = ground arith; least = λ k c. ground arith })
head-sort id (j ∷ ids) =
    let (r, found, min) = head-sort j ids in
    let head = head?-insert_sorted id r (sort (j ∷ ids)) found in
    elim (Bool-cases (leb id r)) [
      | inl first ↦ (
        id,
        ground arith,
        record { member = ground arith; least = λ k c. ground (arith, min.least k) },
      )
      | inr after ↦ (
        r,
        ground arith,
        record { member = ground (arith, min.member); least = λ k c. ground (arith, min.least k) },
      )
    ]

pub remainder_recipient_lem :
    (id : ℕ) (ids : List ℕ) (paid_by : ℕ)
    → (r : ℕ) × (remainder_recipient (id ∷ ids) paid_by ≡ ok r) × IsRecipient (id ∷ ids) paid_by r
unfolding remainder_recipient
remainder_recipient_lem id ids paid_by = elim (Bool-cases (contains paid_by (id ∷ ids))) [
  | inl among ↦
      (paid_by, ground arith, record { member = among; payer = λ c. refl; least = λ c. cc })
  | inr apart ↦
      let (r, found, min) = head-sort id ids in
      (r, ground arith, record { member = min.member; payer = λ c. cc; least = λ c. min.least })
]
