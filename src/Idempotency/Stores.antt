-- ===== src/Idempotency/Stores.antt =====
-- What is in the table of keys after a mutation that stores its response.
use homi_v.Prelude.{
  ◌≡◌, ◌≢◌, refl, sym, ap, subst, ◌∙◌, Bool, true, false, some, List, [], ◌∷◌, ◌++◌, find, any,
  arith, eq_iff, Bool-cases, Option-cases, inl, inr,
}
use homi_v.Prelude.Result.{Result, ok}
use homi_v.Db.{Error, StoredResponse, IdempotencyKey}
use homi_v.Activity.{Tx, TxState, ◌>>=◌, ◌>>◌, pure}
use homi_v.Activity.Laws.{Keeps, >>=-eq-ok}
use homi_v.Idempotency.{Options, same_key, key_row, answer, find_stored_response, store}

find-append_new :
    {A : Type 0} (p : A → Bool) (xs : List A) (x : A)
    → any p xs ≡ false
    → p x ≡ true
    → find p (xs ++ x ∷ []) ≡ some x
find-append_new p [] x h q = rw q
find-append_new p (y ∷ xs) x h q = ground (arith, find-append_new p xs x)

any_of_find :
    {A : Type 0} (p : A → Bool) (xs : List A) (x : A) → find p xs ≡ some x → any p xs ≡ true
any_of_find p [] x h = cc
any_of_find p (y ∷ xs) x h = ground (arith, any_of_find p xs x)

same_key-key_row : (o : Options) (r : StoredResponse) → same_key o (key_row o r) ≡ true
same_key-key_row o r = ground (arith, eq_iff o.endpoint o.endpoint)

-- A committed `store` found no row for the key, and added one.
pub store-keys :
    (o : Options) (r : StoredResponse) (t t' : TxState)
    → store o r t ≡ ok (tt, t')
    → (any (same_key o) t.db.keys ≡ false) × (t'.db.keys ≡ t.db.keys ++ key_row o r ∷ [])
unfolding store
store-keys o r t t' h = elim (Bool-cases (any (same_key o) t.db.keys)) [
  | inl taken ↦ absurd (cc (rw taken at h))
  | inr free ↦
      let e : record t { db = (let d = t.db in record d { keys = d.keys ++ key_row o r ∷ [] }) }
          ≡ t' =
        cc (rw free at h) in
      (free, rw (← e))
]

-- The lookup after `store` has the response.
pub store-found :
    (o : Options) (r : StoredResponse) (t t' : TxState)
    → store o r t ≡ ok (tt, t')
    → find_stored_response t'.db o ≡ ok (some r)
unfolding find_stored_response answer
store-found o r t t' h =
    let (free, added) = store-keys o r t t' h in
    let row = find-append_new (same_key o) t.db.keys (key_row o r) free (same_key-key_row o r) in
    rw added (ap (answer o) row ∙ ground arith)

-- A key that has a row cannot be stored again.
pub store_taken :
    (o : Options) (r s : StoredResponse) (t t' : TxState)
    → find_stored_response t.db o ≡ ok (some s)
    → store o r t ≢ ok (tt, t')
unfolding find_stored_response answer
store_taken o r s t t' h k =
    let (free, _) = store-keys o r t t' k in
    elim (Option-cases (find (same_key o) t.db.keys)) [
      | inl nothing ↦ cc (rw nothing at h)
      | inr (row, found) ↦ cc (any_of_find (same_key o) t.db.keys row found, free)
    ]

-- A mutation that stores its response before it commits.
pub record Stores (o : Options) (m : Tx StoredResponse) : Type 0 where
  pub stored :
      (t : TxState) (r : StoredResponse) (t' : TxState)
      → m t ≡ ok (r, t')
      → find_stored_response t'.db o ≡ ok (some r)
  pub once :
      (t : TxState) (s r : StoredResponse) (t' : TxState)
      → find_stored_response t.db o ≡ ok (some s)
      → m t ≢ ok (r, t')

-- The rows of the table of keys are these.
abbrev pub KeysAre : List IdempotencyKey → TxState → Type 0
KeysAre ks t = t.db.keys ≡ ks

settled :
    {r r' : StoredResponse} {t t' : TxState} (P : StoredResponse → TxState → Type 0)
    → ◌≡◌ {A = Result Error (StoredResponse × TxState)} (ok (r, t)) (ok (r', t'))
    → P r t
    → P r' t'
settled {r} {r'} {t} {t'} P e h =
    let same_r : r ≡ r' = cc in
    let same_t : t ≡ t' = cc in subst (λ x. P r' x) same_t (subst (λ x. P x t) same_r h)

pub Stores-end : (o : Options) (r : StoredResponse) → Stores o (store o r >> pure r)
Stores-end o r = record {
  stored = λ t r' t' h.
      let (_, t1, first, second) = >>=-eq-ok (store o r) (λ _. pure r) t h in
      settled (λ q t. find_stored_response t.db o ≡ ok (some q)) second
        (store-found o r t t1 first);
  once = λ t s r' t' found h.
      let (_, t1, first, second) = >>=-eq-ok (store o r) (λ _. pure r) t h in
      store_taken o r s t t1 found first;
}

pub Stores-bind :
    {A : Type 0} (o : Options) (m : Tx A) (f : A → Tx StoredResponse)
    → ((ks : List IdempotencyKey) → Keeps (KeysAre ks) m)
    → ((a : A) → Stores o (f a))
    → Stores o (m >>= f)
unfolding find_stored_response
Stores-bind o m f k s = record {
  stored =
      λ t r t' h. let (a, t1, first, second) = >>=-eq-ok m f t h in (s a).stored t1 r t' second;
  once = λ t x r t' found h.
      let (a, t1, first, second) = >>=-eq-ok m f t h in
      let same = (k t.db.keys).at t a t1 refl first in
      (s a).once t1 x r t' (ap (λ ks. answer o (find (same_key o) ks)) same ∙ found) second;
}

store-eq-ok :
    (o : Options) (r : StoredResponse) (t t' : TxState)
    → store o r t ≡ ok (tt, t')
    → t' ≡ record t { db = (let d = t.db in record d { keys = d.keys ++ key_row o r ∷ [] }) }
unfolding store
store-eq-ok o r t t' h = ground arith

-- `store` keeps what says nothing of the keys.
pub store-Keeps :
    (P : TxState → Type 0) (o : Options) (r : StoredResponse)
    → ((t : TxState) (ks : List IdempotencyKey)
        → P t
        → P (record t { db = (let d = t.db in record d { keys = ks }) }))
    → Keeps P (store o r)
store-Keeps P o r u = record {
  at = λ t a t' h e. subst P (sym (store-eq-ok o r t t' e)) (u t (t.db.keys ++ key_row o r ∷ []) h);
}
