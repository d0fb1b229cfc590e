-- ===== src/Money/Balances.antt =====
-- packages/domain/src/money/balances.ts. A pair key "a|b" is the pair of the two ids.
pub mod Pairs
pub mod Net
pub mod Pairwise
pub mod Minimal
pub mod Skipping
use homi_v.Prelude.{ℕ, Bool, true, false, ◌&&◌, ◌||◌, List, [], ◌∷◌, ltb, ◌==◌, if◌then◌else◌}
use homi_v.Prelude.Int.{ℤ, pos, negsuc, ◌+ℤ◌, ◌-ℤ◌, neg_ℤ, ltb_ℤ}
use homi_v.Prelude.Dict.{Dict, insert, get_or}

pub data PaymentStatus : Type 0 where
  recorded disputed resolved : PaymentStatus

pub record ExpenseRow : Type 0 where
  pub paid_by : ℕ
  pub splits : Dict ℤ

pub record PaymentRow : Type 0 where
  pub from_user : ℕ
  pub to_user : ℕ
  pub amount_cents : ℤ
  pub status : PaymentStatus

-- An entry of `pairwise`: `from` owes `to`.
pub record Debt : Type 0 where
  pub from : ℕ
  pub to : ℕ
  pub amount_cents : ℤ

pub record Balances : Type 0 where
  pub net : Dict ℤ
  pub pairwise : List Debt

-- The entries of the `Map` called `pair`: key "a|b", and the cents that `b` owes `a`.
pub record Entry : Type 0 where
  pub a : ℕ
  pub b : ℕ
  pub value : ℤ

abbrev pub is_key : ℕ → ℕ → Entry → Bool
is_key a b e = e.a == a && e.b == b

-- `pair.get(key) ?? 0`
pub get_pair : ℕ → ℕ → List Entry → ℤ
get_pair a b [] = pos 0
get_pair a b (e ∷ es) = if is_key a b e then e.value else get_pair a b es

-- `pair.set(key, v)`
pub set_pair : ℕ → ℕ → ℤ → List Entry → List Entry
set_pair a b v [] = record { a = a; b = b; value = v } ∷ []
set_pair a b v (e ∷ es) =
    if is_key a b e then record e { value = v } ∷ es else e ∷ set_pair a b v es

abbrev pub is_zero : ℤ → Bool
is_zero (pos n) = n == 0
is_zero (negsuc n) = false

pub add_debt : ℕ → ℕ → ℤ → List Entry → List Entry
add_debt debtor creditor cents pair =
    if debtor == creditor || is_zero cents
    then pair
    else if ltb debtor creditor
    then set_pair debtor creditor (get_pair debtor creditor pair +ℤ neg_ℤ cents) pair
    else set_pair creditor debtor (get_pair creditor debtor pair +ℤ cents) pair

-- The inner loop over the splits of one expense.
pub add_splits : ℕ → Dict ℤ → List Entry → List Entry
add_splits paid_by [] pair = pair
add_splits paid_by ((user, cents) ∷ splits) pair =
    add_splits paid_by splits (add_debt user paid_by cents pair)

pub add_expenses : List ExpenseRow → List Entry → List Entry
add_expenses [] pair = pair
add_expenses (e ∷ es) pair = add_expenses es (add_splits e.paid_by e.splits pair)

abbrev pub is_disputed : PaymentStatus → Bool
is_disputed disputed = true
is_disputed _ = false

pub add_payments : List PaymentRow → List Entry → List Entry
add_payments [] pair = pair
add_payments (p ∷ ps) pair =
    add_payments ps
      (if is_disputed p.status then pair else add_debt p.to_user p.from_user p.amount_cents pair)

-- The order of the keys' texts, which have one length.
abbrev pub key_le : Entry → Entry → Bool
key_le d e = ltb d.a e.a || (d.a == e.a && (ltb d.b e.b || d.b == e.b))

pub insert_entry : Entry → List Entry → List Entry
insert_entry d [] = d ∷ []
insert_entry d (e ∷ es) = if key_le d e then d ∷ e ∷ es else e ∷ insert_entry d es

-- `[...pair.entries()].sort()`
pub sort_entries : List Entry → List Entry
sort_entries [] = []
sort_entries (e ∷ es) = insert_entry e (sort_entries es)

-- `[from, to, amountCents]` of an entry.
abbrev pub debt_of : Entry → Debt
debt_of e =
    if ltb_ℤ (pos 0) e.value
    then record { from = e.b; to = e.a; amount_cents = e.value }
    else record { from = e.a; to = e.b; amount_cents = neg_ℤ e.value }

-- The two writes to `net` for one pairwise debt.
pub apply_debt : Debt → Dict ℤ → Dict ℤ
apply_debt d net =
    let net' = insert d.from (get_or net d.from (pos 0) -ℤ d.amount_cents) net in
    insert d.to (get_or net' d.to (pos 0) +ℤ d.amount_cents) net'

-- The last loop: `pairwise`, and `net` from its value so far.
pub pairwise_of : List Entry → List Debt
pairwise_of [] = []
pairwise_of (e ∷ es) = if is_zero e.value then pairwise_of es else debt_of e ∷ pairwise_of es

pub net_of : List Entry → Dict ℤ → Dict ℤ
net_of [] net = net
net_of (e ∷ es) net = net_of es (if is_zero e.value then net else apply_debt (debt_of e) net)

pub compute_balances : List ExpenseRow → List PaymentRow → Balances
compute_balances expenses payments =
    let entries = sort_entries (add_payments payments (add_expenses expenses [])) in
    record { net = net_of entries []; pairwise = pairwise_of entries }
