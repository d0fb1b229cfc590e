-- ===== src/Ledger.antt =====
-- apps/api/src/ledger: the mutations of LedgerService and what they share.
pub mod Shares
pub mod Books
pub mod Periods
pub mod Reading
pub mod Cursor
pub mod Feed
pub mod Once
pub mod History
pub mod Examples
pub mod Keeps
pub mod Expenses
pub mod Payments
use homi_v.Prelude.{
  ℕ, Bool, true, false, not, ◌&&◌, Option, none, some, String, List, find, str_eq, ◌==◌,
  if◌then◌else◌,
}
use homi_v.Prelude.Result.{Result, ok, err}
use homi_v.Db.{
  Db, Error, bad_request, posting_problem, split_error, split_as_400, House, ActivityEvent,
  StoredResponse,
}
use homi_v.Activity.{Tx, ◌>>=◌, ◌>>◌, query, or_throw, throw_if, pure, log}
use homi_v.Idempotency.{Options, store}

-- `throwPostingProblemAs400`
unfoldable pub throw_posting_problem_as_400 : Error → Error
throw_posting_problem_as_400 (posting_problem m) = bad_request m
throw_posting_problem_as_400 (split_error e) = split_as_400 e
throw_posting_problem_as_400 e = e

-- `try { ... } catch (err) { throwPostingProblemAs400(err) }`
unfoldable pub as_400 : {A : Type 0} → Tx A → Tx A
as_400 m t = elim (m t) [ ok r ↦ ok r | err e ↦ err (throw_posting_problem_as_400 e) ]

unfoldable pub find_house : ℕ → Db → Option House
find_house house_id db = find (λ h. h.id == house_id) db.houses

-- `input.currency && input.currency !== house.currency`
unfoldable pub other_currency : Option String → House → Bool
other_currency none h = false
other_currency (some c) h = not (str_eq c "") && not (str_eq c h.currency)

-- `input.currency ?? house.currency`
unfoldable pub currency_or : Option String → House → String
currency_or none h = h.currency
currency_or (some c) h = c

-- The house of the request, if it keeps its ledger in the currency asked for.
unfoldable pub house_for : ℕ → Option String → Tx House
house_for house_id currency = do
  row ← query (find_house house_id)
  house ← or_throw row (bad_request "House not found")
  throw_if (other_currency currency house) (bad_request "This house keeps its ledger in")
  pure house

-- The key, the user, the hash of the request and the database's clock, for one endpoint.
abbrev pub options_for : ℕ → ℕ → String → ℕ → ℕ → Options
options_for key user_id endpoint request_hash now = record {
  key = key;
  user_id = user_id;
  endpoint = endpoint;
  request_hash = request_hash;
  now = now;
}

abbrev pub event_of : ℕ → ℕ → String → String → ℕ → ActivityEvent
event_of house_id actor_id type_ entity_type entity_id = record {
  house_id = house_id;
  actor_id = actor_id;
  type_ = type_;
  entity_type = entity_type;
  entity_id = entity_id;
}

-- How a mutation ends: it logs its event, and stores the response that it returns.
unfoldable pub reply : Options → ActivityEvent → StoredResponse → Tx StoredResponse
reply o event response = do log event; store o response; pure response
