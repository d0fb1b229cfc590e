-- ===== src/Ledger/History/Accepted.antt =====
-- An accept of an invite, with the claim of a placeholder, keeps the ledger sound.
use homi_v.Prelude.{ℕ, ◌≡◌, refl, sym, List, []}
use homi_v.Prelude.Result.{Result, ok, err}
use homi_v.Db.{Error, ActivityEvent}
use homi_v.Activity.{World, transact, TxState, settle}
use homi_v.Activity.Unrelated.{log-Keeps}
use homi_v.Ledger.Expenses.Created.{BooksOf}
use homi_v.Ledger.Payments.Lifecycle.{PaymentsOf}
use homi_v.Activity.Laws.{log-Announced, Announced}
use homi_v.Houses.Claim.Keys.{Books-claim_splits}
use homi_v.Houses.Invites.{Accepted, accept_invite, accept_invite_tx}
use homi_v.Houses.Invites.Claimable.{Claimable}
use homi_v.Houses.Invites.Sound.{NotOwn, accept_invite_tx-Ensures}
use mathlib.Core.List.{append-nil}
use homi_v.Ledger.Periods.{PostedOnceOf}
use homi_v.Ledger.History.Steps.{IsSound, published-IsFeed}

books_claimable : Claimable BooksOf
books_claimable = record {
  members = λ t ms h. h;
  users = λ t us h. h;
  invites = λ t is h. h;
  revisions = λ t rs h. h;
  claims = λ p c t differ h. Books-claim_splits p c differ t.db.expenses t.db.splits h;
  logs = λ e. log-Keeps e (λ t es ls h. h);
}

payments_claimable : Claimable PaymentsOf
payments_claimable = record {
  members = λ t ms h. h;
  users = λ t us h. h;
  invites = λ t is h. h;
  revisions = λ t rs h. h;
  claims = λ p c t differ h. h;
  logs = λ e. log-Keeps e (λ t es ls h. h);
}

periods_claimable : Claimable PostedOnceOf
periods_claimable = record {
  members = λ t ms h. h;
  users = λ t us h. h;
  invites = λ t is h. h;
  revisions = λ t rs h. h;
  claims = λ p c t differ h. h;
  logs = λ e. log-Keeps e (λ t es ls h. h);
}

feed_claimable : (base : List ActivityEvent) → Claimable (Announced base)
feed_claimable base = record {
  members = λ t ms h. h;
  users = λ t us h. h;
  invites = λ t is h. h;
  revisions = λ t rs h. h;
  claims = λ p c t differ h. h;
  logs = log-Announced base;
}

-- An accept of an invite, with the claim of the history of the placeholder that it is bound to,
-- keeps the ledger sound, unless the invite is bound to the user themselves: the splits of every
-- expense add up to its amount, no user has two splits of one expense, no two expenses share an id,
-- the payments are as they should be, and the events announced are those on the feed, in order.
pub accept_invite-IsSound :
    (now token_hash user_id : ℕ) (w : World)
    → NotOwn token_hash user_id w.db.invites
    → IsSound w
    → IsSound (accept_invite now token_hash user_id w).1
unfolding accept_invite transact
accept_invite-IsSound now token_hash user_id w other s =
    go (accept_invite_tx now token_hash user_id before) refl
  where
    before : TxState
    before = record { db = w.db; logged = [] }

    kept :
        (P : TxState → Type 0)
        → Claimable P
        → P before
        → (a : Accepted) (t : TxState) → accept_invite_tx now token_hash user_id before ≡ ok (a, t)
        → P t
    kept P u h a t e =
        (accept_invite_tx-Ensures P u now token_hash user_id).after before a t (h, other) e

    go :
        (x : Result Error (Accepted × TxState))
        → accept_invite_tx now token_hash user_id before ≡ x
        → IsSound (settle w x).1
    go (err e) h = s
    go (ok (a, t)) h = record {
      books = kept BooksOf books_claimable s.books a t h;
      payments = kept PaymentsOf payments_claimable s.payments a t h;
      periods = kept PostedOnceOf periods_claimable s.periods a t h;
      announced =
          published-IsFeed {A = Accepted} w (settle w (ok (a, t)))
            (
              t.logged,
              kept (Announced w.db.events) (feed_claimable w.db.events)
                  (sym (append-nil w.db.events)) a t h,
              refl,
            )
            s.announced;
    }
