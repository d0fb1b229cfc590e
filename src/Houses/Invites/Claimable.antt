-- ===== src/Houses/Invites/Claimable.antt =====
-- What a claim keeps: whatever depends on none of the tables that an accept writes, save that it is
-- kept when the splits change hands.
use homi_v.Prelude.{
  ℕ, ◌≡◌, false, ◌&&◌, Option, none, some, List, [], ◌∷◌, ◌++◌, map, update_where, ◌==◌,
}
use homi_v.Db.{Db, Invite, HouseMember, User, Revision, Expense, ActivityEvent}
use homi_v.Activity.{TxState, query, execute, log}
use homi_v.Activity.Laws.{Keeps, Keeps-execute, Keeps-bind, Keeps-pure, Keeps-query}
use homi_v.Posting.{is_null}
use homi_v.Ledger.{event_of}
use homi_v.Ledger.Expenses.{revision_of, rows_of}
use homi_v.Houses.{is_row}
use homi_v.Houses.Claim.{claim_splits, log_folded, claim_history, folded_expenses}
use homi_v.Houses.Invites.{take_room, claim}

-- The user is not the placeholder that an invite is bound to.
abbrev pub IsOther : ℕ → Option ℕ → Type 0
IsOther user_id none = Unit
IsOther user_id (some placeholder_id) = (placeholder_id == user_id) ≡ false

-- What depends on no table that an accept writes, save that a claim of splits keeps it.
pub record Claimable (P : TxState → Type 0) : Type 0 where
  pub members :
      (t : TxState) (ms : List HouseMember)
      → P t
      → P (record t { db = (let d = t.db in record d { members = ms }) })
  pub users :
      (t : TxState) (us : List User)
      → P t
      → P (record t { db = (let d = t.db in record d { users = us }) })
  pub invites :
      (t : TxState) (is : List Invite)
      → P t
      → P (record t { db = (let d = t.db in record d { invites = is }) })
  pub revisions :
      (t : TxState) (rs : List Revision)
      → P t
      → P (record t { db = (let d = t.db in record d { revisions = rs }) })
  pub claims :
      (p c : ℕ) (t : TxState)
      → (p == c) ≡ false
      → P t
      → P (record t { db = (let d = t.db in record d { splits = claim_splits p c d.splits }) })
  pub logs : (e : ActivityEvent) → Keeps P (log e)

module _ (P : TxState → Type 0) (u : Claimable P) where
  pub on_members :
      (f : List HouseMember → List HouseMember)
      → Keeps P (execute (λ db. record db { members = f db.members }))
  on_members f =
      Keeps-execute (λ db. record db { members = f db.members })
        (λ t h. u.members t (f t.db.members) h)

  log_folded-Keeps :
      (house_id user_id : ℕ) (es : List Expense) → Keeps P (log_folded house_id user_id es)
  unfolding log_folded
  log_folded-Keeps house_id user_id [] = Keeps-pure tt
  log_folded-Keeps house_id user_id (e ∷ es) =
      Keeps-bind (log (event_of house_id user_id "expense.edited" "expense" e.id)) _ (u.logs _)
        (λ _. log_folded-Keeps house_id user_id es)

  claim_history-Keeps :
      (now house_id p c : ℕ) → (p == c) ≡ false → Keeps P (claim_history now house_id p c)
  unfolding claim_history
  claim_history-Keeps now house_id p c differ =
      Keeps-bind (query (folded_expenses p c)) _ (Keeps-query (folded_expenses p c)) (λ folded.
        let revise : Db → Db = λ db. record db {
          revisions = db.revisions ++ map (λ e. revision_of c e (rows_of e.id db)) folded;
        } in
        Keeps-bind (execute revise) _
          (Keeps-execute revise (λ t h. u.revisions t (revise t.db).revisions h))
          (λ _.
            Keeps-bind (log_folded house_id c folded) _ (log_folded-Keeps house_id c folded) (λ _.
              Keeps-bind (execute (λ db. record db { splits = claim_splits p c db.splits })) _
                (Keeps-execute (λ db. record db { splits = claim_splits p c db.splits })
                  (λ t h. u.claims p c t differ h))
                (λ _.
                  Keeps-bind _ _
                    (on_members (
                      update_where (is_row house_id p) (λ m. record m {
                        claimed_by = some c;
                        left_at = some now;
                        room_id = none;
                      })))
                    (λ _.
                      Keeps-execute
                        (λ db. record db {
                          users =
                              update_where (λ x. x.id == p)
                                (λ x. record x { deleted_at = some now }) db.users;
                        })
                        (λ t h.
                          u.users t
                            (update_where (λ x. x.id == p) (λ x. record x { deleted_at = some now })
                              t.db.users)
                            h))))))

  take_room-Keeps :
      (i : Invite) (user_id : ℕ) (room : Option ℕ) → Keeps P (take_room i user_id room)
  unfolding take_room
  take_room-Keeps i user_id none = Keeps-pure tt
  take_room-Keeps i user_id (some room) = on_members (
      update_where (λ m. is_row i.house_id user_id m && is_null m.room_id && is_null m.left_at)
        (λ m. record m { room_id = some room }))

  pub claim-Keeps :
      (now : ℕ) (i : Invite) (user_id : ℕ) (room q : Option ℕ)
      → IsOther user_id q
      → Keeps P (claim now i user_id room q)
  unfolding claim
  claim-Keeps now i user_id room none other = Keeps-pure tt
  claim-Keeps now i user_id room (some p) other =
      Keeps-bind (take_room i user_id room) _ (take_room-Keeps i user_id room) (λ _.
        Keeps-bind (claim_history now i.house_id p user_id) _
          (claim_history-Keeps now i.house_id p user_id other)
          (λ _. u.logs (event_of i.house_id user_id "member.claimed" "member" user_id)))
