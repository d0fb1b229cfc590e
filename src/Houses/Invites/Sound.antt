-- ===== src/Houses/Invites/Sound.antt =====
-- What an accept keeps: whatever a claim keeps.
use homi_v.Prelude.{
  ℕ, ◌+◌, ◌≡◌, refl, sym, ◌∙◌, subst, Bool, true, false, ◌&&◌, Option, none, some, List, [], ◌∷◌,
  ◌++◌, find, any, update_where, arith, leb, ◌==◌,
}
use homi_v.Prelude.Result.{ok}
use homi_v.Db.{bad_request, member, check_violation, Invite, HouseMember}
use homi_v.Activity.{TxState, query, or_throw, throw_if, pure}
use homi_v.Activity.Laws.{
  Keeps, keeps_rules, Keeps-execute, Keeps-bind, Keeps-pure, Keeps-query, Keeps-throw_if, Keeps-if,
  or_throw-eq-ok,
}
use homi_v.Activity.Hoare.{Ensures, Ensures-bind}
use homi_v.Posting.{is_null}
use homi_v.Ledger.{event_of}
use homi_v.Houses.{is_row}
use homi_v.Houses.Invites.{
  accepted, usable, still_in, inherited_room, joined_row, insert_member, reactivate, join, claim,
  consume_use, settle_accept, accept_usable, accept_invite_tx,
}
use homi_v.Houses.Invites.Claimable.{IsOther, Claimable, on_members, claim-Keeps}

-- An invite of this token, if there is one, is not bound to the user.
abbrev pub NotOwn : ℕ → ℕ → List Invite → Type 0
NotOwn token_hash user_id invites =
    (i : Invite)
    → find (λ x. x.token_hash == token_hash) invites ≡ some i
    → IsOther user_id i.placeholder_user_id

usable-eq-some :
    (now : ℕ) (row : Option Invite) (i : Invite) → usable now row ≡ some i → row ≡ some i
unfolding usable
usable-eq-some now none i h = cc
usable-eq-some now (some x) i h = ground arith

module _ (P : TxState → Type 0) (u : Claimable P) where
  consume_use-Keeps : (i : Invite) → Keeps P (consume_use i)
  unfolding consume_use
  consume_use-Keeps i =
      Keeps-bind (query (λ db. any (λ x. x.id == i.id && leb x.max_uses x.uses) db.invites)) _
        (Keeps-query (λ db. any (λ x. x.id == i.id && leb x.max_uses x.uses) db.invites))
        (λ spent.
          Keeps-bind (throw_if spent (check_violation "chk_invites_uses_within_max")) _
            (Keeps-throw_if spent (check_violation "chk_invites_uses_within_max"))
            (λ _.
              Keeps-execute
                (λ db. record db {
                  invites =
                      update_where (λ x. x.id == i.id) (λ x. record x { uses = x.uses + 1 })
                        db.invites;
                })
                (λ t h.
                  u.invites t
                    (update_where (λ x. x.id == i.id) (λ x. record x { uses = x.uses + 1 })
                      t.db.invites)
                    h)))

  inherited_room-Keeps : (i : Invite) → Keeps P (inherited_room i)
  unfolding inherited_room
  inherited_room-Keeps i = by_placeholder i.placeholder_user_id refl
    where
      by_placeholder : (q : Option ℕ) → i.placeholder_user_id ≡ q → Keeps P (inherited_room i)
      by_placeholder none e = rw (e, inherited_room) (search keeps_rules)
      by_placeholder (some p) e = rw (e, inherited_room) (search keeps_rules)

  insert_member-Keeps :
      (now : ℕ) (i : Invite) (user_id : ℕ) (room : Option ℕ)
      → Keeps P (insert_member now i user_id room)
  unfolding insert_member
  insert_member-Keeps now i user_id room =
      Keeps-bind (query (λ db. any (is_row i.house_id user_id) db.members)) _
        (Keeps-query (λ db. any (is_row i.house_id user_id) db.members))
        (λ taken. Keeps-if taken (pure false) _ (Keeps-pure false) (
          Keeps-bind _ _ (on_members P u (λ ms. ms ++ joined_row now i user_id room ∷ []))
            (λ _. Keeps-pure true)))

  join-Keeps :
      (now : ℕ) (i : Invite) (user_id : ℕ) (room : Option ℕ) (m : Option HouseMember)
      → Keeps P (join now i user_id room m)
  unfolding join reactivate
  join-Keeps now i user_id room none =
      Keeps-bind (insert_member now i user_id room) _ (insert_member-Keeps now i user_id room)
        (λ inserted. Keeps-pure _)
  join-Keeps now i user_id room (some m) =
      Keeps-if (is_null m.left_at) (pure (some true)) _ (Keeps-pure (some true)) (
        Keeps-bind _ _
          (on_members P u (
            update_where (is_row i.house_id user_id)
              (λ x. record x { left_at = none; joined_at = now; role = member; room_id = room })))
          (λ _. Keeps-pure (some false)))

  settle_accept-Keeps :
      (now : ℕ) (i : Invite) (user_id : ℕ) (room : Option ℕ) (joined : Option Bool)
      → IsOther user_id i.placeholder_user_id
      → Keeps P (settle_accept now i user_id room joined)
  unfolding settle_accept
  settle_accept-Keeps now i user_id room none other = Keeps-pure (accepted i true none)
  settle_accept-Keeps now i user_id room (some already) other =
      Keeps-bind (claim now i user_id room i.placeholder_user_id) _
        (claim-Keeps P u now i user_id room i.placeholder_user_id other)
        (λ _. Keeps-bind (consume_use i) _ (consume_use-Keeps i) (λ _.
          Keeps-bind _ _
            (Keeps-if already (pure tt) _ (Keeps-pure tt)
              (u.logs (event_of i.house_id user_id "member.joined" "member" user_id)))
            (λ _. Keeps-pure (accepted i already i.placeholder_user_id))))

  -- The accept of an invite that is not bound to the user.
  accept_usable-Keeps :
      (now : ℕ) (i : Invite) (user_id : ℕ) (existing : Option HouseMember)
      → IsOther user_id i.placeholder_user_id
      → Keeps P (accept_usable now i user_id existing)
  unfolding accept_usable
  accept_usable-Keeps now i user_id existing other =
      Keeps-if (still_in existing && is_null i.placeholder_user_id) (pure (accepted i true none)) _
        (Keeps-pure (accepted i true none))
        (Keeps-bind (inherited_room i) _ (inherited_room-Keeps i) (λ room.
          Keeps-bind (join now i user_id room existing) _ (join-Keeps now i user_id room existing)
            (λ joined. settle_accept-Keeps now i user_id room joined other)))

  -- The accept, where an invite of the token is not bound to the user.
  pub accept_invite_tx-Ensures :
      (now token_hash user_id : ℕ)
      → Ensures
          (λ t. P t × NotOwn token_hash user_id t.db.invites)
          (accept_invite_tx now token_hash user_id)
          (λ _. P)
  unfolding accept_invite_tx
  accept_invite_tx-Ensures now token_hash user_id =
      Ensures-bind
        (λ row t. P t × ((i : Invite) → row ≡ some i → IsOther user_id i.placeholder_user_id))
        (query (λ db. find (λ i. i.token_hash == token_hash) db.invites)) _
        (record { after = λ t row t' (h, other) e. found t t' row h other e })
        (λ row.
          Ensures-bind (λ i t. P t × IsOther user_id i.placeholder_user_id)
            (or_throw (usable now row) (bad_request "This invite link is no longer valid")) _
            (record { after = λ t i t' (h, other) e. taken row t i t' h other e })
            (λ i. record {
              after = λ t a t' (h, other) e.
                  (Keeps-bind (query (λ db. find (is_row i.house_id user_id) db.members)) _
                      (Keeps-query (λ db. find (is_row i.house_id user_id) db.members))
                      (λ existing. accept_usable-Keeps now i user_id existing other)).at
                    t a t' h e;
            }))
    where
      found :
          (t t' : TxState) (row : Option Invite)
          → P t
          → NotOwn token_hash user_id t.db.invites
          → query (λ db. find (λ i. i.token_hash == token_hash) db.invites) t ≡ ok (row, t')
          → P t' × ((i : Invite) → row ≡ some i → IsOther user_id i.placeholder_user_id)
      found t t' row h other e =
          let same : t ≡ t' = cc in
          let read : find (λ i. i.token_hash == token_hash) t.db.invites ≡ row = cc in
          (subst P same h, λ i yes. other i (read ∙ yes))

      taken :
          (row : Option Invite) (t : TxState) (i : Invite) (t' : TxState)
          → P t
          → ((i : Invite) → row ≡ some i → IsOther user_id i.placeholder_user_id)
          → or_throw (usable now row) (bad_request "This invite link is no longer valid") t
            ≡ ok (i, t')
          → P t' × IsOther user_id i.placeholder_user_id
      taken row t i t' h other e =
          let (some_row, same) = or_throw-eq-ok (usable now row) _ t e in
          (subst P (sym same) h, other i (usable-eq-some now row i some_row))
