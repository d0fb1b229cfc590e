-- ===== src/Houses/Members/Renamed.antt =====
-- Sending a display name again changes nothing.
use mathlib.Core.List.{append-nil}
use homi_v.Prelude.{
  ℕ, ◌≡◌, refl, sym, ap, ◌∙◌, subst, true, ◌&&◌, Option, none, some, String, List, [], ◌∷◌, find,
  update_where, arith, ◌==◌, eq_iff, Bool-cases, inl, inr,
}
use homi_v.Prelude.Result.{ok}
use homi_v.Db.{Db, not_found, HouseMember}
use homi_v.Activity.{TxState, query, or_throw, pure, execute, log, World}
use homi_v.Activity.Laws.{or_throw-eq-ok, transact-eq-ok, transact_commits}
use homi_v.Activity.Hoare.{Ensures, Ensures-bind, Ensures-then}
use homi_v.Activity.Unrelated.{log-Keeps}
use homi_v.Posting.{active_member, is_active}
use homi_v.Ledger.{event_of}
use homi_v.Houses.{is_row}
use homi_v.Houses.Members.{same_name, rename_member, set_display_name_tx, set_display_name}

-- The active row of the user, if there is one, shows this name.
abbrev Shows : ℕ → ℕ → Option String → List HouseMember → Type 0
Shows house_id user_id name members =
    (m : HouseMember) × (find (λ r. is_active house_id r && r.user_id == user_id) members ≡ some m)
    × (same_name m.display_name name ≡ true)

same_name_refl : (a : Option String) → same_name a a ≡ true
same_name_refl none = refl
same_name_refl (some s) = ground (arith, eq_iff s s)

Shows-update :
    (house_id user_id : ℕ) (name : Option String) (members : List HouseMember) (m : HouseMember)
    → find (λ r. is_active house_id r && r.user_id == user_id) members ≡ some m
    → Shows house_id user_id name
        (update_where (is_row house_id user_id) (λ r. record r { display_name = name }) members)
Shows-update house_id user_id name [] m h = cc
Shows-update house_id user_id name (r ∷ members) m h =
    elim (Bool-cases (is_active house_id r && r.user_id == user_id)) [
      | inl here ↦
          let row : is_row house_id user_id r ≡ true = ground arith in
          (record r { display_name = name }, rw (row, here) refl, same_name_refl name)
      | inr other ↦
          let rest = Shows-update house_id user_id name members m (rw other at h) in
          elim (Bool-cases (is_row house_id user_id r)) [
            | inl row ↦ (rest.0, rw (row, other) rest.1, rest.2)
            | inr no_row ↦ (rest.0, rw (no_row, other) rest.1, rest.2)
          ]
    ]

abbrev ShowsIn : ℕ → ℕ → Option String → TxState → Type 0
ShowsIn house_id user_id name t = Shows house_id user_id name t.db.members

abbrev FindsIn : ℕ → ℕ → HouseMember → TxState → Type 0
FindsIn house_id user_id m t =
    find (λ r. is_active house_id r && r.user_id == user_id) t.db.members ≡ some m

-- A statement ensures what holds of the tables that it leaves.
Ensures-execute :
    (P Q : TxState → Type 0) (f : Db → Db)
    → ((t : TxState) → P t → Q (record t { db = f t.db }))
    → Ensures P (execute f) (λ _. Q)
Ensures-execute P Q f k = record {
  after = λ t a t' h e. let same : record t { db = f t.db } ≡ t' = cc in subst Q same (k t h);
}

Ensures-pure :
    (P Q : TxState → Type 0) (a : Option String)
    → ((t : TxState) → P t → Q t)
    → Ensures P (pure a) (λ _. Q)
Ensures-pure P Q a k = record {
  after = λ t b t' h e. let same : t ≡ t' = cc in subst Q same (k t h);
}

rename-Shows :
    (house_id user_id : ℕ) (name : Option String) (current : HouseMember)
    → Ensures
        (FindsIn house_id user_id current)
        (rename_member house_id user_id name current)
        (λ _. ShowsIn house_id user_id name)
unfolding rename_member
rename-Shows house_id user_id name current =
    let P : TxState → Type 0 = FindsIn house_id user_id current in
    let Q : TxState → Type 0 = ShowsIn house_id user_id name in
    let set : Db → Db = λ db. record db {
      members =
          update_where (is_row house_id user_id) (λ r. record r { display_name = name }) db.members;
    } in
    elim (Bool-cases (same_name current.display_name name)) [
      | inl same ↦
          rw (same, rename_member) (Ensures-pure P Q name (λ t found. (current, found, same)))
      | inr new ↦
          rw (new, rename_member)
            (Ensures-bind (λ _. Q) (execute set) _
              (Ensures-execute P Q set
                (λ t found. Shows-update house_id user_id name t.db.members current found))
              (λ _.
                Ensures-then (log (event_of house_id user_id "member.renamed" "member" user_id)) _
                  (log-Keeps _ (λ t es ls h. h)) (λ _. Ensures-pure Q Q name (λ t h. h))))
    ]

read-row :
    (house_id user_id : ℕ)
    → Ensures
        (λ _. Unit {0})
        (query (active_member house_id user_id))
        (λ row t. find (λ r. is_active house_id r && r.user_id == user_id) t.db.members ≡ row)
unfolding active_member
read-row house_id user_id = record {
  after = λ t row t' h e.
      let same : t ≡ t' = cc in
      let found : find (λ r. is_active house_id r && r.user_id == user_id) t.db.members ≡ row =
        cc in
      subst (λ x. find (λ r. is_active house_id r && r.user_id == user_id) x.db.members ≡ row) same
        found;
}

take-row :
    (house_id user_id : ℕ) (row : Option HouseMember)
    → Ensures
        (λ t. find (λ r. is_active house_id r && r.user_id == user_id) t.db.members ≡ row)
        (or_throw row (not_found "Membership not found"))
        (FindsIn house_id user_id)
take-row house_id user_id row = record {
  after = λ t m t' h e.
      let (is_row_m, same) = or_throw-eq-ok row (not_found "Membership not found") t e in
      subst (FindsIn house_id user_id m) (sym same) (h ∙ is_row_m);
}

set_display_name_tx-Shows :
    (house_id user_id : ℕ) (name : Option String)
    → Ensures
        (λ _. Unit {0})
        (set_display_name_tx house_id user_id name)
        (λ _. ShowsIn house_id user_id name)
unfolding set_display_name_tx
set_display_name_tx-Shows house_id user_id name =
    Ensures-bind _ _ _ (read-row house_id user_id) (λ row.
      Ensures-bind _ _ _ (take-row house_id user_id row)
        (λ m. rename-Shows house_id user_id name m))

set_display_name-Shows :
    (house_id user_id : ℕ) (name : Option String) (w w' : World) (r : Option String)
    → set_display_name house_id user_id name w ≡ (ok r, w')
    → Shows house_id user_id name w'.db.members
unfolding set_display_name
set_display_name-Shows house_id user_id name w w' r h =
    let (t, run, same) = transact-eq-ok (set_display_name_tx house_id user_id name) w w' r h in
    subst (λ d. Shows house_id user_id name d.members) (sym same)
      ((set_display_name_tx-Shows house_id user_id name).after _ r t tt run)

set_display_name_again :
    (house_id user_id : ℕ) (name : Option String) (w : World)
    → Shows house_id user_id name w.db.members
    → set_display_name house_id user_id name w ≡ (ok name, w)
unfolding set_display_name set_display_name_tx rename_member active_member
set_display_name_again house_id user_id name w (m, found, same) =
    let t : TxState = record { db = w.db; logged = [] } in
    let run : set_display_name_tx house_id user_id name t ≡ ok (name, t) = rw (found, same) refl in
    transact_commits (set_display_name_tx house_id user_id name) w name t run
    ∙ ap (λ l. (ok name, record { db = w.db; published = l })) (append-nil w.published)

-- Sending an accepted display name again is accepted, and changes nothing: no event is written or
-- announced a second time.
pub set_display_name_resend :
    (house_id user_id : ℕ) (name : Option String) (w w' : World) (r : Option String)
    → set_display_name house_id user_id name w ≡ (ok r, w')
    → set_display_name house_id user_id name w' ≡ (ok name, w')
set_display_name_resend house_id user_id name w w' r h =
    set_display_name_again house_id user_id name w'
      (set_display_name-Shows house_id user_id name w w' r h)
