-- ===== src/Houses/Service/Keeps.antt =====
-- What the creation of a house keeps.
use homi_v.Prelude.{ℕ, List, [], ◌∷◌, ◌++◌, any, ◌==◌}
use homi_v.Db.{unique_violation, House, HouseMember, ActivityEvent}
use homi_v.Activity.{TxState, log}
use homi_v.Activity.Laws.{Keeps, Keeps-bind, Keeps-query, Keeps-throw_if, Keeps-execute, Keeps-pure}
use homi_v.Posting.{Env}
use homi_v.Ledger.{event_of}
use homi_v.Houses.Service.{CreateHouseInput, house_row, founder_row, create_house_tx}

module _ {P : TxState → Type 0}
    (houses : (t : TxState) (hs : List House)
      → P t
      → P (record t { db = (let d = t.db in record d { houses = hs }) }))
    (members : (t : TxState) (ms : List HouseMember)
      → P t
      → P (record t { db = (let d = t.db in record d { members = ms }) })) where
  pub create_house_tx-Keeps :
      ((e : ActivityEvent) → Keeps P (log e))
      → (env : Env) (user_id : ℕ) (input : CreateHouseInput)
      → Keeps P (create_house_tx env user_id input)
  unfolding create_house_tx
  create_house_tx-Keeps logs env user_id input =
      Keeps-bind _ _ (Keeps-query (λ db. any (λ h. h.id == env.new_id) db.houses)) (λ taken.
        Keeps-bind _ _ (Keeps-throw_if taken (unique_violation "houses_pkey")) (λ _.
          Keeps-bind _ _
            (Keeps-execute
              (λ db. record db { houses = db.houses ++ house_row env user_id input ∷ [] })
              (λ t h. houses t (t.db.houses ++ house_row env user_id input ∷ []) h))
            (λ _.
              Keeps-bind _ _
                (Keeps-execute
                  (λ db. record db { members = db.members ++ founder_row env user_id ∷ [] })
                  (λ t h. members t (t.db.members ++ founder_row env user_id ∷ []) h))
                (λ _.
                  Keeps-bind _ _
                    (logs (event_of env.new_id user_id "house.created" "house" env.new_id))
                    (λ _. Keeps-pure (house_row env user_id input))))))
