-- ===== src/Ledger/History/Housed.antt =====
-- The creation of a house keeps the ledger sound.
use homi_v.Prelude.{ℕ}
use homi_v.Activity.{World}
use homi_v.Activity.Laws.{log-Announced}
use homi_v.Activity.Unrelated.{log-Keeps}
use homi_v.Posting.{Env}
use homi_v.Houses.Service.{CreateHouseInput, create_house, create_house_tx}
use homi_v.Houses.Service.Keeps.{create_house_tx-Keeps}
use homi_v.Ledger.History.Steps.{IsSound, KeepsSound, transact-IsSound}

create_house-KeepsSound :
    (env : Env) (user_id : ℕ) (input : CreateHouseInput)
    → KeepsSound (create_house_tx env user_id input)
create_house-KeepsSound env user_id input = record {
  books =
      create_house_tx-Keeps (λ t hs h. h) (λ t ms h. h) (λ e. log-Keeps e (λ t es ls h. h)) env
        user_id input;
  payments =
      create_house_tx-Keeps (λ t hs h. h) (λ t ms h. h) (λ e. log-Keeps e (λ t es ls h. h)) env
        user_id input;
  announced = λ base.
      create_house_tx-Keeps (λ t hs h. h) (λ t ms h. h) (log-Announced base) env user_id input;
  periods =
      create_house_tx-Keeps (λ t hs h. h) (λ t ms h. h) (λ e. log-Keeps e (λ t es ls h. h)) env
        user_id input;
}

pub create_house-IsSound :
    (env : Env) (user_id : ℕ) (input : CreateHouseInput) (v : World)
    → IsSound v
    → IsSound (create_house env user_id input v).1
unfolding create_house
create_house-IsSound env user_id input v s =
    transact-IsSound (create_house_tx env user_id input) (create_house-KeepsSound env user_id input)
      v s
