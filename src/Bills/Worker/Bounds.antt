-- ===== src/Bills/Worker/Bounds.antt =====
-- What a run of the worker posts, and how much.
use homi_v.Prelude.{
  ℕ, ◌+◌, ◌≤◌, ◌≡◌, Bool, true, false, not, ◌&&◌, none, some, List, [], ◌∷◌, all, any, find, length,
  ◌==◌,
}
use homi_v.Prelude.Decimal.{text_lt}
use homi_v.Prelude.Result.{Result}
use homi_v.Db.{BillTemplate, House}
use homi_v.Activity.{World}
use homi_v.Posting.{Env}
use homi_v.Bills.Service.{Format}
use homi_v.Bills.Worker.{Run, DueTemplate}

-- The next run of the bill is not after the day that it is in the time zone of its house.
abbrev pub due_in_zone : Format → ℕ → List House → BillTemplate → Bool
due_in_zone format now houses b = elim (find (λ h. h.id == b.house_id) houses) [
  | none ↦ false
  | some h ↦ elim (format h.timezone now) [
    | none ↦ false
    | some today ↦ not (text_lt today b.next_run)
  ]
]

-- Some active bill with the id is due.
abbrev pub due_now : Format → ℕ → List House → List BillTemplate → ℕ → Bool
due_now format now houses bills id =
    any (λ b. b.id == id && (b.active && due_in_zone format now houses b)) bills

-- The number of periods that a run lists as posted, by itself or by others.
abbrev pub listed : Run → ℕ
listed run = length run.posted + length run.already_posted

-- Each period that a run lists is of a bill that is good.
pub record OnlyOf (good : ℕ → Bool) (run : Run) : Type 0 where
  pub of_posted : all (λ p. good p.0) run.posted ≡ true
  pub of_already_posted : all (λ p. good p.0) run.already_posted ≡ true

module _ (good : ℕ → Bool) where
  -- A run lists good bills only, and `n` periods at most.
  record Within (n : ℕ) (run : Run) : Type 0 where
    pub only : OnlyOf good run
    pub bound : listed run ≤ n

  module _ (format : Format) (env : World → Env) (meanwhile : World → World) (now : ℕ) where
    -- The bills of the scan are good if they are due in their time zone.
    abbrev Each : List DueTemplate → Type 0
    Each [] = Unit
    Each (d ∷ ds) =
        ((today : List ℕ)
          → format d.timezone now ≡ some today
          → text_lt today d.template.next_run ≡ false
          → good d.template.id ≡ true)
        × Each ds
