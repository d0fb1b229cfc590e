-- ===== src/Bills/Schedule/Weekly.antt =====
-- The search over seven days.
use homi_v.Prelude.{
  ℕ, zero, suc, ◌+◌, ◌-◌, ◌%◌, ◌≤◌, ◌<◌, ◌≡◌, ◌≢◌, ap, ◌∙◌, inl, inr, false, arith, ltb, ◌==◌,
  Bool-cases,
}
use homi_v.Prelude.Result.{ok}
use homi_v.Bills.Calendar.{date_of, weekday}
use homi_v.Bills.Iso.{to_iso}
use homi_v.Bills.Schedule.{weekly_from}

-- The first day from `base + step` on with this weekday, which the search returns.
pub record FirstDay (rounds step target base : ℕ) : Type 0 where
  pub steps : ℕ
  pub returns : weekly_from rounds step target base ≡ ok (to_iso (date_of (base + steps)))
  pub after : step ≤ steps
  pub before : steps < step + rounds
  pub named : weekday (base + steps) ≡ target
  pub first : (j : ℕ) → step ≤ j → j < steps → weekday (base + j) ≢ target

weekly_from-FirstDay :
    (rounds step target base k : ℕ)
    → step ≤ k
    → k < step + rounds
    → weekday (base + k) ≡ target
    → FirstDay rounds step target base
unfolding weekly_from
weekly_from-FirstDay zero step target base k lo hi h = absurd (omega arith)
weekly_from-FirstDay (suc rounds) step target base k lo hi h =
    elim (Bool-cases (weekday (base + step) == target)) [
      | inl here ↦ record {
        steps = step;
        returns = rw here;
        after = omega arith;
        before = omega arith;
        named = ground arith;
        first = λ j ge lt. absurd (omega arith);
      }
      | inr other ↦
          let more : step + 1 ≤ k = ground (arith, λ (e : step ≡ k). missed step k other e h) in
          let rest = weekly_from-FirstDay rounds (step + 1) target base k more (omega arith) h in
          record {
            steps = rest.steps;
            returns = rw other rest.returns;
            after = omega (arith, rest.after);
            before = omega (arith, rest.before);
            named = rest.named;
            first = λ j ge lt e. elim (Bool-cases (step == j)) [
              | inl now ↦ missed step j other (ground arith) e
              | inr after ↦ rest.first j (ground arith) lt e
            ];
          }
    ]
  where
    missed :
        (i j : ℕ) → (weekday (base + i) == target) ≡ false → i ≡ j → weekday (base + j) ≢ target
    missed i j h e k = ground (arith, ap (λ x. weekday (base + x)) e)

-- Within seven days each weekday comes.
weekday_comes :
    (target base : ℕ)
    → target < 7
    → weekday (base + (1 + (target + 7 - (base + 7) % 7) % 7)) ≡ target
unfolding weekday
weekday_comes target base h = omega arith

pub weekly_from_lem : (target base : ℕ) → target < 7 → FirstDay 7 1 target base
weekly_from_lem target base h =
    weekly_from-FirstDay 7 1 target base (1 + (target + 7 - (base + 7) % 7) % 7) (omega arith)
      (omega arith) (weekday_comes target base h)

-- No day with the weekday lies between.
pub FirstDay-least :
    (rounds target base : ℕ) (f : FirstDay rounds 1 target base) (n : ℕ)
    → base < n
    → weekday n ≡ target
    → base + f.steps ≤ n
FirstDay-least rounds target base f n h e = elim (Bool-cases (ltb n (base + f.steps))) [
  | inl between ↦
      let same : base + (n - base) ≡ n = omega arith in
      absurd (f.first (n - base) (omega arith) (ground arith) (ap weekday same ∙ e))
  | inr fine ↦ ground arith
]
