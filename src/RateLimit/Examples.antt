-- ===== src/RateLimit/Examples.antt =====
-- Two sign-in mails a minute, asked for three times.
use homi_v.Prelude.{ℕ, ◌≡◌, refl, min, List, [], ◌∷◌, arith}
use homi_v.RateLimit.{Call, new_limiter}
use homi_v.RateLimit.Budget.{allowed_in, calls_of, allowed_in-window}

abbrev mail_at : ℕ → Call
mail_at now = record { now = now; key = 7; limit = 2; window_sec = 60 }

abbrev later_calls : List Call
later_calls = mail_at 6000 ∷ record (mail_at 7000) { key = 8 } ∷ mail_at 8000 ∷ []

allowed_in-window_example :
    allowed_in 7 (mail_at 5000 ∷ later_calls) new_limiter
    ≡ min (calls_of 7 (mail_at 5000 ∷ later_calls)) 2
allowed_in-window_example =
    allowed_in-window (mail_at 5000) later_calls new_limiter tt
      ((omega arith, λ e. refl), ((omega arith, λ e. refl), ((omega arith, λ e. refl), tt)))
