-- ===== src/Tests/Limiting.antt =====
-- Two clients and the rate limiter.
use auru_pm_core.Server.Limiter.{RateLimiter, allow_at, new_limiter, swept}
use auru_pm_core.Server.Limiter.Budget.{admitted, asked, admitted_exactly, Spent}
use auru_pm_core.Prelude.{
  Text, codes, ℕ, List, [], ◌∷◌, lookup, ◌≡◌, insert, text_eq, min, true, arith, ◌-◌, refl,
}

abbrev here : Text
here = codes "10.0.0.1"

abbrev there : Text
there = codes "10.0.0.2"

-- Two requests a minute, one of them spent.
abbrev half_spent : RateLimiter
half_spent = record {
  requests_per_minute = 2;
  clients = (here, record { started = 5; requests = 1 }) ∷ [];
}

first_request : allow_at (new_limiter 2) here 5 ≡ (true, half_spent)
unfolding allow_at swept new_limiter lookup insert text_eq
first_request = refl

abbrev requests : List (Text × ℕ)
requests = (there, 6) ∷ (here, 7) ∷ (here, 8) ∷ (there, 9) ∷ []

half_spent-Spent : Spent here 5 half_spent 2 1
unfolding lookup text_eq
half_spent-Spent = record { bounded = omega arith; limited = refl; counted = refl }

admitted_exactly_example : admitted here half_spent requests ≡ min (asked here requests) (2 - 1)
admitted_exactly_example =
    admitted_exactly here 5 half_spent 2 1 requests
      (omega arith, (omega arith, (omega arith, (omega arith, tt)))) half_spent-Spent
