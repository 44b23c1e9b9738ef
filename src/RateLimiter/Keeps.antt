-- ===== src/RateLimiter/Keeps.antt =====
-- What the rate limiter touches and throws.
use sd_hw.Prelude.{Text, List}
use sd_hw.Prelude.Int.{ℤ}
use sd_hw.Services.{Services}
use sd_hw.Services.Results.{Exn}
use sd_hw.App.{World}
use sd_hw.App.Keeps.{Keeps, RedisCallsKeep, keeps_rules}
use sd_hw.App.Raises.{Raises, raises_rules}
use sd_hw.RateLimiter.{check}

module _ {sv : Services} {X : Type 0} {part : World sv → X} (calls : RedisCallsKeep part) where
  pub check-Keeps :
      (key : Text) (limit window_seconds : ℤ) → Keeps part (check key limit window_seconds)
  unfolding check
  check-Keeps key limit window_seconds = search (keeps_rules, calls) depth 16

module _ {sv : Services} {errors : List Exn} where
  pub check-Raises :
      (key : Text) (limit window_seconds : ℤ)
      → Raises errors (check {sv = sv} key limit window_seconds)
  unfolding check
  check-Raises key limit window_seconds = search raises_rules depth 16
