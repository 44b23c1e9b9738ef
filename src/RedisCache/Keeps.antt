-- ===== src/RedisCache/Keeps.antt =====
-- What the cache touches and throws.
use sd_hw.Prelude.{Text, List}
use sd_hw.Prelude.Int.{ℤ}
use sd_hw.Services.{Services}
use sd_hw.Services.Results.{Exn}
use sd_hw.App.{World}
use sd_hw.App.Keeps.{Keeps, RedisCallsKeep, keeps_rules}
use sd_hw.App.Raises.{Raises, raises_rules}
use sd_hw.RedisCache.{get, set, invalidate}

module _ {sv : Services} {X : Type 0} {part : World sv → X} (calls : RedisCallsKeep part) where
  pub get-Keeps : (key : Text) → Keeps part (get key)
  unfolding get
  get-Keeps key = search (keeps_rules, calls) depth 16

  pub set-Keeps : (key value : Text) (ttl_seconds : ℤ) → Keeps part (set key value ttl_seconds)
  unfolding set
  set-Keeps key value ttl_seconds = search (keeps_rules, calls) depth 16

  pub invalidate-Keeps : (key : Text) → Keeps part (invalidate key)
  unfolding invalidate
  invalidate-Keeps key = search (keeps_rules, calls) depth 16

module _ {sv : Services} {errors : List Exn} where
  pub get-Raises : (key : Text) → Raises errors (get {sv = sv} key)
  unfolding get
  get-Raises key = search raises_rules depth 16

  pub set-Raises :
      (key value : Text) (ttl_seconds : ℤ) → Raises errors (set {sv = sv} key value ttl_seconds)
  unfolding set
  set-Raises key value ttl_seconds = search raises_rules depth 16

  pub invalidate-Raises : (key : Text) → Raises errors (invalidate {sv = sv} key)
  unfolding invalidate
  invalidate-Raises key = search raises_rules depth 16
