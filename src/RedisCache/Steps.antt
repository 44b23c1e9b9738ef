-- ===== src/RedisCache/Steps.antt =====
-- What a write to the cache does, whatever Redis answers.
use sd_hw.Prelude.{◌≡◌, refl, inl, inr, Text}
use sd_hw.Prelude.Int.{ℤ}
use sd_hw.Services.{Services}
use sd_hw.Services.Results.{ok, Result-cases}
use sd_hw.App.{World}
use sd_hw.RedisCache.{set, invalidate}

module _ {sv : Services} where
  pub invalidate_lem :
      (key : Text) (w : World sv)
      → invalidate key w ≡ (ok tt, record w { redis = (sv.redis.del key w.redis).1 })
  unfolding invalidate
  invalidate_lem key w = elim (Result-cases (sv.redis.del key w.redis).0) [
    | inl (_, e) ↦ rw e refl
    | inr (_, e) ↦ rw e refl
  ]

  pub set_lem :
      (key value : Text) (n : ℤ) (w : World sv)
      → set key value n w ≡ (ok tt, record w { redis = (sv.redis.set key value n w.redis).1 })
  unfolding set
  set_lem key value n w = elim (Result-cases (sv.redis.set key value n w.redis).0) [
    | inl (_, e) ↦ rw e refl
    | inr (_, e) ↦ rw e refl
  ]
