-- ===== src/RedisCache.antt =====
-- src/redis_cache.cpp: `RedisCacheComponent`. A failure of Redis is logged and swallowed: `get` reads
-- as a miss, and `set` and `invalidate` do nothing more.
pub mod Keeps
pub mod Steps
use sd_hw.Prelude.{Option, none, Text}
use sd_hw.Prelude.Int.{ℤ}
use sd_hw.Services.{Services, Redis}
use sd_hw.App.{App, pure, try, call_redis}

module _ {sv : Services} where
  unfoldable pub get : Text → App sv (Option Text)
  get key = try (call_redis sv (sv.redis.get key)) (λ e. pure none)

  unfoldable pub set : Text → Text → ℤ → App sv (Unit {0})
  set key value ttl_seconds =
      try (call_redis sv (sv.redis.set key value ttl_seconds)) (λ e. pure tt)

  unfoldable pub invalidate : Text → App sv (Unit {0})
  invalidate key = try (call_redis sv (sv.redis.del key)) (λ e. pure tt)
