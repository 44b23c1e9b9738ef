-- ===== src/Handlers/Histories.antt =====
-- Invariants of PostgreSQL and Redis, such as what the cache holds, over the requests that a server
-- handles: what an invariant must allow so that the handlers keep it.
pub mod Requests
pub mod Serving
use sd_hw.Prelude.{ℕ, ◌≡◌, refl, Text, String}
use sd_hw.Prelude.Int.{ℤ}
use sd_hw.Models.{User, Route}
use sd_hw.Services.{Services, Query}
use sd_hw.App.{
  World, App, call_pg, call_redis, call_runtime, set_status, set_header, pg_of, redis_of,
}
use sd_hw.App.Keeps.{Keeps}
use sd_hw.App.Preserves.{Preserves}
use sd_hw.PgStorage.Queries.{
  insert_user, select_credentials, select_user, select_users_like, select_routes_by_owner,
  select_route,
}
use sd_hw.RateLimiter.{rate_limit_script, rate_limit_key}

-- The statements that the handlers send, but for the INSERT of a route.
pub data Statement : Query → Type 0 where
  to_insert_user : (user : User) → Statement (insert_user user)
  to_select_credentials : (login password : Text) → Statement (select_credentials login password)
  to_select_user : (login : Text) → Statement (select_user login)
  to_select_users_like : (mask : Text) → Statement (select_users_like mask)
  to_select_routes_by_owner : (login : Text) → Statement (select_routes_by_owner login)
  to_select_route : (route_id : Text) → Statement (select_route route_id)

module _ {sv : Services} where
  pub record Frame (I : World sv → Type 0) : Type 0 where
    -- It is about PostgreSQL and Redis alone.
    pub transports : (w v : World sv) → v.pg ≡ w.pg → v.redis ≡ w.redis → I w → I v
    pub executes : (q : Query) → Statement q → Preserves I (call_pg sv (sv.pg.execute q))
    pub gets : (k : Text) → Preserves I (call_redis sv (sv.redis.get k))
    pub deletes : (k : Text) → Preserves I (call_redis sv (sv.redis.del k))
    pub evaluates :
        (client : Text) (limit window : ℤ)
        → Preserves I (
            call_redis sv
              (sv.redis.eval (rate_limit_script sv.redis (rate_limit_key client) limit window)))

module _ {sv : Services} {I : World sv → Type 0} (f : Frame I) where
  -- A step that touches neither PostgreSQL nor Redis.
  pub Preserves-elsewhere :
      {A : Type 0} (m : App sv A) → Keeps pg_of m → Keeps redis_of m → Preserves I m
  Preserves-elsewhere m kp kr = record { at = λ w h. f.transports w _ (kp.at w) (kr.at w) h }

  pub Preserves-set_status : (n : ℕ) → Preserves I (set_status n)
  Preserves-set_status n = record { at = λ w h. f.transports w _ refl refl h }

  pub Preserves-set_header : (name : String) (value : Text) → Preserves I (set_header name value)
  Preserves-set_header name value = record { at = λ w h. f.transports w _ refl refl h }

  pub Preserves-runtime :
      {A : Type 0} (g : sv.runtime.State → A × sv.runtime.State) → Preserves I (call_runtime sv g)
  Preserves-runtime g = record { at = λ w h. f.transports w _ refl refl h }
