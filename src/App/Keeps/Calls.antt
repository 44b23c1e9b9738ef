-- ===== src/App/Keeps/Calls.antt =====
-- What a call of one service, and a change of the response, keep.
use sd_hw.Prelude.{ℕ, Text, String, refl}
use sd_hw.Services.{Services}
use sd_hw.Services.Results.{Result}
use sd_hw.App.{
  World, call_pg, call_mongo, call_redis, call_rabbit, call_runtime, set_status, set_header,
  set_user_login, pg_of, mongo_of, redis_of, rabbit_of, status_of, response_of,
}
use sd_hw.App.Keeps.Steps.{Keeps}

-- A call of one service keeps the others and the response.
module _ {sv : Services} {A : Type 0} where
  pub call_pg-Keeps_mongo :
      (f : sv.pg.State → Result A × sv.pg.State) → Keeps mongo_of (call_pg sv f)
  call_pg-Keeps_mongo f = record { at = λ w. refl }

  pub call_pg-Keeps_redis :
      (f : sv.pg.State → Result A × sv.pg.State) → Keeps redis_of (call_pg sv f)
  call_pg-Keeps_redis f = record { at = λ w. refl }

  pub call_pg-Keeps_rabbit :
      (f : sv.pg.State → Result A × sv.pg.State) → Keeps rabbit_of (call_pg sv f)
  call_pg-Keeps_rabbit f = record { at = λ w. refl }

  pub call_pg-Keeps_response :
      (f : sv.pg.State → Result A × sv.pg.State) → Keeps response_of (call_pg sv f)
  call_pg-Keeps_response f = record { at = λ w. refl }

module _ {sv : Services} {A : Type 0} where
  pub call_mongo-Keeps_pg :
      (f : sv.mongo.State → Result A × sv.mongo.State) → Keeps pg_of (call_mongo sv f)
  call_mongo-Keeps_pg f = record { at = λ w. refl }

  pub call_mongo-Keeps_redis :
      (f : sv.mongo.State → Result A × sv.mongo.State) → Keeps redis_of (call_mongo sv f)
  call_mongo-Keeps_redis f = record { at = λ w. refl }

  pub call_mongo-Keeps_rabbit :
      (f : sv.mongo.State → Result A × sv.mongo.State) → Keeps rabbit_of (call_mongo sv f)
  call_mongo-Keeps_rabbit f = record { at = λ w. refl }

  pub call_mongo-Keeps_response :
      (f : sv.mongo.State → Result A × sv.mongo.State) → Keeps response_of (call_mongo sv f)
  call_mongo-Keeps_response f = record { at = λ w. refl }

module _ {sv : Services} {A : Type 0} where
  pub call_redis-Keeps_pg :
      (f : sv.redis.State → Result A × sv.redis.State) → Keeps pg_of (call_redis sv f)
  call_redis-Keeps_pg f = record { at = λ w. refl }

  pub call_redis-Keeps_mongo :
      (f : sv.redis.State → Result A × sv.redis.State) → Keeps mongo_of (call_redis sv f)
  call_redis-Keeps_mongo f = record { at = λ w. refl }

  pub call_redis-Keeps_rabbit :
      (f : sv.redis.State → Result A × sv.redis.State) → Keeps rabbit_of (call_redis sv f)
  call_redis-Keeps_rabbit f = record { at = λ w. refl }

  pub call_redis-Keeps_response :
      (f : sv.redis.State → Result A × sv.redis.State) → Keeps response_of (call_redis sv f)
  call_redis-Keeps_response f = record { at = λ w. refl }

module _ {sv : Services} {A : Type 0} where
  pub call_rabbit-Keeps_pg :
      (f : sv.rabbit.State → Result A × sv.rabbit.State) → Keeps pg_of (call_rabbit sv f)
  call_rabbit-Keeps_pg f = record { at = λ w. refl }

  pub call_rabbit-Keeps_mongo :
      (f : sv.rabbit.State → Result A × sv.rabbit.State) → Keeps mongo_of (call_rabbit sv f)
  call_rabbit-Keeps_mongo f = record { at = λ w. refl }

  pub call_rabbit-Keeps_redis :
      (f : sv.rabbit.State → Result A × sv.rabbit.State) → Keeps redis_of (call_rabbit sv f)
  call_rabbit-Keeps_redis f = record { at = λ w. refl }

  pub call_rabbit-Keeps_response :
      (f : sv.rabbit.State → Result A × sv.rabbit.State) → Keeps response_of (call_rabbit sv f)
  call_rabbit-Keeps_response f = record { at = λ w. refl }

module _ {sv : Services} {A : Type 0} where
  pub call_runtime-Keeps_pg :
      (f : sv.runtime.State → A × sv.runtime.State) → Keeps pg_of (call_runtime sv f)
  call_runtime-Keeps_pg f = record { at = λ w. refl }

  pub call_runtime-Keeps_mongo :
      (f : sv.runtime.State → A × sv.runtime.State) → Keeps mongo_of (call_runtime sv f)
  call_runtime-Keeps_mongo f = record { at = λ w. refl }

  pub call_runtime-Keeps_redis :
      (f : sv.runtime.State → A × sv.runtime.State) → Keeps redis_of (call_runtime sv f)
  call_runtime-Keeps_redis f = record { at = λ w. refl }

  pub call_runtime-Keeps_rabbit :
      (f : sv.runtime.State → A × sv.runtime.State) → Keeps rabbit_of (call_runtime sv f)
  call_runtime-Keeps_rabbit f = record { at = λ w. refl }

  pub call_runtime-Keeps_response :
      (f : sv.runtime.State → A × sv.runtime.State) → Keeps response_of (call_runtime sv f)
  call_runtime-Keeps_response f = record { at = λ w. refl }

module _ {sv : Services} where
  pub set_status-Keeps_pg : (status : ℕ) → Keeps (pg_of {sv = sv}) (set_status status)
  set_status-Keeps_pg status = record { at = λ w. refl }

  pub set_status-Keeps_mongo : (status : ℕ) → Keeps (mongo_of {sv = sv}) (set_status status)
  set_status-Keeps_mongo status = record { at = λ w. refl }

  pub set_status-Keeps_redis : (status : ℕ) → Keeps (redis_of {sv = sv}) (set_status status)
  set_status-Keeps_redis status = record { at = λ w. refl }

  pub set_status-Keeps_rabbit : (status : ℕ) → Keeps (rabbit_of {sv = sv}) (set_status status)
  set_status-Keeps_rabbit status = record { at = λ w. refl }

  pub set_header-Keeps_pg :
      (name : String) (value : Text) → Keeps (pg_of {sv = sv}) (set_header name value)
  set_header-Keeps_pg name value = record { at = λ w. refl }

  pub set_header-Keeps_mongo :
      (name : String) (value : Text) → Keeps (mongo_of {sv = sv}) (set_header name value)
  set_header-Keeps_mongo name value = record { at = λ w. refl }

  pub set_header-Keeps_redis :
      (name : String) (value : Text) → Keeps (redis_of {sv = sv}) (set_header name value)
  set_header-Keeps_redis name value = record { at = λ w. refl }

  pub set_header-Keeps_rabbit :
      (name : String) (value : Text) → Keeps (rabbit_of {sv = sv}) (set_header name value)
  set_header-Keeps_rabbit name value = record { at = λ w. refl }

  pub set_user_login-Keeps_pg : (login : Text) → Keeps (pg_of {sv = sv}) (set_user_login login)
  set_user_login-Keeps_pg login = record { at = λ w. refl }

  pub set_user_login-Keeps_mongo :
      (login : Text) → Keeps (mongo_of {sv = sv}) (set_user_login login)
  set_user_login-Keeps_mongo login = record { at = λ w. refl }

  pub set_user_login-Keeps_redis :
      (login : Text) → Keeps (redis_of {sv = sv}) (set_user_login login)
  set_user_login-Keeps_redis login = record { at = λ w. refl }

  pub set_user_login-Keeps_rabbit :
      (login : Text) → Keeps (rabbit_of {sv = sv}) (set_user_login login)
  set_user_login-Keeps_rabbit login = record { at = λ w. refl }

-- Every call of one service keeps a part of the world.
module _ {sv : Services} {X : Type 0} (part : World sv → X) where
  abbrev pub PgCallsKeep : Type 1
  PgCallsKeep = (A : Type 0) (f : sv.pg.State → Result A × sv.pg.State) → Keeps part (call_pg sv f)

  abbrev pub MongoCallsKeep : Type 1
  MongoCallsKeep =
      (A : Type 0) (f : sv.mongo.State → Result A × sv.mongo.State) → Keeps part (call_mongo sv f)

  abbrev pub RedisCallsKeep : Type 1
  RedisCallsKeep =
      (A : Type 0) (f : sv.redis.State → Result A × sv.redis.State) → Keeps part (call_redis sv f)

  abbrev pub RabbitCallsKeep : Type 1
  RabbitCallsKeep =
      (A : Type 0) (f : sv.rabbit.State → Result A × sv.rabbit.State)
      → Keeps part (call_rabbit sv f)

  abbrev pub RuntimeCallsKeep : Type 1
  RuntimeCallsKeep =
      (A : Type 0) (f : sv.runtime.State → A × sv.runtime.State) → Keeps part (call_runtime sv f)

module _ {sv : Services} where
  pub set_header-Keeps_status :
      (name : String) (value : Text) → Keeps (status_of {sv = sv}) (set_header name value)
  set_header-Keeps_status name value = record { at = λ w. refl }

  -- The calls of every service keep the status; those of every other service keep the broker.
  pub pg_keeps_status : PgCallsKeep (status_of {sv = sv})
  pg_keeps_status A f = record { at = λ w. refl }

  pub mongo_keeps_status : MongoCallsKeep (status_of {sv = sv})
  mongo_keeps_status A f = record { at = λ w. refl }

  pub redis_keeps_status : RedisCallsKeep (status_of {sv = sv})
  redis_keeps_status A f = record { at = λ w. refl }

  pub rabbit_keeps_status : RabbitCallsKeep (status_of {sv = sv})
  rabbit_keeps_status A f = record { at = λ w. refl }

  pub runtime_keeps_status : RuntimeCallsKeep (status_of {sv = sv})
  runtime_keeps_status A f = record { at = λ w. refl }

  pub pg_keeps_rabbit : PgCallsKeep (rabbit_of {sv = sv})
  pg_keeps_rabbit A f = record { at = λ w. refl }

  pub mongo_keeps_rabbit : MongoCallsKeep (rabbit_of {sv = sv})
  mongo_keeps_rabbit A f = record { at = λ w. refl }

  pub redis_keeps_rabbit : RedisCallsKeep (rabbit_of {sv = sv})
  redis_keeps_rabbit A f = record { at = λ w. refl }

  pub runtime_keeps_rabbit : RuntimeCallsKeep (rabbit_of {sv = sv})
  runtime_keeps_rabbit A f = record { at = λ w. refl }
