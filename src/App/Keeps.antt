-- ===== src/App/Keeps.antt =====
-- The rules for steps that leave a part of the world as it was.
pub mod Steps
pub mod Calls
pub use Steps.{
  Keeps, Keeps-pure, Keeps-throw, Keeps-lift, Keeps-try, Keeps-if, Keeps-bind, Keeps-maybe,
}
pub use Calls.{
  call_pg-Keeps_mongo, call_pg-Keeps_redis, call_pg-Keeps_rabbit, call_pg-Keeps_response,
  call_mongo-Keeps_pg, call_mongo-Keeps_redis, call_mongo-Keeps_rabbit, call_mongo-Keeps_response,
  call_redis-Keeps_pg, call_redis-Keeps_mongo, call_redis-Keeps_rabbit, call_redis-Keeps_response,
  call_rabbit-Keeps_pg, call_rabbit-Keeps_mongo, call_rabbit-Keeps_redis,
  call_rabbit-Keeps_response, call_runtime-Keeps_pg, call_runtime-Keeps_mongo,
  call_runtime-Keeps_redis, call_runtime-Keeps_rabbit, call_runtime-Keeps_response,
  set_status-Keeps_pg, set_status-Keeps_mongo, set_status-Keeps_redis, set_status-Keeps_rabbit,
  set_header-Keeps_pg, set_header-Keeps_mongo, set_header-Keeps_redis, set_header-Keeps_rabbit,
  set_user_login-Keeps_pg, set_user_login-Keeps_mongo, set_user_login-Keeps_redis,
  set_user_login-Keeps_rabbit, PgCallsKeep, MongoCallsKeep, RedisCallsKeep, RabbitCallsKeep,
  RuntimeCallsKeep, set_header-Keeps_status, pg_keeps_status, mongo_keeps_status,
  redis_keeps_status, rabbit_keeps_status, runtime_keeps_status, pg_keeps_rabbit,
  mongo_keeps_rabbit, redis_keeps_rabbit, runtime_keeps_rabbit,
}

pub ruleset status_rules = (
  pg_keeps_status, mongo_keeps_status, redis_keeps_status, rabbit_keeps_status,
  runtime_keeps_status, set_header-Keeps_status,
)

pub ruleset rabbit_rules =
    (pg_keeps_rabbit, mongo_keeps_rabbit, redis_keeps_rabbit, runtime_keeps_rabbit)

pub ruleset keeps_rules = (
  Keeps-pure, Keeps-throw, Keeps-lift, Keeps-try, Keeps-if, Keeps-bind, Keeps-maybe,
  call_pg-Keeps_mongo, call_pg-Keeps_redis, call_pg-Keeps_rabbit, call_pg-Keeps_response,
  call_mongo-Keeps_pg, call_mongo-Keeps_redis, call_mongo-Keeps_rabbit, call_mongo-Keeps_response,
  call_redis-Keeps_pg, call_redis-Keeps_mongo, call_redis-Keeps_rabbit, call_redis-Keeps_response,
  call_rabbit-Keeps_pg, call_rabbit-Keeps_mongo, call_rabbit-Keeps_redis,
  call_rabbit-Keeps_response, call_runtime-Keeps_pg, call_runtime-Keeps_mongo,
  call_runtime-Keeps_redis, call_runtime-Keeps_rabbit, call_runtime-Keeps_response,
  set_status-Keeps_pg, set_status-Keeps_mongo, set_status-Keeps_redis, set_status-Keeps_rabbit,
  set_header-Keeps_pg, set_header-Keeps_mongo, set_header-Keeps_redis, set_header-Keeps_rabbit,
  set_user_login-Keeps_pg, set_user_login-Keeps_mongo, set_user_login-Keeps_redis,
  set_user_login-Keeps_rabbit,
)
