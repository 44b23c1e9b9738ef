-- ===== src/Handlers/Methods.antt =====
-- What the handlers need to know of the methods that they call, as one set of rules.
use sd_hw.PgStorage.Keeps as Pg
use sd_hw.MongoStorage.Keeps as Mongo
use sd_hw.RedisCache.Keeps as Cache
use sd_hw.RateLimiter.Keeps as Limiter
use sd_hw.Events.Keeps as Publisher

pub ruleset method_rules = (
  Pg.add_user-Keeps, Pg.add_user-Raises, Pg.login_user-Keeps, Pg.login_user-Raises,
  Pg.get_user_by_login-Keeps, Pg.get_user_by_login-Raises, Pg.search_users_by_name-Keeps,
  Pg.search_users_by_name-Raises, Pg.add_route-Keeps, Pg.add_route-Raises,
  Pg.get_routes_by_user-Keeps, Pg.get_routes_by_user-Raises, Pg.get_route_by_id-Keeps,
  Pg.get_route_by_id-Raises, Mongo.insert_auth_token-Keeps, Mongo.insert_auth_token-Raises,
  Mongo.create_trip-Keeps, Mongo.create_trip-Raises, Mongo.get_trip_by_id-Keeps,
  Mongo.get_trip_by_id-Raises, Mongo.join_trip-Keeps, Mongo.join_trip-Raises, Cache.get-Keeps,
  Cache.get-Raises, Cache.set-Keeps, Cache.set-Raises, Cache.invalidate-Keeps,
  Cache.invalidate-Raises, Limiter.check-Keeps, Limiter.check-Raises,
  Publisher.publish_user_created-Keeps, Publisher.publish_user_created-Raises,
  Publisher.publish_route_created-Keeps, Publisher.publish_route_created-Raises,
  Publisher.publish_trip_created-Keeps, Publisher.publish_trip_created-Raises,
  Publisher.publish_trip_participant_joined-Keeps, Publisher.publish_trip_participant_joined-Raises,
)
