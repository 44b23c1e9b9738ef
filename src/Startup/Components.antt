-- ===== src/Startup/Components.antt =====
-- The components that src/main.cpp appends, with their constructors: src/storage_pg.cpp,
-- src/storage_mongo.cpp, src/redis_cache.cpp, src/rate_limiter.cpp, src/events.cpp,
-- src/handlers/api_handlers.cpp and src/auth_middleware.cpp.
use sd_hw.Prelude.{List, [], ◌∷◌, ◌++◌, String}
use sd_hw.Services.{Services}
use sd_hw.App.{App, pure}
use sd_hw.Events.{declare_event_topology}

pub record Component (sv : Services) : Type 0 where
  -- kName
  pub name : String
  -- what the constructor finds, its base class included
  pub finds : List String
  -- what the constructor does besides
  pub construct : App sv (Unit {0})

abbrev pub postgres_name : String
postgres_name = "postgres-db"

abbrev pub mongo_name : String
mongo_name = "mongo-blabla"

abbrev pub rabbit_name : String
rabbit_name = "rabbitmq-blabla"

abbrev pub redis_name : String
redis_name = "redis-blabla"

abbrev pub postgres_storage : String
postgres_storage = "postgres-storage"

abbrev pub mongo_storage : String
mongo_storage = "mongo-storage"

abbrev pub redis_cache : String
redis_cache = "redis-cache"

abbrev pub rate_limiter : String
rate_limiter = "rate-limiter"

abbrev pub event_publisher : String
event_publisher = "event-publisher"

abbrev pub auth_middleware_name : String
auth_middleware_name = "auth-middleware-factory"

-- The middlewares that the configuration appends to the pipeline of the server. The base class of an
-- HTTP handler finds the factory of each one.
abbrev pub pipeline : List String
pipeline = auth_middleware_name ∷ []

module _ {sv : Services} where
  unfoldable pub storage_pg_component : Component sv
  storage_pg_component = record {
    name = postgres_storage;
    finds = postgres_name ∷ [];
    construct = pure tt;
  }

  unfoldable pub storage_mongo_component : Component sv
  storage_mongo_component = record {
    name = mongo_storage;
    finds = mongo_name ∷ [];
    construct = pure tt;
  }

  unfoldable pub redis_cache_component : Component sv
  redis_cache_component = record {
    name = redis_cache;
    finds = redis_name ∷ [];
    construct = pure tt;
  }

  unfoldable pub rate_limiter_component : Component sv
  rate_limiter_component = record {
    name = rate_limiter;
    finds = redis_name ∷ [];
    construct = pure tt;
  }

  unfoldable pub event_publisher_component : Component sv
  event_publisher_component = record {
    name = event_publisher;
    finds = rabbit_name ∷ [];
    construct = declare_event_topology;
  }

  -- Its base class finds the broker that `rabbit_name` of the configuration names.
  unfoldable pub event_consumer_component : Component sv
  event_consumer_component = record {
    name = "event-consumer";
    finds = rabbit_name ∷ [];
    construct = pure tt;
  }

  unfoldable pub login_user_handler : Component sv
  login_user_handler = record {
    name = "handler-login-user";
    finds = pipeline ++ postgres_storage ∷ mongo_storage ∷ rate_limiter ∷ [];
    construct = pure tt;
  }

  unfoldable pub create_user_handler : Component sv
  create_user_handler = record {
    name = "handler-create-user";
    finds = pipeline ++ postgres_storage ∷ redis_cache ∷ event_publisher ∷ [];
    construct = pure tt;
  }

  unfoldable pub get_user_handler : Component sv
  get_user_handler = record {
    name = "handler-get-user";
    finds = pipeline ++ postgres_storage ∷ redis_cache ∷ [];
    construct = pure tt;
  }

  unfoldable pub search_users_handler : Component sv
  search_users_handler = record {
    name = "handler-search-users";
    finds = pipeline ++ postgres_storage ∷ [];
    construct = pure tt;
  }

  unfoldable pub create_route_handler : Component sv
  create_route_handler = record {
    name = "handler-create-route";
    finds = pipeline ++ postgres_storage ∷ redis_cache ∷ event_publisher ∷ [];
    construct = pure tt;
  }

  unfoldable pub get_routes_handler : Component sv
  get_routes_handler = record {
    name = "handler-get-routes";
    finds = pipeline ++ postgres_storage ∷ redis_cache ∷ [];
    construct = pure tt;
  }

  unfoldable pub create_trip_handler : Component sv
  create_trip_handler = record {
    name = "handler-create-trip";
    finds = pipeline ++ postgres_storage ∷ mongo_storage ∷ event_publisher ∷ [];
    construct = pure tt;
  }

  unfoldable pub add_user_to_trip_handler : Component sv
  add_user_to_trip_handler = record {
    name = "handler-add-user-to-trip";
    finds = pipeline ++ mongo_storage ∷ event_publisher ∷ [];
    construct = pure tt;
  }

  unfoldable pub get_trip_handler : Component sv
  get_trip_handler = record {
    name = "handler-get-trip";
    finds = pipeline ++ mongo_storage ∷ [];
    construct = pure tt;
  }

  unfoldable pub auth_middleware_factory : Component sv
  auth_middleware_factory = record {
    name = auth_middleware_name;
    finds = mongo_storage ∷ [];
    construct = pure tt;
  }

  unfoldable pub event_components : List (Component sv)
  event_components = event_publisher_component ∷ event_consumer_component ∷ []

  unfoldable pub api_handlers : List (Component sv)
  api_handlers =
      create_user_handler ∷ get_user_handler ∷ login_user_handler ∷ search_users_handler
      ∷ create_route_handler ∷ get_routes_handler ∷ create_trip_handler ∷ add_user_to_trip_handler
      ∷ get_trip_handler ∷ []

  -- What `main` appends to the framework's components.
  unfoldable pub component_list : List (Component sv)
  component_list =
      storage_pg_component ∷ storage_mongo_component ∷ redis_cache_component
        ∷ rate_limiter_component ∷ event_components
      ++ api_handlers
      ++ auth_middleware_factory ∷ []
