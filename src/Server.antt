-- ===== src/Server.antt =====
-- The service behind its socket: configs/static_config.yaml gives each handler a path, a method and,
-- for two of them, the middleware of src/auth_middleware.cpp; src/main.cpp runs it.
pub mod Routing
pub mod Guarded
use sd_hw.Prelude.{Bool, Option, none, some, List, [], ◌∷◌, Text, String}
use sd_hw.Services.{Services}
use sd_hw.Http.{Request}
use sd_hw.App.{World, App}
use sd_hw.AuthMiddleware.{create, handle_request}
use sd_hw.Handlers.Registered.{
  Endpoint, login_user, create_user, get_user, search_users, create_route, get_routes, create_trip,
  add_user_to_trip, get_trip, handle,
}

pub data Method : Type 0 where
  get_method post_method : Method

-- `method` of a handler in the configuration
unfoldable pub method_of : Endpoint → Method
method_of login_user = post_method
method_of create_user = post_method
method_of get_user = get_method
method_of search_users = get_method
method_of create_route = post_method
method_of get_routes = get_method
method_of create_trip = post_method
method_of add_user_to_trip = post_method
method_of get_trip = get_method

-- `path` of a handler in the configuration
unfoldable pub path_of : Endpoint → String
path_of login_user = "/v1/login"
path_of create_user = "/v1/users"
path_of get_user = "/v1/users"
path_of search_users = "/v1/users/search"
path_of create_route = "/v1/routes"
path_of get_routes = "/v1/routes"
path_of create_trip = "/v1/trips"
path_of add_user_to_trip = "/v1/trips/add-user"
path_of get_trip = "/v1/trips"

-- `middlewares: auth-middleware-factory: {}`, the empty mapping, or nothing
unfoldable pub middleware_config : Endpoint → Option (Unit {0})
middleware_config create_route = some tt
middleware_config create_trip = some tt
middleware_config _ = none

-- The middleware that the factory makes for the handler.
unfoldable pub enabled : Endpoint → Bool
unfolding middleware_config create
enabled endpoint = create (middleware_config endpoint)

module _ {sv : Services} where
  -- The pipeline of a handler: its middleware, and then the handler itself.
  unfoldable pub serve_endpoint : Endpoint → Request → App sv Text
  unfolding enabled
  serve_endpoint endpoint = handle_request (enabled endpoint) (handle endpoint)

  -- The server gives each request a response of its own.
  abbrev pub new_response : World sv → World sv
  new_response w = record w { response = record { status = 200; headers = []; user_login = none } }

  -- The world after requests, of which each is handled when the one before is answered.
  unfoldable pub serve : List (Endpoint × Request) → World sv → World sv
  serve [] w = w
  serve ((endpoint, request) ∷ requests) w =
      serve requests (serve_endpoint endpoint request (new_response w)).1
