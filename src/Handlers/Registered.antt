-- ===== src/Handlers/Registered.antt =====
-- src/handlers/api_handlers.cpp, AppendApiHandlers: the handlers of the service.
use sd_hw.Prelude.{Text}
use sd_hw.Services.{Services}
use sd_hw.Http.{Request}
use sd_hw.App.{App}
use sd_hw.Handlers.Users.{handle_login, handle_create_user, handle_get_user, handle_search_users}
use sd_hw.Handlers.Routes.{handle_create_route, handle_get_routes}
use sd_hw.Handlers.Trips.{handle_create_trip, handle_add_user_to_trip, handle_get_trip}

-- The components that are appended.
pub data Endpoint : Type 0 where
  login_user create_user get_user search_users create_route get_routes create_trip add_user_to_trip
        get_trip :
      Endpoint

module _ {sv : Services} where
  unfoldable pub handle : Endpoint → Request → App sv Text
  handle login_user = handle_login
  handle create_user = handle_create_user
  handle get_user = handle_get_user
  handle search_users = handle_search_users
  handle create_route = handle_create_route
  handle get_routes = handle_get_routes
  handle create_trip = handle_create_trip
  handle add_user_to_trip = handle_add_user_to_trip
  handle get_trip = handle_get_trip
