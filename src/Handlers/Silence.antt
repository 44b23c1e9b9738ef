-- ===== src/Handlers/Silence.antt =====
-- When the handlers send an event.
use sd_hw.Prelude.{◌≡◌, Text}
use sd_hw.Services.{Services}
use sd_hw.Services.Results.{Exn, json_error, invalid_argument, failure}
use sd_hw.Http.{Request}
use sd_hw.App.{World, App, rabbit_of}
use sd_hw.App.Keeps.{Keeps, Keeps-try, keeps_rules, status_rules, rabbit_rules}
use sd_hw.App.Raises.{raises_rules}
use sd_hw.MongoStorage.{JoinTripResult, joined}
use sd_hw.Handlers.{set_rate_limit_headers, safe_handle, on_exception}
use sd_hw.Handlers.Methods.{method_rules}
use sd_hw.Handlers.Announces.{SentOnSuccess, Announces, safe_handle-Announces, announces_rules}
use sd_hw.Handlers.Users.{
  login, handle_login, create_user, handle_create_user, get_user, handle_get_user, search_users,
  handle_search_users,
}
use sd_hw.Handlers.Routes.{create_route, handle_create_route, get_routes, handle_get_routes}
use sd_hw.Handlers.Trips.{
  create_trip, handle_create_trip, add_user_to_trip, handle_add_user_to_trip, answer_join, get_trip,
  handle_get_trip,
}

ruleset silence_rules = (method_rules, keeps_rules, rabbit_rules)

ruleset command_rules =
    (announces_rules, method_rules, keeps_rules, raises_rules, status_rules, rabbit_rules)

module _ {sv : Services} where
  create_user-Announces : (request : Request) → Announces (create_user {sv = sv} request)
  unfolding create_user
  create_user-Announces request = search command_rules depth 16

  create_route-Announces : (request : Request) → Announces (create_route {sv = sv} request)
  unfolding create_route
  create_route-Announces request = search command_rules depth 16

  create_trip-Announces : (request : Request) → Announces (create_trip {sv = sv} request)
  unfolding create_trip
  create_trip-Announces request = search command_rules depth 16

  answer_join-Announces :
      (trip_id login : Text) (result : JoinTripResult)
      → Announces (answer_join {sv = sv} trip_id login result)
  unfolding answer_join
  answer_join-Announces trip_id login joined = search command_rules depth 16
  answer_join-Announces trip_id login _ = search command_rules depth 16

  add_user_to_trip-Announces : (request : Request) → Announces (add_user_to_trip {sv = sv} request)
  unfolding add_user_to_trip
  add_user_to_trip-Announces request = search (command_rules, answer_join-Announces) depth 16

-- A request that creates a user, a route or a trip, or joins a trip, reaches the broker only if it
-- is answered and the status is the one from before: one that is refused or fails sends no event.
pub commands-SentOnSuccess :
    {sv : Services} (request : Request) (w : World sv)
    → SentOnSuccess w (handle_create_user request w)
      × SentOnSuccess w (handle_create_route request w)
      × SentOnSuccess w (handle_create_trip request w)
      × SentOnSuccess w (handle_add_user_to_trip request w)
unfolding handle_create_user handle_create_route handle_create_trip handle_add_user_to_trip
commands-SentOnSuccess request w = (
  (safe_handle-Announces (create_user request) (create_user-Announces request)).at w,
  (safe_handle-Announces (create_route request) (create_route-Announces request)).at w,
  (safe_handle-Announces (create_trip request) (create_trip-Announces request)).at w,
  (safe_handle-Announces (add_user_to_trip request) (add_user_to_trip-Announces request)).at w,
)

module _ {sv : Services} where
  safe_handle-Keeps_rabbit : (m : App sv Text) → Keeps rabbit_of m → Keeps rabbit_of (safe_handle m)
  unfolding safe_handle
  safe_handle-Keeps_rabbit m km = Keeps-try m on_exception km caught
    where
      caught : (e : Exn) → Keeps (rabbit_of {sv = sv}) (on_exception e)
      caught json_error = search keeps_rules
      caught invalid_argument = search keeps_rules
      caught failure = search keeps_rules

  handle_login-Keeps_rabbit :
      (request : Request) → Keeps (rabbit_of {sv = sv}) (handle_login request)
  unfolding handle_login login set_rate_limit_headers
  handle_login-Keeps_rabbit request = search (silence_rules, safe_handle-Keeps_rabbit) depth 16

  handle_get_user-Keeps_rabbit :
      (request : Request) → Keeps (rabbit_of {sv = sv}) (handle_get_user request)
  unfolding handle_get_user get_user
  handle_get_user-Keeps_rabbit request = search (silence_rules, safe_handle-Keeps_rabbit) depth 16

  handle_search_users-Keeps_rabbit :
      (request : Request) → Keeps (rabbit_of {sv = sv}) (handle_search_users request)
  unfolding handle_search_users search_users
  handle_search_users-Keeps_rabbit request =
      search (silence_rules, safe_handle-Keeps_rabbit) depth 16

  handle_get_routes-Keeps_rabbit :
      (request : Request) → Keeps (rabbit_of {sv = sv}) (handle_get_routes request)
  unfolding handle_get_routes get_routes
  handle_get_routes-Keeps_rabbit request = search (silence_rules, safe_handle-Keeps_rabbit) depth 16

  handle_get_trip-Keeps_rabbit :
      (request : Request) → Keeps (rabbit_of {sv = sv}) (handle_get_trip request)
  unfolding handle_get_trip get_trip
  handle_get_trip-Keeps_rabbit request = search (silence_rules, safe_handle-Keeps_rabbit) depth 16

-- A login and the four queries never reach the broker.
pub queries-keep_rabbit :
    {sv : Services} (request : Request) (w : World sv)
    → ((handle_login request w).1.rabbit ≡ w.rabbit)
      × ((handle_get_user request w).1.rabbit ≡ w.rabbit)
      × ((handle_search_users request w).1.rabbit ≡ w.rabbit)
      × ((handle_get_routes request w).1.rabbit ≡ w.rabbit)
      × ((handle_get_trip request w).1.rabbit ≡ w.rabbit)
queries-keep_rabbit request w = (
  (handle_login-Keeps_rabbit request).at w,
  (handle_get_user-Keeps_rabbit request).at w,
  (handle_search_users-Keeps_rabbit request).at w,
  (handle_get_routes-Keeps_rabbit request).at w,
  (handle_get_trip-Keeps_rabbit request).at w,
)
