-- ===== src/Handlers/Histories/Requests.antt =====
-- The methods and the handlers that keep every invariant of the kind of Histories.
use sd_hw.Prelude.{ℕ, Text}
use sd_hw.Prelude.Int.{ℤ}
use sd_hw.Models.{User, Route}
use sd_hw.Services.{Services}
use sd_hw.Services.Results.{Exn, json_error, invalid_argument, failure}
use sd_hw.Http.{Request}
use sd_hw.App.{World, App}
use sd_hw.App.Preserves.{Preserves, Preserves-try, preserves_rules}
use sd_hw.App.Keeps.{keeps_rules}
use sd_hw.PgStorage.{
  add_user, login_user, get_user_by_login, search_users_by_name, get_routes_by_user,
  get_route_by_id,
}
use sd_hw.MongoStorage.{
  JoinTripResult, joined, insert_auth_token, create_trip as insert_trip, get_trip_by_id, join_trip,
}
use sd_hw.RedisCache.{get, invalidate}
use sd_hw.RateLimiter.{check}
use sd_hw.Events.{
  publish_user_created, publish_route_created, publish_trip_created,
  publish_trip_participant_joined,
}
use sd_hw.Handlers.{safe_handle, on_exception, set_rate_limit_headers}
use sd_hw.Handlers.Methods.{method_rules}
use sd_hw.Handlers.Users.{
  login, handle_login, create_user, handle_create_user, search_users, handle_search_users,
}
use sd_hw.Handlers.Trips.{
  create_trip, handle_create_trip, add_user_to_trip, handle_add_user_to_trip, answer_join, get_trip,
  handle_get_trip,
}
use sd_hw.Handlers.Histories.{
  Frame, Preserves-elsewhere, Preserves-set_status, Preserves-set_header, Preserves-runtime,
  to_insert_user, to_select_credentials, to_select_user, to_select_users_like,
  to_select_routes_by_owner, to_select_route,
}

ruleset frame_rules = (method_rules, keeps_rules)

pub ruleset step_rules =
    (preserves_rules, Preserves-set_status, Preserves-set_header, Preserves-runtime)

module _ {sv : Services} {I : World sv → Type 0} (f : Frame I) where
  pub add_user-Preserves : (user : User) → Preserves I (add_user user)
  unfolding add_user
  add_user-Preserves user = search (preserves_rules, f.executes, to_insert_user) depth 16

  pub login_user-Preserves : (name password : Text) → Preserves I (login_user name password)
  unfolding login_user
  login_user-Preserves name password =
      search (preserves_rules, f.executes, to_select_credentials) depth 16

  pub get_user_by_login-Preserves : (name : Text) → Preserves I (get_user_by_login name)
  unfolding get_user_by_login
  get_user_by_login-Preserves name = search (preserves_rules, f.executes, to_select_user) depth 16

  pub search_users_by_name-Preserves : (mask : Text) → Preserves I (search_users_by_name mask)
  unfolding search_users_by_name
  search_users_by_name-Preserves mask =
      search (preserves_rules, f.executes, to_select_users_like) depth 16

  pub get_routes_by_user-Preserves : (name : Text) → Preserves I (get_routes_by_user name)
  unfolding get_routes_by_user
  get_routes_by_user-Preserves name =
      search (preserves_rules, f.executes, to_select_routes_by_owner) depth 16

  pub get_route_by_id-Preserves : (id : Text) → Preserves I (get_route_by_id id)
  unfolding get_route_by_id
  get_route_by_id-Preserves id = search (preserves_rules, f.executes, to_select_route) depth 16

  pub get-Preserves : (key : Text) → Preserves I (get key)
  unfolding get
  get-Preserves key = search (preserves_rules, f.gets) depth 16

  pub invalidate-Preserves : (key : Text) → Preserves I (invalidate key)
  unfolding invalidate
  invalidate-Preserves key = search (preserves_rules, f.deletes) depth 16

  pub check-Preserves : (client : Text) (limit window : ℤ) → Preserves I (check client limit window)
  unfolding check
  check-Preserves client limit window = search (preserves_rules, f.evaluates) depth 16

  pub insert_auth_token-Preserves : (token name : Text) → Preserves I (insert_auth_token token name)
  insert_auth_token-Preserves token name =
      Preserves-elsewhere f _ (search frame_rules depth 8) (search frame_rules depth 8)

  pub insert_trip-Preserves :
      (route : Route) (distance_km departure_time : ℕ)
      → Preserves I (insert_trip route distance_km departure_time)
  insert_trip-Preserves route distance_km departure_time =
      Preserves-elsewhere f _ (search frame_rules depth 8) (search frame_rules depth 8)

  pub get_trip_by_id-Preserves : (id : Text) → Preserves I (get_trip_by_id id)
  get_trip_by_id-Preserves id =
      Preserves-elsewhere f _ (search frame_rules depth 8) (search frame_rules depth 8)

  pub join_trip-Preserves : (id name : Text) → Preserves I (join_trip id name)
  join_trip-Preserves id name =
      Preserves-elsewhere f _ (search frame_rules depth 8) (search frame_rules depth 8)

  pub publish_user_created-Preserves : (user : User) → Preserves I (publish_user_created user)
  publish_user_created-Preserves user =
      Preserves-elsewhere f _ (search frame_rules depth 8) (search frame_rules depth 8)

  pub publish_route_created-Preserves : (route : Route) → Preserves I (publish_route_created route)
  publish_route_created-Preserves route =
      Preserves-elsewhere f _ (search frame_rules depth 8) (search frame_rules depth 8)

  pub publish_trip_created-Preserves :
      (id : Text) (route : Route) → Preserves I (publish_trip_created id route)
  publish_trip_created-Preserves id route =
      Preserves-elsewhere f _ (search frame_rules depth 8) (search frame_rules depth 8)

  pub publish_trip_participant_joined-Preserves :
      (id name : Text) → Preserves I (publish_trip_participant_joined id name)
  publish_trip_participant_joined-Preserves id name =
      Preserves-elsewhere f _ (search frame_rules depth 8) (search frame_rules depth 8)

pub ruleset steps = (
  step_rules, add_user-Preserves, login_user-Preserves, get_user_by_login-Preserves,
  search_users_by_name-Preserves, get_routes_by_user-Preserves, get_route_by_id-Preserves,
  get-Preserves, invalidate-Preserves, check-Preserves, insert_auth_token-Preserves,
  insert_trip-Preserves, get_trip_by_id-Preserves, join_trip-Preserves,
  publish_user_created-Preserves, publish_route_created-Preserves, publish_trip_created-Preserves,
  publish_trip_participant_joined-Preserves,
)

module _ {sv : Services} {I : World sv → Type 0} (f : Frame I) where
  pub safe_handle-Preserves : (m : App sv Text) → Preserves I m → Preserves I (safe_handle m)
  unfolding safe_handle
  safe_handle-Preserves m pm = Preserves-try m on_exception pm caught
    where
      caught : (e : Exn) → Preserves I (on_exception e)
      caught json_error = search step_rules
      caught invalid_argument = search step_rules
      caught failure = search step_rules

  answer_join-Preserves :
      (id name : Text) (result : JoinTripResult) → Preserves I (answer_join id name result)
  unfolding answer_join
  answer_join-Preserves id name joined = search steps depth 8
  answer_join-Preserves id name _ = search steps depth 8

  pub handle_login-Preserves : (request : Request) → Preserves I (handle_login request)
  unfolding handle_login login set_rate_limit_headers
  handle_login-Preserves request = search (steps, safe_handle-Preserves) depth 16

  pub handle_create_user-Preserves : (request : Request) → Preserves I (handle_create_user request)
  unfolding handle_create_user create_user
  handle_create_user-Preserves request = search (steps, safe_handle-Preserves) depth 16

  pub handle_search_users-Preserves :
      (request : Request) → Preserves I (handle_search_users request)
  unfolding handle_search_users search_users
  handle_search_users-Preserves request = search (steps, safe_handle-Preserves) depth 16

  pub handle_create_trip-Preserves : (request : Request) → Preserves I (handle_create_trip request)
  unfolding handle_create_trip create_trip
  handle_create_trip-Preserves request = search (steps, safe_handle-Preserves) depth 16

  pub handle_add_user_to_trip-Preserves :
      (request : Request) → Preserves I (handle_add_user_to_trip request)
  unfolding handle_add_user_to_trip add_user_to_trip
  handle_add_user_to_trip-Preserves request =
      search (steps, safe_handle-Preserves, answer_join-Preserves) depth 16

  pub handle_get_trip-Preserves : (request : Request) → Preserves I (handle_get_trip request)
  unfolding handle_get_trip get_trip
  handle_get_trip-Preserves request = search (steps, safe_handle-Preserves) depth 16
