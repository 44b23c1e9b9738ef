-- ===== src/PgStorage/Keeps.antt =====
-- What the methods of `StoragePgComponent` touch and throw.
use sd_hw.Prelude.{Text, List}
use sd_hw.Models.{User, Route, Trip}
use sd_hw.Services.{Services}
use sd_hw.Services.Results.{Exn}
use sd_hw.App.{World}
use sd_hw.App.Keeps.{Keeps, PgCallsKeep, keeps_rules}
use sd_hw.App.Raises.{Raises, raises_rules}
use sd_hw.PgStorage.{
  add_user, login_user, get_user_by_login, search_users_by_name, add_route, get_routes_by_user,
  get_route_by_id, add_trip, add_user_to_trip, get_trip,
}

module _ {sv : Services} {X : Type 0} {part : World sv → X} (calls : PgCallsKeep part) where
  pub add_user-Keeps : (user : User) → Keeps part (add_user user)
  unfolding add_user
  add_user-Keeps user = search (keeps_rules, calls) depth 16

  pub login_user-Keeps : (login password : Text) → Keeps part (login_user login password)
  unfolding login_user
  login_user-Keeps login password = search (keeps_rules, calls) depth 16

  pub get_user_by_login-Keeps : (login : Text) → Keeps part (get_user_by_login login)
  unfolding get_user_by_login
  get_user_by_login-Keeps login = search (keeps_rules, calls) depth 16

  pub search_users_by_name-Keeps : (mask : Text) → Keeps part (search_users_by_name mask)
  unfolding search_users_by_name
  search_users_by_name-Keeps mask = search (keeps_rules, calls) depth 16

  pub add_route-Keeps : (route : Route) → Keeps part (add_route route)
  unfolding add_route
  add_route-Keeps route = search (keeps_rules, calls) depth 16

  pub get_routes_by_user-Keeps : (login : Text) → Keeps part (get_routes_by_user login)
  unfolding get_routes_by_user
  get_routes_by_user-Keeps login = search (keeps_rules, calls) depth 16

  pub get_route_by_id-Keeps : (route_id : Text) → Keeps part (get_route_by_id route_id)
  unfolding get_route_by_id
  get_route_by_id-Keeps route_id = search (keeps_rules, calls) depth 16

  pub add_trip-Keeps : (trip : Trip) → Keeps part (add_trip trip)
  unfolding add_trip
  add_trip-Keeps trip = search (keeps_rules, calls) depth 16

  pub add_user_to_trip-Keeps : (trip_id login : Text) → Keeps part (add_user_to_trip trip_id login)
  unfolding add_user_to_trip
  add_user_to_trip-Keeps trip_id login = search (keeps_rules, calls) depth 16

  pub get_trip-Keeps : (trip_id : Text) → Keeps part (get_trip trip_id)
  unfolding get_trip
  get_trip-Keeps trip_id = search (keeps_rules, calls) depth 16

module _ {sv : Services} {errors : List Exn} where
  pub add_user-Raises : (user : User) → Raises errors (add_user {sv = sv} user)
  unfolding add_user
  add_user-Raises user = search raises_rules depth 16

  pub login_user-Raises :
      (login password : Text) → Raises errors (login_user {sv = sv} login password)
  unfolding login_user
  login_user-Raises login password = search raises_rules depth 16

  pub get_user_by_login-Raises : (login : Text) → Raises errors (get_user_by_login {sv = sv} login)
  unfolding get_user_by_login
  get_user_by_login-Raises login = search raises_rules depth 16

  pub search_users_by_name-Raises :
      (mask : Text) → Raises errors (search_users_by_name {sv = sv} mask)
  unfolding search_users_by_name
  search_users_by_name-Raises mask = search raises_rules depth 16

  pub add_route-Raises : (route : Route) → Raises errors (add_route {sv = sv} route)
  unfolding add_route
  add_route-Raises route = search raises_rules depth 16

  pub get_routes_by_user-Raises :
      (login : Text) → Raises errors (get_routes_by_user {sv = sv} login)
  unfolding get_routes_by_user
  get_routes_by_user-Raises login = search raises_rules depth 16

  pub get_route_by_id-Raises :
      (route_id : Text) → Raises errors (get_route_by_id {sv = sv} route_id)
  unfolding get_route_by_id
  get_route_by_id-Raises route_id = search raises_rules depth 16

  pub add_trip-Raises : (trip : Trip) → Raises errors (add_trip {sv = sv} trip)
  unfolding add_trip
  add_trip-Raises trip = search raises_rules depth 16

  pub add_user_to_trip-Raises :
      (trip_id login : Text) → Raises errors (add_user_to_trip {sv = sv} trip_id login)
  unfolding add_user_to_trip
  add_user_to_trip-Raises trip_id login = search raises_rules depth 16

  pub get_trip-Raises : (trip_id : Text) → Raises errors (get_trip {sv = sv} trip_id)
  unfolding get_trip
  get_trip-Raises trip_id = search raises_rules depth 16
