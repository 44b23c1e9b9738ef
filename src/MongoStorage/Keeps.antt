-- ===== src/MongoStorage/Keeps.antt =====
-- What the methods of `StorageMongoComponent` touch and throw.
use sd_hw.Prelude.{ℕ, Text, List}
use sd_hw.Models.{Route}
use sd_hw.Services.{Services}
use sd_hw.Services.Results.{Exn, invalid_argument, failure}
use sd_hw.App.{World}
use sd_hw.App.Keeps.{Keeps, MongoCallsKeep, RuntimeCallsKeep, keeps_rules}
use sd_hw.App.Raises.{Listed, Raises, raises_rules}
use sd_hw.MongoStorage.{
  insert_auth_token, get_login_by_token, create_trip, get_trip_by_id, join_trip, trip_error,
  join_error,
}

module _ {sv : Services} {X : Type 0} {part : World sv → X} (calls : MongoCallsKeep part)
    (runtime_calls : RuntimeCallsKeep part) where
  trip_error-Keeps : (e : Exn) → Keeps part (trip_error {sv = sv} e)
  trip_error-Keeps invalid_argument = search keeps_rules
  trip_error-Keeps _ = search keeps_rules

  join_error-Keeps : (e : Exn) → Keeps part (join_error {sv = sv} e)
  join_error-Keeps invalid_argument = search keeps_rules
  join_error-Keeps _ = search keeps_rules

  pub insert_auth_token-Keeps : (token login : Text) → Keeps part (insert_auth_token token login)
  unfolding insert_auth_token
  insert_auth_token-Keeps token login = search (keeps_rules, calls, runtime_calls) depth 16

  pub get_login_by_token-Keeps : (token : Text) → Keeps part (get_login_by_token token)
  unfolding get_login_by_token
  get_login_by_token-Keeps token = search (keeps_rules, calls, runtime_calls) depth 16

  pub create_trip-Keeps :
      (route : Route) (distance_km departure_time : ℕ)
      → Keeps part (create_trip route distance_km departure_time)
  unfolding create_trip
  create_trip-Keeps route distance_km departure_time =
      search (keeps_rules, calls, runtime_calls) depth 16

  pub get_trip_by_id-Keeps : (trip_id : Text) → Keeps part (get_trip_by_id trip_id)
  unfolding get_trip_by_id
  get_trip_by_id-Keeps trip_id = search (keeps_rules, calls, trip_error-Keeps) depth 16

  pub join_trip-Keeps : (trip_id login : Text) → Keeps part (join_trip trip_id login)
  unfolding join_trip
  join_trip-Keeps trip_id login = search (keeps_rules, calls, join_error-Keeps) depth 16

module _ {sv : Services} {errors : List Exn} where
  join_error-Raises : (e : Exn) → Raises errors (join_error {sv = sv} e)
  join_error-Raises invalid_argument = search raises_rules
  join_error-Raises _ = search raises_rules

  trip_error-Raises :
      Listed invalid_argument errors → (e : Exn) → Raises errors (trip_error {sv = sv} e)
  trip_error-Raises l invalid_argument = search raises_rules
  trip_error-Raises l _ = search raises_rules

  pub insert_auth_token-Raises :
      (token login : Text) → Raises errors (insert_auth_token {sv = sv} token login)
  unfolding insert_auth_token
  insert_auth_token-Raises token login = search raises_rules depth 16

  pub get_login_by_token-Raises :
      (token : Text) → Raises errors (get_login_by_token {sv = sv} token)
  unfolding get_login_by_token
  get_login_by_token-Raises token = search raises_rules depth 16

  pub create_trip-Raises :
      Listed failure errors
      → (route : Route) (distance_km departure_time : ℕ)
      → Raises errors (create_trip {sv = sv} route distance_km departure_time)
  unfolding create_trip
  create_trip-Raises l route distance_km departure_time = search raises_rules depth 16

  pub get_trip_by_id-Raises :
      Listed invalid_argument errors
      → (trip_id : Text) → Raises errors (get_trip_by_id {sv = sv} trip_id)
  unfolding get_trip_by_id
  get_trip_by_id-Raises l trip_id = search (raises_rules, trip_error-Raises) depth 16

  pub join_trip-Raises : (trip_id login : Text) → Raises errors (join_trip {sv = sv} trip_id login)
  unfolding join_trip
  join_trip-Raises trip_id login = search (raises_rules, join_error-Raises) depth 16
