-- ===== src/Handlers/Trips.antt =====
-- src/handlers/api_handlers.cpp: the handlers of /v1/trips and /v1/trips/add-user.
pub mod Lives
use sd_hw.Prelude.{ℕ, List, [], ◌∷◌, Text, maybe, if◌then◌else◌}
use sd_hw.Models.{MongoTrip}
use sd_hw.Services.{Services}
use sd_hw.Services.Values.{Json, string, array, object, Items, no_items, item, no_members, member}
use sd_hw.Http.{Request}
use sd_hw.PgStorage.{get_route_by_id}
use sd_hw.MongoStorage.{
  JoinTripResult, joined, already_joined, not_found, invalid_id, error, create_trip as insert_trip,
  get_trip_by_id, join_trip, now,
}
use sd_hw.Events.{publish_trip_created, publish_trip_participant_joined}
use sd_hw.App.{App, pure, ◌>>=◌, ◌>>◌}
use sd_hw.Handlers.{safe_handle, parse_body, string_field, lacks_arg, reply}
use sd_hw.Handlers.Routes.{id_json}
use sd_hw.Handlers.Bodies.{
  status_ok, route_not_found, trip_not_found, bad_request, internal_server_error, missing_id,
}

abbrev login_items : List Text → Items
login_items [] = no_items
login_items (p ∷ participants) = item (string p) (login_items participants)

unfoldable pub trip_json : MongoTrip → Json
trip_json trip = object (
    member "id" (string trip.id) (
      member "route_id" (string trip.route_id)
        (member "participants" (array (login_items trip.participants_logins)) no_members)))

-- The literal 0.0, as the bits of a double.
abbrev zero_distance : ℕ
zero_distance = 0

module _ {sv : Services} where
  unfoldable pub create_trip : Request → App sv Text
  create_trip request = do
    json ← parse_body request
    route_id ← string_field json "route_id"
    found ← get_route_by_id route_id
    maybe found (reply 404 route_not_found) (λ route. do
      departure_time ← now
      id ← insert_trip route zero_distance departure_time
      publish_trip_created id route
      pure (sv.json.to_string (id_json id)))

  unfoldable pub handle_create_trip : Request → App sv Text
  handle_create_trip request = safe_handle (create_trip request)

  -- The `switch` of AddUserToTripHandler.
  unfoldable pub answer_join : Text → Text → JoinTripResult → App sv Text
  answer_join trip_id login joined = publish_trip_participant_joined trip_id login >> pure status_ok
  answer_join trip_id login already_joined = pure status_ok
  answer_join trip_id login not_found = reply 404 trip_not_found
  answer_join trip_id login invalid_id = reply 400 bad_request
  answer_join trip_id login error = reply 500 internal_server_error

  unfoldable pub add_user_to_trip : Request → App sv Text
  unfolding answer_join
  add_user_to_trip request = do
    json ← parse_body request
    trip_id ← string_field json "trip_id"
    login ← string_field json "login"
    result ← join_trip trip_id login
    answer_join trip_id login result

  unfoldable pub handle_add_user_to_trip : Request → App sv Text
  handle_add_user_to_trip request = safe_handle (add_user_to_trip request)

  unfoldable pub get_trip : Request → App sv Text
  get_trip request = if lacks_arg request "id" then reply 400 missing_id else (do
    found ← get_trip_by_id (request.get_arg "id")
    maybe found (reply 404 trip_not_found) (λ trip. pure (sv.json.to_string (trip_json trip))))

  unfoldable pub handle_get_trip : Request → App sv Text
  handle_get_trip request = safe_handle (get_trip request)
