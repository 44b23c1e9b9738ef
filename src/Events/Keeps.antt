-- ===== src/Events/Keeps.antt =====
-- What the publisher touches and throws.
use sd_hw.Prelude.{◌≡◌, Text, List, String}
use sd_hw.Models.{User, Route}
use sd_hw.Services.Values.{Json}
use sd_hw.Services.{Services}
use sd_hw.Services.Results.{Exn, ok}
use sd_hw.App.{World}
use sd_hw.App.Keeps.{Keeps, RabbitCallsKeep, RuntimeCallsKeep, keeps_rules}
use sd_hw.App.Raises.{Raises, raises_rules, caught_ok}
use sd_hw.Events.{
  publish, publish_user_created, publish_route_created, publish_trip_created,
  publish_trip_participant_joined,
}

module _ {sv : Services} {X : Type 0} {part : World sv → X} (calls : RabbitCallsKeep part)
    (runtime_calls : RuntimeCallsKeep part) where
  pub publish-Keeps :
      (event_type : Text) (routing_key : String) (payload : Json)
      → Keeps part (publish event_type routing_key payload)
  unfolding publish
  publish-Keeps event_type routing_key payload = search (keeps_rules, calls, runtime_calls) depth 16

  pub publish_user_created-Keeps : (user : User) → Keeps part (publish_user_created user)
  unfolding publish_user_created
  publish_user_created-Keeps user = search (keeps_rules, publish-Keeps) depth 16

  pub publish_route_created-Keeps : (route : Route) → Keeps part (publish_route_created route)
  unfolding publish_route_created
  publish_route_created-Keeps route = search (keeps_rules, publish-Keeps) depth 16

  pub publish_trip_created-Keeps :
      (trip_id : Text) (route : Route) → Keeps part (publish_trip_created trip_id route)
  unfolding publish_trip_created
  publish_trip_created-Keeps trip_id route = search (keeps_rules, publish-Keeps) depth 16

  pub publish_trip_participant_joined-Keeps :
      (trip_id login : Text) → Keeps part (publish_trip_participant_joined trip_id login)
  unfolding publish_trip_participant_joined
  publish_trip_participant_joined-Keeps trip_id login = search (keeps_rules, publish-Keeps) depth 16

module _ {sv : Services} {errors : List Exn} where
  pub publish-Raises :
      (event_type : Text) (routing_key : String) (payload : Json)
      → Raises errors (publish {sv = sv} event_type routing_key payload)
  unfolding publish
  publish-Raises event_type routing_key payload = search raises_rules depth 16

  pub publish_user_created-Raises :
      (user : User) → Raises errors (publish_user_created {sv = sv} user)
  unfolding publish_user_created
  publish_user_created-Raises user = search (raises_rules, publish-Raises) depth 16

  pub publish_route_created-Raises :
      (route : Route) → Raises errors (publish_route_created {sv = sv} route)
  unfolding publish_route_created
  publish_route_created-Raises route = search (raises_rules, publish-Raises) depth 16

  pub publish_trip_created-Raises :
      (trip_id : Text) (route : Route)
      → Raises errors (publish_trip_created {sv = sv} trip_id route)
  unfolding publish_trip_created
  publish_trip_created-Raises trip_id route = search (raises_rules, publish-Raises) depth 16

  pub publish_trip_participant_joined-Raises :
      (trip_id login : Text)
      → Raises errors (publish_trip_participant_joined {sv = sv} trip_id login)
  unfolding publish_trip_participant_joined
  publish_trip_participant_joined-Raises trip_id login =
      search (raises_rules, publish-Raises) depth 16

-- An event that is not sent stops nothing.
module _ {sv : Services} where
  publish-ok :
      (event_type : Text) (routing_key : String) (payload : Json) (w : World sv)
      → (publish event_type routing_key payload w).0 ≡ ok tt
  unfolding publish
  publish-ok event_type routing_key payload w = caught_ok _ _

  pub publish_user_created-ok :
      (user : User) (w : World sv) → (publish_user_created user w).0 ≡ ok tt
  unfolding publish_user_created
  publish_user_created-ok user w = publish-ok _ _ _ w

  pub publish_route_created-ok :
      (route : Route) (w : World sv) → (publish_route_created route w).0 ≡ ok tt
  unfolding publish_route_created
  publish_route_created-ok route w = publish-ok _ _ _ w

  pub publish_trip_created-ok :
      (trip_id : Text) (route : Route) (w : World sv)
      → (publish_trip_created trip_id route w).0 ≡ ok tt
  unfolding publish_trip_created
  publish_trip_created-ok trip_id route w = publish-ok _ _ _ w

  pub publish_trip_participant_joined-ok :
      (trip_id login : Text) (w : World sv)
      → (publish_trip_participant_joined trip_id login w).0 ≡ ok tt
  unfolding publish_trip_participant_joined
  publish_trip_participant_joined-ok trip_id login w = publish-ok _ _ _ w
