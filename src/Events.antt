-- ===== src/Events.antt =====
-- src/events.cpp: the publisher of events, the topology that it declares, and the consumer. Of the
-- log, the consumer's lines are kept, since they are all that it does.
pub mod Keeps
pub mod Format
pub mod Timestamps
pub mod Consumer
pub mod Delivery
use sd_hw.Prelude.{ℕ, Bool, true, Option, none, some, List, [], ◌∷◌, Text, codes, String}
use sd_hw.Models.{User, Route}
use sd_hw.Services.{
  Services, Rabbit, ExchangeType, topic, MessageType, persistent, Runtime, JsonCodec,
}
use sd_hw.Services.Values.{Json, string, number, object, Members, no_members, member}
use sd_hw.Services.Results.{Exn, Result, ok, err, json_error, or_throw}
use sd_hw.Services.Results
use sd_hw.App.{App, pure, try, ◌>>=◌, ◌>>◌, call_rabbit, call_runtime}
use Format.{to_iso8601_utc}

abbrev pub exchange_name : String
exchange_name = "blablacar.events"

abbrev pub audit_queue_name : String
audit_queue_name = "blablacar.audit.events"

abbrev pub audit_binding : String
audit_binding = "#"

abbrev pub producer_name : Text
producer_name = codes "blablacar-api"

abbrev pub trip_status : Text
trip_status = codes "active"

abbrev member_text : String → Text → Members → Members
member_text name value rest = member name (string value) rest

unfoldable pub user_created_payload : User → Json
user_created_payload user = object (
    member_text "login" user.login (
      member_text "first_name" user.first_name (member_text "last_name" user.last_name no_members)))

unfoldable pub route_created_payload : Route → Json
route_created_payload route = object (
    member_text "route_id" route.id
      (member_text "owner_login" route.owner_login (member_text "points" route.points no_members)))

unfoldable pub trip_created_payload : Text → Route → Json
trip_created_payload trip_id route = object (
    member_text "trip_id" trip_id (
      member_text "route_id" route.id (
        member_text "owner_login" route.owner_login (member_text "status" trip_status no_members))))

unfoldable pub participant_joined_payload : Text → Text → Json
participant_joined_payload trip_id login =
    object (member_text "trip_id" trip_id (member_text "login" login no_members))

-- The common envelope of the events.
unfoldable pub envelope : Text → Text → Text → Text → Json → Json
envelope event_id event_type occurred_at correlation_id payload = object (
    member_text "event_id" event_id (
      member_text "event_type" event_type (
        member "schema_version" (number 1) (
          member_text "occurred_at" occurred_at (
            member_text "producer" producer_name (
              member_text "correlation_id" correlation_id
                (member "payload" payload no_members)))))))

module _ {sv : Services} where
  -- DeclareEventTopology, in the constructor of the publisher; a failure ends the start of the service.
  unfoldable pub declare_event_topology : App sv (Unit {0})
  declare_event_topology =
      call_rabbit sv (sv.rabbit.declare_exchange exchange_name topic true)
      >> call_rabbit sv (sv.rabbit.declare_queue audit_queue_name true)
      >> call_rabbit sv (sv.rabbit.bind_queue exchange_name audit_queue_name audit_binding)

  -- A failure is logged and swallowed.
  unfoldable pub publish : Text → String → Json → App sv (Unit {0})
  publish event_type routing_key payload =
      try
        (do
          event_id ← call_runtime sv sv.runtime.generate_uuid
          now ← call_runtime sv sv.runtime.now
          correlation_id ← call_runtime sv sv.runtime.generate_uuid
          let occurred_at = to_iso8601_utc (sv.runtime.gmtime now)
          let message =
              sv.json.to_string (envelope event_id event_type occurred_at correlation_id payload)
          call_rabbit sv (sv.rabbit.publish_reliable exchange_name routing_key message persistent))
        (λ e. pure tt)

  unfoldable pub publish_user_created : User → App sv (Unit {0})
  publish_user_created user =
      publish (codes "UserCreated") "user.created" (user_created_payload user)

  unfoldable pub publish_route_created : Route → App sv (Unit {0})
  publish_route_created route =
      publish (codes "RouteCreated") "route.created" (route_created_payload route)

  unfoldable pub publish_trip_created : Text → Route → App sv (Unit {0})
  publish_trip_created trip_id route =
      publish (codes "TripCreated") "trip.created" (trip_created_payload trip_id route)

  unfoldable pub publish_trip_participant_joined : Text → Text → App sv (Unit {0})
  publish_trip_participant_joined trip_id login =
      publish (codes "TripParticipantJoined") "trip.participant_joined"
        (participant_joined_payload trip_id login)
