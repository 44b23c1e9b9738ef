-- ===== src/Events/Delivery.antt =====
-- An event from its publisher to the consumer: the events, and what the two rely on of JSON.
pub mod Conforms
pub mod Consumes
use package.text.Mathlib.Text.{◌==◌ as str_eq}
use sd_hw.Prelude.{
  Bool, true, ◌&&◌, ltb, ℕ, ◌≡◌, refl, ◌∙◌, ap, inl, inr, false, Option, some, List, [], ◌∷◌, Text,
  String, codes, All,
}
use sd_hw.Models.{User, Route}
use sd_hw.Services.{Services, JsonCodec, persistent}
use sd_hw.Services.Values.{Json, string, number, object, Members, no_members, member}
use sd_hw.Services.Results.{Exn, Result, ok, err, Result-cases}
use sd_hw.App.{World, App, pure, catch_result}
use sd_hw.Events.{
  exchange_name, publish, publish_user_created, publish_route_created, publish_trip_created,
  publish_trip_participant_joined, user_created_payload, route_created_payload,
  trip_created_payload, participant_joined_payload, envelope, trip_status, producer_name,
}
use sd_hw.Events.Format.{to_iso8601_utc}
use sd_hw.Events.Consumer.{Processed, LogLine, consumed, process, consumed_line}

-- The values that JSON can print: of texts and names that are UTF-8.
module _ (valid : Text → Type 0) (valid_name : String → Type 0) where
  mutual
    pub data Printable : Json → Type 0 where
      prints_string : {s : Text} → valid s → Printable (string s)
      prints_number : {n : ℕ} → Printable (number n)
      prints_object : {m : Members} → PrintableMembers m → Printable (object m)

    pub data PrintableMembers : Members → Type 0 where
      prints_none : PrintableMembers no_members
      prints_member :
          {name : String} {v : Json} {rest : Members}
          → valid_name name
          → Printable v
          → PrintableMembers rest
          → PrintableMembers (member name v rest)

abbrev pub is_ascii : Text → Bool
is_ascii [] = true
is_ascii (b ∷ s) = ltb b 128 && is_ascii s

-- The names in the messages of the program.
pub data EventName : String → Type 0 where
  event_id_name : EventName "event_id"
  event_type_name : EventName "event_type"
  schema_version_name : EventName "schema_version"
  occurred_at_name : EventName "occurred_at"
  producer_name_name : EventName "producer"
  correlation_id_name : EventName "correlation_id"
  payload_name : EventName "payload"
  login_name : EventName "login"
  first_name_name : EventName "first_name"
  last_name_name : EventName "last_name"
  route_id_name : EventName "route_id"
  owner_login_name : EventName "owner_login"
  points_name : EventName "points"
  trip_id_name : EventName "trip_id"
  status_name : EventName "status"

-- The documented behaviour of the JSON library: what it prints parses to the value that was printed,
-- and a member is found by its name.
pub record PrintsAndParses (codec : JsonCodec) : Type 1 where
  pub valid : Text → Type 0
  pub valid_name : String → Type 0
  pub names_valid : (name : String) → EventName name → valid_name name
  pub ascii_valid : (s : Text) → is_ascii s ≡ true → valid s
  pub parse_again :
      (v : Json) → Printable valid valid_name v → codec.from_string (codec.to_string v) ≡ some v
  pub text_here :
      (name : String) (s : Text) (rest : Members)
      → codec.string_field (object (member name (string s) rest)) name ≡ some s
  pub text_later :
      (key name : String) (v : Json) (rest : Members)
      → str_eq key name ≡ false
      → codec.string_field (object (member key v rest)) name ≡ codec.string_field (object rest) name
  pub member_here :
      (name : String) (v : Json) (rest : Members)
      → codec.member (object (member name v rest)) name ≡ some v
  pub member_later :
      (key name : String) (v : Json) (rest : Members)
      → str_eq key name ≡ false
      → codec.member (object (member key v rest)) name ≡ codec.member (object rest) name

-- The events of the program.
pub data Event : Type 0 where
  user_created : User → Event
  route_created : Route → Event
  trip_created : Text → Route → Event
  trip_participant_joined : Text → Text → Event

unfoldable pub event_type : Event → Text
event_type (user_created user) = codes "UserCreated"
event_type (route_created route) = codes "RouteCreated"
event_type (trip_created trip_id route) = codes "TripCreated"
event_type (trip_participant_joined trip_id login) = codes "TripParticipantJoined"

unfoldable pub routing_key : Event → String
routing_key (user_created user) = "user.created"
routing_key (route_created route) = "route.created"
routing_key (trip_created trip_id route) = "trip.created"
routing_key (trip_participant_joined trip_id login) = "trip.participant_joined"

unfoldable pub payload : Event → Json
payload (user_created user) = user_created_payload user
payload (route_created route) = route_created_payload route
payload (trip_created trip_id route) = trip_created_payload trip_id route
payload (trip_participant_joined trip_id login) = participant_joined_payload trip_id login

-- The texts that an event carries.
unfoldable pub carried : Event → List Text
carried (user_created user) = user.login ∷ user.first_name ∷ user.last_name ∷ []
carried (route_created route) = route.id ∷ route.owner_login ∷ route.points ∷ []
carried (trip_created trip_id route) = trip_id ∷ route.id ∷ route.owner_login ∷ []
carried (trip_participant_joined trip_id login) = trip_id ∷ login ∷ []

unfoldable pub publish_event : {sv : Services} → Event → App sv (Unit {0})
publish_event (user_created user) = publish_user_created user
publish_event (route_created route) = publish_route_created route
publish_event (trip_created trip_id route) = publish_trip_created trip_id route
publish_event (trip_participant_joined trip_id login) =
    publish_trip_participant_joined trip_id login

ruleset printing_rules = (
  prints_string, prints_number, prints_object, prints_none, prints_member, event_id_name,
  event_type_name, schema_version_name, occurred_at_name, producer_name_name, correlation_id_name,
  payload_name, login_name, first_name_name, last_name_name, route_id_name, owner_login_name,
  points_name, trip_id_name, status_name,
)

module _ {codec : JsonCodec} (c : PrintsAndParses codec) where
  pub payload-Printable :
      (event : Event) → All c.valid (carried event) → Printable c.valid c.valid_name (payload event)
  unfolding payload carried user_created_payload route_created_payload trip_created_payload
      participant_joined_payload
  payload-Printable (user_created user) (h, (i, (j, _))) =
      search (printing_rules, c.names_valid) depth 16
  payload-Printable (route_created route) (h, (i, (j, _))) =
      search (printing_rules, c.names_valid) depth 16
  payload-Printable (trip_created trip_id route) (h, (i, (j, _))) =
      let status = c.ascii_valid trip_status refl in search (printing_rules, c.names_valid) depth 16
  payload-Printable (trip_participant_joined trip_id login) (h, (i, _)) =
      search (printing_rules, c.names_valid) depth 16

  pub envelope-Printable :
      (event_id event_type occurred_at correlation_id : Text) (v : Json)
      → c.valid event_id
      → c.valid event_type
      → c.valid occurred_at
      → c.valid correlation_id
      → Printable c.valid c.valid_name v
      → Printable c.valid c.valid_name (envelope event_id event_type occurred_at correlation_id v)
  unfolding envelope
  envelope-Printable event_id event_type occurred_at correlation_id v hi ht ho hc hv =
      let producer = c.ascii_valid producer_name refl in
      search (printing_rules, c.names_valid) depth 20
