-- ===== src/Events/Delivery/Conforms.antt =====
-- The messages of src/events.cpp against event_catalog.md: the names and values of every event.
use package.text.Mathlib.Text.{◌==◌ as str_eq}
use sd_hw.Prelude.{
  ◌≡◌, refl, ◌∙◌, inl, inr, Option, none, some, List, [], ◌∷◌, Text, String, codes, if◌then◌else◌,
  All, Bool-cases,
}
use package.text.Mathlib.TextEquality.{eq_iff}
use sd_hw.Services.{Services, JsonCodec, persistent}
use sd_hw.Services.Values.{Json, string, number, array, object, Members, no_members, member}
use sd_hw.Services.Results.{Result}
use sd_hw.App.{World}
use sd_hw.Events.{
  envelope, user_created_payload, route_created_payload, trip_created_payload,
  participant_joined_payload,
}
use sd_hw.Events.Format.{to_iso8601_utc}
use sd_hw.Events.Delivery.{
  PrintsAndParses, Event, user_created, route_created, trip_created, trip_participant_joined,
  event_type, routing_key, payload, carried, publish_event, payload-Printable, envelope-Printable,
}
use sd_hw.Events.Delivery.Consumes.{
  drawn_id, drawn_time, drawn_correlation, message_of, Draws, publish-offers, type_ascii,
  publish_event_lem,
}

-- A member by its name, the first one if there are several.
lookup : String → Members → Option Json
lookup name no_members = none
lookup name (member key v rest) = if str_eq key name then some v else lookup name rest

members_of : Json → Members
members_of (object ms) = ms
members_of _ = no_members

module _ (codec : JsonCodec) where
  -- A reader of the value finds each name of the table with what stands beside it.
  abbrev pub Reads : Json → List (String × Json) → Type 0
  Reads v table = All (λ f. codec.member v f.0 ≡ some f.1) table

module _ {codec : JsonCodec} (c : PrintsAndParses codec) where
  member-lookup :
      (name : String) (v : Json) (ms : Members)
      → lookup name ms ≡ some v
      → codec.member (object ms) name ≡ some v
  unfolding lookup
  member-lookup name v no_members h = cc
  member-lookup name v (member key u rest) h = elim (Bool-cases (str_eq key name)) [
    | inl same ↦ rw ((eq_iff key name).0 same) (c.member_here name u rest ∙ rw same at h)
    | inr other ↦ c.member_later key name u rest other ∙ member-lookup name v rest (rw other at h)
  ]

  found :
      (name : String) (v u : Json)
      → lookup name (members_of v) ≡ some u
      → codec.member v name ≡ some u
  unfolding lookup members_of
  found name (object ms) u h = member-lookup name u ms h
  found name (string s) u h = cc
  found name (number n) u h = cc
  found name (array items) u h = cc

  Reads-lookup :
      (v : Json) (table : List (String × Json))
      → All (λ f. lookup f.0 (members_of v) ≡ some f.1) table
      → Reads codec v table
  Reads-lookup v [] h = tt
  Reads-lookup v (f ∷ table) (h, rest) = (found f.0 v f.1 h, Reads-lookup v table rest)

-- "Общий формат сообщения" of the catalog, but for the payload.
abbrev pub common_format : Text → Text → Text → Text → List (String × Json)
common_format id type occurred_at correlation =
    ("event_id", string id)
    ∷ ("event_type", string type)
    ∷ ("schema_version", number 1)
    ∷ ("occurred_at", string occurred_at)
    ∷ ("producer", string (codes "blablacar-api"))
    ∷ ("correlation_id", string correlation)
    ∷ []

-- The payload of each event in the catalog.
abbrev pub catalog : Event → List (String × Json)
catalog (user_created user) =
    ("login", string user.login)
    ∷ ("first_name", string user.first_name)
    ∷ ("last_name", string user.last_name)
    ∷ []
catalog (route_created route) =
    ("route_id", string route.id)
    ∷ ("owner_login", string route.owner_login)
    ∷ ("points", string route.points)
    ∷ []
catalog (trip_created trip_id route) =
    ("trip_id", string trip_id)
    ∷ ("route_id", string route.id)
    ∷ ("owner_login", string route.owner_login)
    ∷ ("status", string (codes "active"))
    ∷ []
catalog (trip_participant_joined trip_id login) =
    ("trip_id", string trip_id) ∷ ("login", string login) ∷ []

module _ {codec : JsonCodec} (c : PrintsAndParses codec) where
  payload-Reads : (event : Event) → Reads codec (payload event) (catalog event)
  unfolding payload user_created_payload route_created_payload trip_created_payload
      participant_joined_payload lookup members_of
  payload-Reads (user_created user) =
      Reads-lookup c (payload (user_created user)) (catalog (user_created user))
        (refl, (refl, (refl, tt)))
  payload-Reads (route_created route) =
      Reads-lookup c (payload (route_created route)) (catalog (route_created route))
        (refl, (refl, (refl, tt)))
  payload-Reads (trip_created trip_id route) =
      Reads-lookup c (payload (trip_created trip_id route)) (catalog (trip_created trip_id route))
        (refl, (refl, (refl, (refl, tt))))
  payload-Reads (trip_participant_joined trip_id login) =
      Reads-lookup c (payload (trip_participant_joined trip_id login))
        (catalog (trip_participant_joined trip_id login)) (refl, (refl, tt))

  envelope-Reads :
      (id type occurred_at correlation : Text) (v : Json)
      → Reads codec
          (envelope id type occurred_at correlation v)
          (("payload", v) ∷ common_format id type occurred_at correlation)
  unfolding envelope lookup members_of
  envelope-Reads id type occurred_at correlation v =
      Reads-lookup c (envelope id type occurred_at correlation v)
        (("payload", v) ∷ common_format id type occurred_at correlation)
        (refl, (refl, (refl, (refl, (refl, (refl, (refl, tt)))))))

module _ {sv : Services} (w : World sv) where
  -- The message that the broker is offered parses to the common format of the catalog, with the
  -- payload that it lists for the event.
  pub record Conforms (event : Event) (r : Result (Unit {0}) × World sv) : Type 0 where
    pub message : Text
    pub offered :
        r.1.rabbit
        ≡ (sv.rabbit.publish_reliable "blablacar.events"
            (routing_key event)
            message
            persistent
            w.rabbit).1
    pub whole : Json
    pub parsed : sv.json.from_string message ≡ some whole
    pub inner : Json
    pub reads_whole : Reads sv.json whole (
        ("payload", inner)
        ∷ common_format
            (drawn_id w)
            (event_type event)
            (to_iso8601_utc (sv.runtime.gmtime (drawn_time w).0))
            (drawn_correlation w).0)
    pub reads_payload : Reads sv.json inner (catalog event)

-- Each of the four events, published with texts that JSON can print, is offered to the exchange
-- "blablacar.events" under its routing key as a message that follows event_catalog.md: it parses to an
-- object with the drawn ids, the type of the event, version 1, the time and the producer under the
-- names of the common format, and its payload has the values of the event under the names that the
-- catalog lists for it.
pub publish_event-Conforms :
    {sv : Services} (c : PrintsAndParses sv.json) (event : Event) (w : World sv)
    → All c.valid (carried event)
    → Draws w c
    → Conforms w event (publish_event event w)
publish_event-Conforms {sv} c event w texts draws =
    let whole =
      envelope-Printable c _ _ _ _ _ draws.id (type_ascii c event) draws.time draws.correlation
        (payload-Printable c event texts) in
    record {
      message = sv.json.to_string (message_of w event);
      offered = rw publish_event_lem (rw (publish-offers event w) refl);
      whole = message_of w event;
      parsed = c.parse_again _ whole;
      inner = payload event;
      reads_whole = envelope-Reads c _ _ _ _ _;
      reads_payload = payload-Reads c event;
    }
