-- ===== src/Events/Delivery/Consumes.antt =====
-- An event from its publisher to the consumer: the message that is sent, read again.
use sd_hw.Prelude.{ℕ, ◌≡◌, refl, ◌∙◌, inl, inr, some, Text, All}
use sd_hw.Services.{Services, JsonCodec, persistent}
use sd_hw.Services.Values.{Json}
use sd_hw.Services.Results.{Result, ok, Result-cases}
use sd_hw.App.{World}
use sd_hw.Events.{
  exchange_name, publish, publish_user_created, publish_route_created, publish_trip_created,
  publish_trip_participant_joined, envelope,
}
use sd_hw.Events.Format.{to_iso8601_utc}
use sd_hw.Events.Consumer.{LogLine, consumed, process, consumed_line}
use sd_hw.Events.Delivery.{
  PrintsAndParses, Event, user_created, route_created, trip_created, trip_participant_joined,
  event_type, routing_key, payload, carried, publish_event, payload-Printable, envelope-Printable,
}

module _ {codec : JsonCodec} (c : PrintsAndParses codec) where
  -- What the consumer reads in an envelope.
  consumed_line-envelope :
      (event_id type occurred_at correlation_id : Text) (v : Json)
      → consumed_line codec (envelope event_id type occurred_at correlation_id v)
        ≡ ok (consumed type event_id (codec.to_string v))
  unfolding envelope consumed_line
  consumed_line-envelope event_id type occurred_at correlation_id v =
      let whole = envelope event_id type occurred_at correlation_id v in
      let type_read : codec.string_field whole "event_type" ≡ some type =
        c.text_later "event_id" "event_type" _ _ refl ∙ c.text_here "event_type" _ _ in
      let id_read : codec.string_field whole "event_id" ≡ some event_id =
        c.text_here "event_id" _ _ in
      let payload_read : codec.member whole "payload" ≡ some v =
        c.member_later "event_id" "payload" _ _ refl
        ∙ c.member_later "event_type" "payload" _ _ refl
        ∙ c.member_later "schema_version" "payload" _ _ refl
        ∙ c.member_later "occurred_at" "payload" _ _ refl
        ∙ c.member_later "producer" "payload" _ _ refl
        ∙ c.member_later "correlation_id" "payload" _ _ refl
        ∙ c.member_here "payload" _ _ in
      rw (type_read, id_read, payload_read) refl

process_parsed :
    (codec : JsonCodec) (message : Text) (v : Json) (line : LogLine)
    → codec.from_string message ≡ some v
    → consumed_line codec v ≡ ok line
    → process codec message ≡ record { test_point = some v; line = line }
unfolding process
process_parsed codec message v line parsed read = rw (process, parsed, read) refl

module _ {sv : Services} (w : World sv) where
  -- What the publisher draws: two ids, and the time between them.
  abbrev pub drawn_id : Text
  drawn_id = (sv.runtime.generate_uuid w.runtime).0

  abbrev pub drawn_time : ℕ × sv.runtime.State
  drawn_time = sv.runtime.now (sv.runtime.generate_uuid w.runtime).1

  abbrev pub drawn_correlation : Text × sv.runtime.State
  drawn_correlation = sv.runtime.generate_uuid drawn_time.1

  abbrev pub message_of : Event → Json
  message_of event =
      envelope drawn_id (event_type event) (to_iso8601_utc (sv.runtime.gmtime drawn_time.0))
        drawn_correlation.0 (payload event)

  -- The draws give texts that JSON can print.
  pub record Draws (c : PrintsAndParses sv.json) : Type 0 where
    pub id : c.valid drawn_id
    pub time : c.valid (to_iso8601_utc (sv.runtime.gmtime drawn_time.0))
    pub correlation : c.valid drawn_correlation.0

  -- The message is offered to the exchange under the key of the event, and the consumer, given it,
  -- writes the type, the id and the payload of the event.
  pub record Delivers (event : Event) (r : Result (Unit {0}) × World sv) : Type 0 where
    pub message : Text
    pub offered : r ≡ (
      ok tt,
      record w {
        runtime = drawn_correlation.1;
        rabbit =
            (sv.rabbit.publish_reliable exchange_name
              (routing_key event)
              message
              persistent
              w.rabbit).1;
      },
    )
    pub processed : process sv.json message ≡ record {
      test_point = some (message_of event);
      line = consumed (event_type event) drawn_id (sv.json.to_string (payload event));
    }

pub publish_event_lem :
    {sv : Services} (event : Event)
    → publish_event {sv = sv} event ≡ publish (event_type event) (routing_key event) (payload event)
unfolding publish_event event_type routing_key payload publish_user_created publish_route_created
    publish_trip_created publish_trip_participant_joined
publish_event_lem (user_created user) = refl
publish_event_lem (route_created route) = refl
publish_event_lem (trip_created trip_id route) = refl
publish_event_lem (trip_participant_joined trip_id login) = refl

pub publish-offers :
    {sv : Services} (event : Event) (w : World sv)
    → publish (event_type event) (routing_key event) (payload event) w ≡ (
      ok tt,
      record w {
        runtime = (drawn_correlation w).1;
        rabbit =
            (sv.rabbit.publish_reliable exchange_name
              (routing_key event)
              (sv.json.to_string (message_of w event))
              persistent
              w.rabbit).1;
      },
    )
unfolding publish
publish-offers {sv} event w =
    elim (Result-cases
      (sv.rabbit.publish_reliable exchange_name (routing_key event)
        (sv.json.to_string (message_of w event)) persistent w.rabbit).0) [
          | inl (_, e) ↦ rw e refl
          | inr (_, e) ↦ rw e refl
        ]

pub type_ascii :
    {codec : JsonCodec} (c : PrintsAndParses codec) (event : Event) → c.valid (event_type event)
unfolding event_type
type_ascii c (user_created user) = c.ascii_valid _ refl
type_ascii c (route_created route) = c.ascii_valid _ refl
type_ascii c (trip_created trip_id route) = c.ascii_valid _ refl
type_ascii c (trip_participant_joined trip_id login) = c.ascii_valid _ refl

-- Each of the four events, published with texts that JSON can print, is offered to the exchange under
-- its routing key, and the caller goes on whatever the broker answers; the consumer, given the message
-- that was offered, passes the whole of it to the test point and writes the type, the id and the
-- payload of the event, so that the message is not skipped as malformed.
pub publish_event-Delivers :
    {sv : Services} (c : PrintsAndParses sv.json) (event : Event) (w : World sv)
    → All c.valid (carried event)
    → Draws w c
    → Delivers w event (publish_event event w)
publish_event-Delivers {sv} c event w texts draws =
    let whole =
      envelope-Printable c _ _ _ _ _ draws.id (type_ascii c event) draws.time draws.correlation
        (payload-Printable c event texts) in
    record {
      message = sv.json.to_string (message_of w event);
      offered = rw publish_event_lem (publish-offers event w);
      processed =
          process_parsed sv.json _ _ _ (c.parse_again _ whole) (consumed_line-envelope c _ _ _ _ _);
    }
