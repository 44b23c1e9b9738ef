-- ===== src/Events/Consumer.antt =====
-- src/events.cpp: `EventConsumerComponent::Process`. It returns for every message, which acknowledges
-- it. The test point sees each message that parses; a line that an exception cuts short is left out.
use sd_hw.Prelude.{Option, none, some, Text, String}
use sd_hw.Services.{JsonCodec}
use sd_hw.Services.Values.{Json}
use sd_hw.Services.Results.{Result, ok, err, json_error, or_throw, ◌>>=◌}

pub data LogLine : Type 0 where
  consumed : Text → Text → Text → LogLine
  malformed : Text → LogLine

pub record Processed : Type 0 where
  pub test_point : Option Json
  pub line : LogLine

abbrev line_or_malformed : Text → Result LogLine → LogLine
line_or_malformed message (ok line) = line
line_or_malformed message (err e) = malformed message

module _ (codec : JsonCodec) where
  abbrev text_of : Json → String → Result Text
  text_of json name = or_throw json_error (codec.string_field json name)

  unfoldable pub consumed_line : Json → Result LogLine
  consumed_line json = do
    event_type ← text_of json "event_type"
    event_id ← text_of json "event_id"
    payload ← or_throw json_error (codec.member json "payload")
    ok (consumed event_type event_id (codec.to_string payload))

  unfoldable pub process : Text → Processed
  unfolding consumed_line
  process message = elim (codec.from_string message) [
    | none ↦ record { test_point = none; line = malformed message }
    | some json ↦ record {
      test_point = some json;
      line = line_or_malformed message (consumed_line json);
    }
  ]
