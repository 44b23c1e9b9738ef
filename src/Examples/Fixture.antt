-- ===== src/Examples/Fixture.antt =====
-- The services put together, and a world to start from.
use sd_hw.Prelude.{ℕ, ◌+◌, true, none, some, List, [], ◌∷◌, Text, codes, String, Option}
use sd_hw.Services.{Services, Rabbit, Runtime, JsonCodec}
use sd_hw.Services.Values.{Json, string}
use sd_hw.Services.Results.{ok}
use sd_hw.Http.{Request}
use sd_hw.App.{World}
use sd_hw.Examples.Database.{database}
use sd_hw.Examples.Documents.{store, bson_codec}
use sd_hw.Examples.Keys.{keys, no_keys}

-- The messages that reached the exchange, newest first.
abbrev pub broker : Rabbit
broker = record {
  State = List (String × Text);
  declare_exchange = λ name kind durable s. (ok tt, s);
  declare_queue = λ name durable s. (ok tt, s);
  bind_queue = λ exchange queue key s. (ok tt, s);
  publish_reliable = λ exchange key message kind s. (ok tt, (key, message) ∷ s);
}

-- Ids and times are the ticks of one counter.
abbrev pub ticks : Runtime
ticks = record {
  State = ℕ;
  generate_uuid = λ n. (n ∷ [], n + 1);
  now = λ n. (n, n);
  new_oid = λ n. (n, n + 1);
  gmtime = λ n. record { year = 2026; month = 5; day = 17; hour = 12; minute = 0; second = n };
}

-- A body that begins with a byte is an object whose members all hold the bytes behind it.
abbrev pub json_codec : JsonCodec
json_codec = record {
  from_string = parsed;
  member = λ json name. some json;
  string_field = λ json name. text_in json;
  to_string = λ json. codes "{}";
}
  where
    parsed : Text → Option Json
    parsed [] = none
    parsed (c ∷ s) = some (string s)

    text_in : Json → Option Text
    text_in (string s) = some s
    text_in _ = none

abbrev pub fixture : Services
fixture = record {
  pg = database;
  mongo = store;
  redis = keys;
  rabbit = broker;
  runtime = ticks;
  json = json_codec;
  bson = bson_codec;
}

abbrev pub start : World fixture
start = record {
  pg = record { users = []; routes = []; next_route = 1 };
  mongo = record { tokens = []; trips = [] };
  redis = no_keys;
  rabbit = [];
  runtime = 7;
  response = record { status = 200; headers = []; user_login = none };
}

abbrev pub request : Request
request = record {
  remote_address = codes "10.0.0.1";
  body = codes "{alice";
  has_arg = λ name. true;
  get_arg = λ name. codes "alice";
  get_header = λ name. codes "Bearer x";
}
