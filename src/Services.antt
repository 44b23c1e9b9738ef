-- ===== src/Services.antt =====
-- The interfaces of what the program calls and does not implement: the drivers of PostgreSQL,
-- MongoDB, Redis and RabbitMQ, the JSON and BSON libraries, the clock and the generators of ids.
-- Each driver has a state of its own and may throw on any call.
pub mod Results
pub mod Values
use sd_hw.Prelude.{ℕ, Bool, Option, List, Text, String}
use sd_hw.Prelude.Int.{ℤ}
use Results.{Result}
use Values.{Json, Doc}

-- A statement and its parameters $1, $2, …
pub record Query : Type 0 where
  pub text : String
  pub params : List Text

-- `row["name"].As<std::string>()` throws on a missing column or a NULL.
pub record Row : Type 0 where
  pub column : String → Result Text

pub record ResultSet : Type 0 where
  pub rows : List Row
  pub rows_affected : ℕ

pub record Postgres : Type 1 where
  pub State : Type 0
  pub execute : Query → State → Result ResultSet × State

pub record UpdateResult : Type 0 where
  pub matched_count : ℕ
  pub modified_count : ℕ

pub record Mongo : Type 1 where
  pub State : Type 0
  pub Collection : Type 0
  pub get_collection : String → State → Result Collection × State
  pub insert_one : Collection → Doc → State → Result (Unit {0}) × State
  pub find_one : Collection → Doc → State → Result (Option Doc) × State
  pub update_one : Collection → Doc → Doc → State → Result UpdateResult × State

-- `get_array` and `get_int` are the client's readers of a reply and of an item in it; what they
-- give for a reply or an item of another kind, and whether they throw, is up to the client. `incr`,
-- `expire` and `ttl` are the commands as a script on the server calls them; the other fields are
-- calls of the client.
pub record Redis : Type 1 where
  pub State : Type 0
  pub get : Text → State → Result (Option Text) × State
  pub set : Text → Text → ℤ → State → Result (Unit {0}) × State
  pub del : Text → State → Result (Unit {0}) × State
  pub incr : Text → State → Result ℤ × State
  pub expire : Text → ℤ → State → Result (Unit {0}) × State
  pub ttl : Text → State → Result ℤ × State
  pub Reply : Type 0
  pub Item : Type 0
  pub get_array : Reply → Result (List Item)
  pub get_int : Item → Result ℤ
  pub eval : (State → Result (List ℤ) × State) → State → Result Reply × State

pub data ExchangeType : Type 0 where
  fan_out direct topic : ExchangeType

pub data MessageType : Type 0 where
  persistent transient : MessageType

-- The flags are those of the declaration: durable or not.
pub record Rabbit : Type 1 where
  pub State : Type 0
  pub declare_exchange : String → ExchangeType → Bool → State → Result (Unit {0}) × State
  pub declare_queue : String → Bool → State → Result (Unit {0}) × State
  pub bind_queue : String → String → String → State → Result (Unit {0}) × State
  pub publish_reliable : String → String → Text → MessageType → State → Result (Unit {0}) × State

-- The fields of `std::tm` that the program prints, in their printed sense: a full year, a month
-- from 1.
pub record Tm : Type 0 where
  pub year : ℕ
  pub month : ℕ
  pub day : ℕ
  pub hour : ℕ
  pub minute : ℕ
  pub second : ℕ

-- The clock, in seconds since the epoch, and the generators.
pub record Runtime : Type 1 where
  pub State : Type 0
  pub generate_uuid : State → Text × State
  pub now : State → ℕ × State
  pub new_oid : State → ℕ × State
  pub gmtime : ℕ → Tm

-- The JSON library. A result `none` is a `formats::json::Exception`; `string_field` is
-- `json[name].As<std::string>()`, which throws on a missing member, too.
pub record JsonCodec : Type 0 where
  pub from_string : Text → Option Json
  pub member : Json → String → Option Json
  pub string_field : Json → String → Option Text
  pub to_string : Json → Text

-- The BSON library: `doc[name].As<T>()` for the types that the program reads, and object ids.
pub record BsonCodec : Type 0 where
  pub oid_field : Doc → String → Result ℕ
  pub text_field : Doc → String → Result Text
  pub texts_field : Doc → String → Result (List Text)
  pub double_field : Doc → String → Result ℕ
  pub doc_field : Doc → String → Result Doc
  pub parse_oid : Text → Option ℕ
  pub oid_to_string : ℕ → Text

pub record Services : Type 1 where
  pub pg : Postgres
  pub mongo : Mongo
  pub redis : Redis
  pub rabbit : Rabbit
  pub runtime : Runtime
  pub json : JsonCodec
  pub bson : BsonCodec
