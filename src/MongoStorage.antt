-- ===== src/MongoStorage.antt =====
-- src/storage_mongo.cpp: `StorageMongoComponent`, and the documents that it builds and reads.
-- Dates are in seconds. The log lines are left out.
pub mod Documents
pub mod Keeps
pub mod Tokens
pub mod Joins
pub mod Participants
pub mod Archive
pub mod Concurrent
use sd_hw.Prelude.{
  ℕ, ◌+◌, ◌*◌, true, Option, none, some, Text, String, ltb, ◌==◌, maybe, if◌then◌else◌,
}
use sd_hw.Models.{Route, MongoTrip}
use sd_hw.Services.{Services, Mongo, Runtime, UpdateResult}
use sd_hw.Services.Values.{Doc}
use sd_hw.Services.Results.{Exn, invalid_argument, failure, or_throw}
use sd_hw.App.{App, pure, throw, lift, try, ◌>>=◌, ◌>>◌, call_mongo, call_runtime}
use Documents.{
  auth_token, token_filter, trip_document, id_filter, participant_filter, add_participant,
  parse_mongo_trip_document, parse_trip_oid_or_throw,
}

-- enum class JoinTripResult
pub data JoinTripResult : Type 0 where
  joined already_joined not_found invalid_id error : JoinTripResult

abbrev pub joined_by : UpdateResult → JoinTripResult
joined_by result =
    if result.matched_count == 0
    then not_found
    else if ltb 0 result.modified_count
    then joined
    else already_joined

module _ {sv : Services} where
  abbrev pub now : App sv ℕ
  now = call_runtime sv sv.runtime.now

  abbrev get_collection : String → App sv sv.mongo.Collection
  get_collection name = call_mongo sv (sv.mongo.get_collection name)

  abbrev find_one : sv.mongo.Collection → Doc → App sv (Option Doc)
  find_one collection filter = call_mongo sv (sv.mongo.find_one collection filter)

  -- The token lives for 24 hours. A failure is logged and not reported to the caller.
  unfoldable pub insert_auth_token : Text → Text → App sv (Unit {0})
  insert_auth_token token login =
      try
        (do
          auth_collection ← get_collection "auth_tokens"
          created_at ← now
          let expires_at = created_at + 24 * 3600
          call_mongo sv
              (sv.mongo.insert_one auth_collection (auth_token token login created_at expires_at)))
        (λ e. pure tt)

  unfoldable pub get_login_by_token : Text → App sv (Option Text)
  get_login_by_token token =
      try
        (do
          auth_collection ← get_collection "auth_tokens"
          at ← now
          found ← find_one auth_collection (token_filter token at)
          maybe found (pure none)
              (λ doc. do login ← lift (sv.bson.text_field doc "login"); pure (some login)))
        (λ e. pure none)

  unfoldable pub create_trip : Route → ℕ → ℕ → App sv Text
  create_trip route distance_km departure_time =
      try
        (do
          trips_collection ← get_collection "trips"
          created_at ← now
          trip_oid ← call_runtime sv sv.runtime.new_oid
          call_mongo sv (
              sv.mongo.insert_one trips_collection
                (trip_document route distance_km departure_time trip_oid created_at))
          pure (sv.bson.oid_to_string trip_oid))
        (λ e. throw failure)

  -- An exception other than std::invalid_argument is logged and reads as "no trip".
  abbrev pub trip_error : Exn → App sv (Option MongoTrip)
  trip_error invalid_argument = throw invalid_argument
  trip_error _ = pure none

  unfoldable pub get_trip_by_id : Text → App sv (Option MongoTrip)
  get_trip_by_id trip_id_str =
      try
        (do
          trip_oid ← lift (parse_trip_oid_or_throw sv.bson trip_id_str)
          trips_collection ← get_collection "trips"
          found ← find_one trips_collection (id_filter trip_oid)
          maybe found (pure none)
              (λ doc. do trip ← lift (parse_mongo_trip_document sv.bson doc); pure (some trip)))
        trip_error

  abbrev pub join_error : Exn → App sv JoinTripResult
  join_error invalid_argument = pure invalid_id
  join_error _ = pure error

  unfoldable pub join_trip : Text → Text → App sv JoinTripResult
  join_trip trip_id_str login =
      try
        (do
          trips_collection ← get_collection "trips"
          trip_oid ← lift (parse_trip_oid_or_throw sv.bson trip_id_str)
          existing ← find_one trips_collection (participant_filter trip_oid login)
          maybe existing
              (do
                result ← call_mongo sv (
                    sv.mongo.update_one trips_collection (id_filter trip_oid)
                      (add_participant login))
                pure (joined_by result))
              (λ doc. pure already_joined))
        join_error
