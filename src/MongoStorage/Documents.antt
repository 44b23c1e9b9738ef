-- ===== src/MongoStorage/Documents.antt =====
-- The documents of src/storage_mongo.cpp: what is stored, the filters and updates, and the reader of
-- a trip.
use sd_hw.Prelude.{ℕ, [], Text, codes}
use sd_hw.Models.{Route, MongoTrip}
use sd_hw.RoutePoints.{split_route_points, rebuild_raw}
use sd_hw.Services.{BsonCodec}
use sd_hw.Services.Values.{text, oid, date, double, texts, document, Doc, no_fields, field}
use sd_hw.Services.Results.{Result, ok, invalid_argument, or_throw, ◌>>=◌}

unfoldable pub auth_token : Text → Text → ℕ → ℕ → Doc
auth_token token login created_at expires_at = field "_id" (text token) (
    field "login" (text login)
      (field "created_at" (date created_at) (field "expires_at" (date expires_at) no_fields)))

-- The token, and `expires_at` after the present.
unfoldable pub token_filter : Text → ℕ → Doc
token_filter token now =
    field "_id" (text token)
      (field "expires_at" (document (field "$gt" (date now) no_fields)) no_fields)

unfoldable pub trip_document : Route → ℕ → ℕ → ℕ → ℕ → Doc
trip_document route distance_km departure_time trip_oid now = field "_id" (oid trip_oid) (
    field "owner_login" (text route.owner_login) (
      field "route_id" (text route.id) (
        field "route" (document route_doc) (
          field "departure_time" (date departure_time) (
            field "status" (text (codes "active"))
              (field "participants" (texts []) (field "created_at" (date now) no_fields)))))))
  where
    route_doc : Doc
    route_doc = field "points" (texts (split_route_points route.points)) (
        field "raw_points" (text route.points) (field "distance_km" (double distance_km) no_fields))

unfoldable pub id_filter : ℕ → Doc
id_filter trip_oid = field "_id" (oid trip_oid) no_fields

unfoldable pub participant_filter : ℕ → Text → Doc
participant_filter trip_oid login =
    field "_id" (oid trip_oid) (field "participants" (text login) no_fields)

unfoldable pub add_participant : Text → Doc
add_participant login =
    field "$addToSet" (document (field "participants" (text login) no_fields)) no_fields

unfoldable pub parse_trip_oid_or_throw : BsonCodec → Text → Result ℕ
parse_trip_oid_or_throw bson trip_id_str = or_throw invalid_argument (bson.parse_oid trip_id_str)

-- An empty `raw_points` is rebuilt from the points.
unfoldable pub parse_mongo_trip_document : BsonCodec → Doc → Result MongoTrip
parse_mongo_trip_document bson doc = do
  id ← bson.oid_field doc "_id"
  owner_login ← bson.text_field doc "owner_login"
  route_id ← bson.text_field doc "route_id"
  status ← bson.text_field doc "status"
  participants ← bson.texts_field doc "participants"
  route ← bson.doc_field doc "route"
  points ← bson.texts_field route "points"
  raw_points ← bson.text_field route "raw_points"
  distance_km ← bson.double_field route "distance_km"
  ok (record {
    id = bson.oid_to_string id;
    owner_login = owner_login;
    route_id = route_id;
    route = record {
      route_id = route_id;
      owner_login = owner_login;
      raw_points = rebuild_raw raw_points points;
      points = points;
      distance_km = distance_km;
    };
    status = status;
    participants_logins = participants;
  })
