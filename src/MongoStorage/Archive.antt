-- ===== src/MongoStorage/Archive.antt =====
-- A trip from its creation on: what the code relies on of the collection `trips` and of BSON, and
-- what GetTripById returns after CreateTrip and any joins.
pub mod Lives
use package.text.Mathlib.Text.{◌==◌ as str_eq}
use sd_hw.Prelude.{
  ℕ, ◌==◌, ◌≡◌, refl, sym, ap, ◌∙◌, inl, inr, Bool, true, false, Option, none, some, List, [], ◌∷◌,
  Text, String, codes, arith, if◌then◌else◌, Bool-cases, Option-cases, is_empty,
}
use sd_hw.Models.{Route, MongoTrip}
use sd_hw.RoutePoints.{split_route_points, rebuild_raw}
use sd_hw.Services.{Services, BsonCodec}
use sd_hw.Services.Values.{Bson, text, oid, double, texts, document, Doc, no_fields, field}
use sd_hw.Services.Results.{Result, ok}
use sd_hw.App.{World}
use sd_hw.MongoStorage.{join_trip, create_trip, get_trip_by_id, now}
use sd_hw.MongoStorage.Documents.{
  trip_document, id_filter, participant_filter, add_participant, parse_trip_oid_or_throw,
  parse_mongo_trip_document,
}
use sd_hw.MongoStorage.Joins.{
  TripStore, Joins, joining, with_login, holds, join_trip-Joins, join_trip-invalid,
}

-- The documented behaviour of the BSON library: a field is read by its name and with its type, and an
-- object id is read from its text.
pub record ReadsFields (bson : BsonCodec) : Type 0 where
  pub oid_here :
      (name : String) (n : ℕ) (rest : Doc) → bson.oid_field (field name (oid n) rest) name ≡ ok n
  pub text_here :
      (name : String) (v : Text) (rest : Doc)
      → bson.text_field (field name (text v) rest) name ≡ ok v
  pub text_later :
      (key name : String) (v : Bson) (rest : Doc)
      → str_eq key name ≡ false
      → bson.text_field (field key v rest) name ≡ bson.text_field rest name
  pub texts_here :
      (name : String) (v : List Text) (rest : Doc)
      → bson.texts_field (field name (texts v) rest) name ≡ ok v
  pub double_here :
      (name : String) (v : ℕ) (rest : Doc)
      → bson.double_field (field name (double v) rest) name ≡ ok v
  pub double_later :
      (key name : String) (v : Bson) (rest : Doc)
      → str_eq key name ≡ false
      → bson.double_field (field key v rest) name ≡ bson.double_field rest name
  pub doc_here :
      (name : String) (v rest : Doc) → bson.doc_field (field name (document v) rest) name ≡ ok v
  pub doc_later :
      (key name : String) (v : Bson) (rest : Doc)
      → str_eq key name ≡ false
      → bson.doc_field (field key v rest) name ≡ bson.doc_field rest name
  pub oid_again : (n : ℕ) → bson.parse_oid (bson.oid_to_string n) ≡ some n

-- A document is the one that was inserted but for its participants.
pub record IsUpdated (bson : BsonCodec) (doc : Doc) (ps : List Text) (found : Doc) : Type 0 where
  pub participants : bson.texts_field found "participants" ≡ ok ps
  pub oids : bson.oid_field found "_id" ≡ bson.oid_field doc "_id"
  pub texts_kept :
      (name : String)
      → str_eq "participants" name ≡ false
      → bson.text_field found name ≡ bson.text_field doc name
  pub docs_kept : bson.doc_field found "route" ≡ bson.doc_field doc "route"

module _ {sv : Services} (t : TripStore sv) where
  -- The documented behaviour of the collection `trips` while it answers, told through the document
  -- that was inserted for an id: it is found by the id, with the participants that it has got.
  pub record TripArchive : Type 0 where
    pub inserted : sv.mongo.State → ℕ → Option Doc
    pub insert_reply :
        (route : Route) (km departure id at : ℕ) (s : sv.mongo.State)
        → t.participants s id ≡ none
        → (sv.mongo.insert_one t.trips (trip_document route km departure id at) s).0 ≡ ok tt
    pub insert_document :
        (route : Route) (km departure id at : ℕ) (s : sv.mongo.State)
        → t.participants s id ≡ none
        → inserted (sv.mongo.insert_one t.trips (trip_document route km departure id at) s).1 id
          ≡ some (trip_document route km departure id at)
    pub insert_participants :
        (route : Route) (km departure id at : ℕ) (s : sv.mongo.State)
        → t.participants s id ≡ none
        → t.participants
            (sv.mongo.insert_one t.trips (trip_document route km departure id at) s).1
            id
          ≡ some []
    pub update_document :
        (id other : ℕ) (login : Text) (s : sv.mongo.State)
        → inserted (sv.mongo.update_one t.trips (id_filter id) (add_participant login) s).1 other
          ≡ inserted s other
    pub find_document :
        (id : ℕ) (doc : Doc) (ps : List Text) (s : sv.mongo.State)
        → inserted s id ≡ some doc
        → t.participants s id ≡ some ps
        → (found : Doc) × (sv.mongo.find_one t.trips (id_filter id) s ≡ (ok (some found), s))
          × IsUpdated sv.bson doc ps found

-- The trip as it was created, with some participants.
unfoldable pub created_trip : BsonCodec → Route → ℕ → ℕ → List Text → MongoTrip
created_trip bson route km id ps =
    let points = split_route_points route.points in
    record {
      id = bson.oid_to_string id;
      owner_login = route.owner_login;
      route_id = route.id;
      route = record {
        route_id = route.id;
        owner_login = route.owner_login;
        raw_points = if is_empty route.points then rebuild_raw [] points else route.points;
        points = points;
        distance_km = km;
      };
      status = codes "active";
      participants_logins = ps;
    }

rebuild_raw_lem :
    (raw : Text) (points : List Text)
    → rebuild_raw raw points ≡ (if is_empty raw then rebuild_raw [] points else raw)
unfolding rebuild_raw
rebuild_raw_lem [] points = refl
rebuild_raw_lem (c ∷ raw) [] = refl
rebuild_raw_lem (c ∷ raw) (p ∷ points) = refl

module _ {bson : BsonCodec} (b : ReadsFields bson) where
  -- What ParseMongoTripDocument reads from the document of a trip.
  pub parse_created :
      (route : Route) (km departure id at : ℕ) (ps : List Text) (found : Doc)
      → IsUpdated bson (trip_document route km departure id at) ps found
      → parse_mongo_trip_document bson found ≡ ok (created_trip bson route km id ps)
  unfolding parse_mongo_trip_document trip_document created_trip
  parse_created route km departure id at ps found u =
      let owner =
        u.texts_kept "owner_login" refl
        ∙ b.text_later "_id" "owner_login" _ _ refl
        ∙ b.text_here "owner_login" _ _ in
      let route_id =
        u.texts_kept "route_id" refl
        ∙ b.text_later "_id" "route_id" _ _ refl
        ∙ b.text_later "owner_login" "route_id" _ _ refl
        ∙ b.text_here "route_id" _ _ in
      let status =
        u.texts_kept "status" refl
        ∙ b.text_later "_id" "status" _ _ refl
        ∙ b.text_later "owner_login" "status" _ _ refl
        ∙ b.text_later "route_id" "status" _ _ refl
        ∙ b.text_later "route" "status" _ _ refl
        ∙ b.text_later "departure_time" "status" _ _ refl
        ∙ b.text_here "status" _ _ in
      let nested =
        u.docs_kept
        ∙ b.doc_later "_id" "route" _ _ refl
        ∙ b.doc_later "owner_login" "route" _ _ refl
        ∙ b.doc_later "route_id" "route" _ _ refl
        ∙ b.doc_here "route" _ _ in
      let tail = field "distance_km" (double km) no_fields in
      let raw =
        b.text_later "points" "raw_points" (texts (split_route_points route.points)) _ refl
        ∙ b.text_here "raw_points" route.points tail in
      let distance =
        b.double_later "points" "distance_km" (texts (split_route_points route.points)) _ refl
        ∙ b.double_later "raw_points" "distance_km" (text route.points) _ refl
        ∙ b.double_here "distance_km" km no_fields in
      rw
        (
          u.oids, b.oid_here, owner, route_id, status, u.participants, nested, b.texts_here, raw,
          distance, rebuild_raw_lem,
        )
        refl
