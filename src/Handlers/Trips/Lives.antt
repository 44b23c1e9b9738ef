-- ===== src/Handlers/Trips/Lives.antt =====
-- POST /v1/trips, and GET /v1/trips after any joins.
use sd_hw.Prelude.{ℕ, ◌≡◌, refl, sym, subst, false, none, some, List, [], Text}
use sd_hw.Models.{Route}
use sd_hw.Services.{Services}
use sd_hw.Services.Values.{Json}
use sd_hw.Services.Results.{Result, ok}
use sd_hw.Http.{Request}
use sd_hw.App.{World, mongo_of}
use sd_hw.App.Keeps.{Keeps, keeps_rules}
use sd_hw.PgStorage.{get_route_by_id}
use sd_hw.MongoStorage.{create_trip as insert_trip}
use sd_hw.MongoStorage.Joins.{TripStore}
use sd_hw.MongoStorage.Archive.{ReadsFields, TripArchive, created_trip}
use sd_hw.MongoStorage.Archive.Lives.{
  Stored, joiners, join_all, next_id, join_all-Stored, create_trip-Stored, get_trip_by_id-Stored,
}
use sd_hw.Events.{publish_trip_created}
use sd_hw.Events.Keeps.{publish_trip_created-ok}
use sd_hw.Handlers.{safe_handle, lacks_arg}
use sd_hw.Handlers.Methods.{method_rules}
use sd_hw.Handlers.Routes.{id_json}
use sd_hw.Handlers.Trips.{create_trip, handle_create_trip, get_trip, handle_get_trip, trip_json}

-- A request of a trip for a route that PostgreSQL has, in a world before it and one behind the SELECT.
pub record Asks {sv : Services} (request : Request) (route : Route) (w v : World sv) : Type 0 where
  pub json : Json
  pub route_id : Text
  pub parsed : sv.json.from_string request.body ≡ some json
  pub named : sv.json.string_field json "route_id" ≡ some route_id
  pub found : get_route_by_id route_id w ≡ (ok (some route), v)

module _ {sv : Services} where
  -- The handler asks the clock for the time of departure.
  abbrev pub departed : World sv → World sv
  departed v = record v { runtime = (sv.runtime.now v.runtime).1 }

  abbrev pub departure_of : World sv → ℕ
  departure_of v = (sv.runtime.now v.runtime).0

  publish-mongo :
      (id : Text) (route : Route) (w : World sv)
      → (publish_trip_created id route w).1.mongo ≡ w.mongo
  publish-mongo id route w =
      let keeps : Keeps mongo_of (publish_trip_created {sv = sv} id route) =
        search (method_rules, keeps_rules) depth 8 in
      keeps.at w

  -- The handler after the INSERT of the trip.
  handle_create_trip-steps :
      (request : Request) (route : Route) (w v : World sv) (id : Text)
      → Asks request route w v
      → (insert_trip route 0 (departure_of v) (departed v)).0 ≡ ok id
      → handle_create_trip request w ≡ (
        ok (sv.json.to_string (id_json id)),
        (publish_trip_created id route (insert_trip route 0 (departure_of v) (departed v)).1).1,
      )
  unfolding handle_create_trip create_trip safe_handle
  handle_create_trip-steps request route w v id a inserted =
      rw
        (
          a.parsed,
          a.named,
          a.found,
          inserted,
          publish_trip_created-ok id route (insert_trip route 0 (departure_of v) (departed v)).1,
        )
        refl

-- What a client sees of a trip: the id in the response to its creation, and later the trip.
pub record Shows {sv : Services} (t : TripStore sv) (route : Route) (joins : List (Text × Text))
    (id : ℕ) (created : Result Text × World sv) (shown : Result Text × World sv) : Type 0 where
  pub answered : created.0 ≡ ok (sv.json.to_string (id_json (sv.bson.oid_to_string id)))
  pub loaded : shown ≡ (
    ok (
        sv.json.to_string
          (trip_json (created_trip sv.bson route 0 id (joiners sv.bson id joins [])))),
    join_all joins created.1,
  )

-- With a MongoDB that answers (the laws of TripStore and TripArchive), a request of a trip for a
-- route that PostgreSQL has is answered with the id of the trip; and after any calls of JoinTrip, a
-- request for that id is answered with the trip: its id, the id of the route, and the logins that
-- have joined it, each once and in the order of their first joins. The id that the generator gives
-- must be fresh.
pub handle_get_trip-handle_create_trip :
    {sv : Services} (t : TripStore sv) (a : TripArchive t) (b : ReadsFields sv.bson)
    (request : Request) (route : Route) (w v : World sv) (joins : List (Text × Text))
    (get_request : Request)
    → Asks request route w v
    → t.participants v.mongo (next_id (departed v)) ≡ none
    → lacks_arg get_request "id" ≡ false
    → get_request.get_arg "id" ≡ sv.bson.oid_to_string (next_id (departed v))
    → Shows t route joins
        (next_id (departed v))
        (handle_create_trip request w)
        (handle_get_trip get_request (join_all joins (handle_create_trip request w).1))
unfolding handle_get_trip get_trip safe_handle
handle_get_trip-handle_create_trip {sv} t a b request route w v joins get_request asks fresh given
      same =
    let id = next_id (departed v) in
    let name = sv.bson.oid_to_string id in
    let (inserted, stored) = create_trip-Stored t a route 0 (departure_of v) (departed v) fresh in
    let made = (insert_trip route 0 (departure_of v) (departed v)).1 in
    let steps = handle_create_trip-steps request route w v name asks inserted in
    let behind = (publish_trip_created name route made).1 in
    let kept = subst (Stored t a id _ []) (sym (publish-mongo name route made)) stored in
    let joined = join_all-Stored t a joins id _ [] behind kept in
    rw steps (record {
      answered = refl;
      loaded =
          rw
            (
              given,
              same,
              get_trip_by_id-Stored t a b route 0 _ id _ _ (join_all joins behind) joined,
            )
            refl;
    })
