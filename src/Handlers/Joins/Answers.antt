-- ===== src/Handlers/Joins/Answers.antt =====
-- POST /v1/trips/add-user: what each answer means.
use sd_hw.Prelude.{ℕ, ◌≡◌, refl, ap, ◌∙◌, inl, inr, Option, none, some, Text, Option-cases}
use sd_hw.Services.{Services}
use sd_hw.Services.Values.{Json}
use sd_hw.Services.Results.{Result, ok}
use sd_hw.Http.{Request}
use sd_hw.App.{World, status_of, rabbit_of, try}
use sd_hw.App.Keeps.{Keeps, keeps_rules}
use sd_hw.MongoStorage.{
  JoinTripResult, joined, already_joined, not_found, invalid_id, error, join_trip,
}
use sd_hw.MongoStorage.Joins.{TripStore, outcome, join_trip-Joins, join_trip-invalid}
use sd_hw.Events.{publish_trip_participant_joined}
use sd_hw.Events.Keeps.{publish_trip_participant_joined-ok}
use sd_hw.Handlers.{safe_handle, on_exception}
use sd_hw.Handlers.Methods.{method_rules}
use sd_hw.Handlers.Bodies.{status_ok, trip_not_found, bad_request, internal_server_error}
use sd_hw.Handlers.Trips.{add_user_to_trip, answer_join, handle_add_user_to_trip}

-- The response to each outcome.
abbrev pub join_body : JoinTripResult → Text
join_body joined = status_ok
join_body already_joined = status_ok
join_body not_found = trip_not_found
join_body invalid_id = bad_request
join_body error = internal_server_error

abbrev pub join_status : JoinTripResult → ℕ → ℕ
join_status joined status = status
join_status already_joined status = status
join_status not_found status = 404
join_status invalid_id status = 400
join_status error status = 500

module _ (sv : Services) where
  -- The request names a trip and a login.
  pub record AsksJoin (request : Request) (id login : Text) : Type 0 where
    pub json : Json
    pub parsed : sv.json.from_string request.body ≡ some json
    pub id_read : sv.json.string_field json "trip_id" ≡ some id
    pub login_read : sv.json.string_field json "login" ≡ some login

module _ {sv : Services} where
  -- The outcome that the participants of the trip call for.
  abbrev pub due : TripStore sv → Text → World sv → Option ℕ → JoinTripResult
  due t login w none = invalid_id
  due t login w (some oid) = outcome login (t.participants w.mongo oid)

  -- The broker behind it: the event is sent if the login has joined now.
  abbrev pub told : Text → Text → World sv → JoinTripResult → World sv → sv.rabbit.State
  told id login w joined v = (publish_trip_participant_joined id login v).1.rabbit
  told id login w _ v = w.rabbit

  pub record Answers (id login : Text) (result : JoinTripResult) (w v : World sv)
      (r : Result Text × World sv) : Type 0 where
    pub body : r.0 ≡ ok (join_body result)
    pub status : r.1.response.status ≡ join_status result w.response.status
    pub sent : r.1.rabbit ≡ told id login w result v
    pub mongo_kept : r.1.mongo ≡ v.mongo

  answered :
      (id login : Text) (result : JoinTripResult) (w v : World sv)
      → v.response.status ≡ w.response.status
      → v.rabbit ≡ w.rabbit
      → Answers id login result w v (try (answer_join id login result) on_exception v)
  unfolding answer_join
  answered id login joined w v s b =
      let quiet : Keeps status_of (publish_trip_participant_joined {sv = sv} id login) =
        search (method_rules, keeps_rules) depth 8 in
      let kept : Keeps (λ x. x.mongo) (publish_trip_participant_joined {sv = sv} id login) =
        search (method_rules, keeps_rules) depth 8 in
      rw (publish_trip_participant_joined-ok id login v)
        (record { body = refl; status = quiet.at v ∙ s; sent = refl; mongo_kept = kept.at v })
  answered id login already_joined w v s b = record {
    body = refl;
    status = s;
    sent = b;
    mongo_kept = refl;
  }
  answered id login not_found w v s b = record {
    body = refl;
    status = refl;
    sent = b;
    mongo_kept = refl;
  }
  answered id login invalid_id w v s b = record {
    body = refl;
    status = refl;
    sent = b;
    mongo_kept = refl;
  }
  answered id login error w v s b = record {
    body = refl;
    status = refl;
    sent = b;
    mongo_kept = refl;
  }

  asked :
      (request : Request) (id login : Text) (result : JoinTripResult) (w : World sv)
      → AsksJoin sv request id login
      → (join_trip id login w).0 ≡ ok result
      → Answers id login result w (join_trip id login w).1 (handle_add_user_to_trip request w)
  unfolding handle_add_user_to_trip add_user_to_trip safe_handle
  asked request id login result w asks e =
      let status : Keeps status_of (join_trip {sv = sv} id login) =
        search (method_rules, keeps_rules) depth 8 in
      let rabbit : Keeps rabbit_of (join_trip {sv = sv} id login) =
        search (method_rules, keeps_rules) depth 8 in
      rw (asks.parsed, asks.id_read, asks.login_read, e)
        (answered id login result w (join_trip id login w).1 (status.at w) (rabbit.at w))

-- With a MongoDB that answers (the laws of TripStore), a request that names a trip and a login is
-- answered with "ok" if the login has joined the trip now or before, with 404 if there is no such
-- trip, and with 400 if the text names no object; the event is sent if the login has joined now,
-- and otherwise the broker is as before; and MongoDB is as JoinTrip has left it.
pub handle_add_user_to_trip-Answers :
    {sv : Services} (t : TripStore sv) (request : Request) (id login : Text) (w : World sv)
    → AsksJoin sv request id login
    → Answers id login
        (due t login w (sv.bson.parse_oid id))
        w
        (join_trip id login w).1
        (handle_add_user_to_trip request w)
handle_add_user_to_trip-Answers {sv} t request id login w asks =
    elim (Option-cases (sv.bson.parse_oid id)) [
      | inl e ↦ rw e (
          asked request id login invalid_id w asks
            (ap (λ x. x.0) (join_trip-invalid t id login w e)))
      | inr (oid, e) ↦ rw e (
          asked request id login (outcome login (t.participants w.mongo oid)) w asks
            (join_trip-Joins t id login oid w e).answer)
    ]
