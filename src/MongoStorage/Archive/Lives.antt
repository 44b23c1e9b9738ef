-- ===== src/MongoStorage/Archive/Lives.antt =====
-- GetTripById after CreateTrip and any calls of JoinTrip.
use sd_hw.Prelude.{
  ℕ, ◌==◌, ◌≡◌, refl, sym, ap, ◌∙◌, ◌⊎◌, inl, inr, Bool, false, Option, none, some, List, [], ◌∷◌,
  Text, arith, if◌then◌else◌, Bool-cases, Option-cases,
}
use sd_hw.Models.{Route}
use sd_hw.Services.{Services, BsonCodec}
use sd_hw.Services.Values.{Doc}
use sd_hw.Services.Results.{ok}
use sd_hw.App.{World}
use sd_hw.MongoStorage.{join_trip, create_trip, get_trip_by_id}
use sd_hw.MongoStorage.Documents.{
  trip_document, id_filter, add_participant, parse_trip_oid_or_throw,
}
use sd_hw.MongoStorage.Joins.{
  TripStore, joining, with_login, holds, join_trip-Joins, join_trip-invalid,
}
use sd_hw.MongoStorage.Archive.{ReadsFields, TripArchive, created_trip, parse_created}

abbrev names_trip : Option ℕ → ℕ → Bool
names_trip none id = false
names_trip (some n) id = n == id

-- The participants after calls of JoinTrip, each with the text of an id and a login.
unfoldable pub joiners : BsonCodec → ℕ → List (Text × Text) → List Text → List Text
joiners bson id [] ps = ps
joiners bson id ((trip_id, login) ∷ joins) ps =
    let here = names_trip (bson.parse_oid trip_id) id in
    joiners bson id joins (if here then with_login login ps else ps)

module _ {sv : Services} where
  unfoldable pub join_all : List (Text × Text) → World sv → World sv
  join_all [] w = w
  join_all ((trip_id, login) ∷ joins) w = join_all joins (join_trip trip_id login w).1

  -- The id that CreateTrip makes next.
  abbrev pub next_id : World sv → ℕ
  next_id w = (sv.runtime.new_oid (sv.runtime.now w.runtime).1).0

module _ {sv : Services} (t : TripStore sv) (a : TripArchive t) where
  -- The trip stands in the collection as it was inserted, with some participants.
  pub record Stored (id : ℕ) (doc : Doc) (ps : List Text) (s : sv.mongo.State) : Type 0 where
    pub inserted : a.inserted s id ≡ some doc
    pub participants : t.participants s id ≡ some ps

  -- A join changes MongoDB by at most one update.
  join_trip-updates :
      (trip_id login : Text) (n : ℕ) (w : World sv)
      → sv.bson.parse_oid trip_id ≡ some n
      → ((join_trip trip_id login w).1.mongo ≡ w.mongo)
        ⊎ ((join_trip trip_id login w).1.mongo
            ≡ (sv.mongo.update_one t.trips (id_filter n) (add_participant login) w.mongo).1)
  unfolding join_trip parse_trip_oid_or_throw
  join_trip-updates trip_id login n w parsed = elim (Option-cases (t.participants w.mongo n)) [
    | inl e ↦
        rw
          (
            t.get_trips w.mongo,
            parsed,
            t.find_missing n login w.mongo e,
            t.update_missing n login w.mongo e,
          )
          (inl refl)
    | inr (ps, e) ↦ elim (Bool-cases (holds login ps)) [
      | inl there ↦
          let (doc, found) = t.find_participant n login ps w.mongo e there in
          rw (t.get_trips w.mongo, parsed, found) (inl refl)
      | inr new ↦
          rw
            (
              t.get_trips w.mongo,
              parsed,
              t.find_other n login ps w.mongo e new,
              t.update_reply n login ps w.mongo e,
            )
            (inr refl)
    ]
  ]

  join_trip-inserted :
      (trip_id login : Text) (n id : ℕ) (w : World sv)
      → sv.bson.parse_oid trip_id ≡ some n
      → a.inserted (join_trip trip_id login w).1.mongo id ≡ a.inserted w.mongo id
  join_trip-inserted trip_id login n id w parsed =
      elim (join_trip-updates trip_id login n w parsed) [
        | inl same ↦ ap (λ s. a.inserted s id) same
        | inr updated ↦ ap (λ s. a.inserted s id) updated ∙ a.update_document n id login w.mongo
      ]

  join_trip-Stored :
      (trip_id login : Text) (id : ℕ) (doc : Doc) (ps : List Text) (w : World sv)
      → Stored id doc ps w.mongo
      → Stored id doc
          (if names_trip (sv.bson.parse_oid trip_id) id then with_login login ps else ps)
          (join_trip trip_id login w).1.mongo
  unfolding joining
  join_trip-Stored trip_id login id doc ps w h = elim (Option-cases (sv.bson.parse_oid trip_id)) [
    | inl unparsed ↦ rw (join_trip-invalid t trip_id login w unparsed, unparsed) h
    | inr (n, parsed) ↦
        let joins = join_trip-Joins t trip_id login n w parsed in
        let kept = join_trip-inserted trip_id login n id w parsed ∙ h.inserted in
        rw parsed (elim (Bool-cases (n == id)) [
          | inl here ↦
              let same : n ≡ id = ground arith in
              rw here (record {
                inserted = kept;
                participants =
                    ap (t.participants _) (sym same)
                    ∙ joins.trip
                    ∙ ap (joining login) (ap (t.participants w.mongo) same ∙ h.participants);
              })
          | inr other ↦ rw other (record {
            inserted = kept;
            participants = joins.others id (ground arith) ∙ h.participants;
          })
        ])
  ]

  pub join_all-Stored :
      (joins : List (Text × Text)) (id : ℕ) (doc : Doc) (ps : List Text) (w : World sv)
      → Stored id doc ps w.mongo
      → Stored id doc (joiners sv.bson id joins ps) (join_all joins w).mongo
  unfolding joiners join_all
  join_all-Stored [] id doc ps w h = h
  join_all-Stored ((trip_id, login) ∷ joins) id doc ps w h =
      join_all-Stored joins id doc _ _ (join_trip-Stored trip_id login id doc ps w h)

  pub create_trip-Stored :
      (route : Route) (km departure : ℕ) (w : World sv)
      → t.participants w.mongo (next_id w) ≡ none
      → ((create_trip route km departure w).0 ≡ ok (sv.bson.oid_to_string (next_id w)))
        × Stored
            (next_id w)
            (trip_document route km departure (next_id w) (sv.runtime.now w.runtime).0)
            []
            (create_trip route km departure w).1.mongo
  unfolding create_trip
  create_trip-Stored route km departure w fresh =
      let id = next_id w in
      let at = (sv.runtime.now w.runtime).0 in
      rw (t.get_trips w.mongo, a.insert_reply route km departure id at w.mongo fresh)
        (
          refl,
          record {
            inserted = a.insert_document route km departure id at w.mongo fresh;
            participants = a.insert_participants route km departure id at w.mongo fresh;
          },
        )

  pub get_trip_by_id-Stored :
      (b : ReadsFields sv.bson) (route : Route) (km departure id at : ℕ) (ps : List Text)
      (w : World sv)
      → Stored id (trip_document route km departure id at) ps w.mongo
      → get_trip_by_id (sv.bson.oid_to_string id) w
        ≡ (ok (some (created_trip sv.bson route km id ps)), w)
  unfolding get_trip_by_id parse_trip_oid_or_throw
  get_trip_by_id-Stored b route km departure id at ps w h =
      let (doc, found, updated) = a.find_document id _ ps w.mongo h.inserted h.participants in
      rw
        (
          b.oid_again id,
          t.get_trips w.mongo,
          found,
          parse_created b route km departure id at ps doc updated,
        )
        refl
