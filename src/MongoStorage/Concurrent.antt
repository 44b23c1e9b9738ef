-- ===== src/MongoStorage/Concurrent.antt =====
-- Calls of JoinTrip at the same time. A call asks MongoDB twice, to look for the login among the
-- participants and to add it, and MongoDB answers each question in one step; between the two questions of
-- a call there may be any number of steps of others.
pub mod Once
use sd_hw.Prelude.{
  ℕ, ◌≡◌, refl, ap, inl, inr, Option, none, some, List, [], ◌∷◌, ◌++◌, Text, Bool-cases,
  Option-cases,
}
use sd_hw.Services.{Services, UpdateResult}
use sd_hw.Services.Values.{Doc}
use sd_hw.Services.Results.{Result, ok, err, json_error, invalid_argument, failure, Result-cases}
use sd_hw.App.{World}
use sd_hw.MongoStorage.{JoinTripResult, already_joined, invalid_id, error, joined_by, join_trip}
use sd_hw.MongoStorage.Documents.{
  id_filter, participant_filter, add_participant, parse_trip_oid_or_throw,
}
use sd_hw.MongoStorage.Joins.{TripStore}

-- What a call makes of the first answer: its own answer, or the second question.
unfoldable pub after_look : Result (Option Doc) → Option JoinTripResult
after_look (ok (some existing)) = some already_joined
after_look (ok none) = none
after_look (err invalid_argument) = some invalid_id
after_look (err _) = some error

unfoldable pub after_change : Result UpdateResult → JoinTripResult
after_change (ok result) = joined_by result
after_change (err invalid_argument) = invalid_id
after_change (err _) = error

module _ {sv : Services} (t : TripStore sv) where
  abbrev pub look : ℕ → Text → sv.mongo.State → Result (Option Doc) × sv.mongo.State
  look oid login s = sv.mongo.find_one t.trips (participant_filter oid login) s

  abbrev pub change : ℕ → Text → sv.mongo.State → Result UpdateResult × sv.mongo.State
  change oid login s = sv.mongo.update_one t.trips (id_filter oid) (add_participant login) s

  abbrev go_on : Option JoinTripResult → ℕ → Text → sv.mongo.State → JoinTripResult × sv.mongo.State
  go_on (some answer) oid login s = (answer, s)
  go_on none oid login s = (after_change (change oid login s).0, (change oid login s).1)

  -- A call alone is its two steps, one after the other.
  pub join_trip-look-change :
      (id login : Text) (oid : ℕ) (w : World sv)
      → sv.bson.parse_oid id ≡ some oid
      → let (found, s) = look oid login w.mongo in
        let (answer, s') = go_on (after_look found) oid login s in
        join_trip id login w ≡ (ok answer, record w { mongo = s' })
  unfolding join_trip parse_trip_oid_or_throw after_look after_change
  join_trip-look-change id login oid w parsed = elim (Result-cases (look oid login w.mongo).0) [
    | inl (some existing, e) ↦ rw (t.get_trips w.mongo, parsed, e) refl
    | inl (none, e) ↦ elim (Result-cases (change oid login (look oid login w.mongo).1).0) [
      | inl (result, c) ↦ rw (t.get_trips w.mongo, parsed, e, c) refl
      | inr (json_error, c) ↦ rw (t.get_trips w.mongo, parsed, e, c) refl
      | inr (invalid_argument, c) ↦ rw (t.get_trips w.mongo, parsed, e, c) refl
      | inr (failure, c) ↦ rw (t.get_trips w.mongo, parsed, e, c) refl
    ]
    | inr (json_error, e) ↦ rw (t.get_trips w.mongo, parsed, e) refl
    | inr (invalid_argument, e) ↦ rw (t.get_trips w.mongo, parsed, e) refl
    | inr (failure, e) ↦ rw (t.get_trips w.mongo, parsed, e) refl
  ]

  -- The database, the calls that are between their steps, and the answers of those that have ended.
  pub record System : Type 0 where
    pub store : sv.mongo.State
    pub looked : List (ℕ × Text)
    pub answers : List (ℕ × (Text × JoinTripResult))

  abbrev pub begin : sv.mongo.State → System
  begin s = record { store = s; looked = []; answers = [] }

  pub data Step (s : System) : System → Type 0 where
    finds :
        (oid : ℕ) (login : Text) (answer : JoinTripResult)
        → after_look (look oid login s.store).0 ≡ some answer
        → Step s (record {
          store = (look oid login s.store).1;
          looked = s.looked;
          answers = (oid, (login, answer)) ∷ s.answers;
        })
    misses :
        (oid : ℕ) (login : Text)
        → after_look (look oid login s.store).0 ≡ none
        → Step s (record s { store = (look oid login s.store).1; looked = (oid, login) ∷ s.looked })
    changes :
        (oid : ℕ) (login : Text) (before after : List (ℕ × Text))
        → s.looked ≡ before ++ (oid, login) ∷ after
        → Step s (record {
          store = (change oid login s.store).1;
          looked = before ++ after;
          answers = (oid, (login, after_change (change oid login s.store).0)) ∷ s.answers;
        })

  pub data Reaches (s : System) : System → Type 0 where
    here : Reaches s s
    later : (u v : System) → Reaches s u → Step u v → Reaches s v
