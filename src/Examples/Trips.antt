-- ===== src/Examples/Trips.antt =====
-- The trips of the fixture, and the theorems on joins at a request.
use sd_hw.Prelude.{
  ℕ, ◌==◌, ◌≡◌, refl, subst, ap, inl, inr, false, Option, none, some, List, [], ◌∷◌, Text, codes,
  arith, Bool-cases,
}
use sd_hw.Services.Values.{no_fields}
use sd_hw.Http.{Request}
use sd_hw.App.{World}
use sd_hw.MongoStorage.{join_trip}
use sd_hw.MongoStorage.Joins.{TripStore, Joins, with_login, join_trip-Joins}
use sd_hw.MongoStorage.Documents.{id_filter, participant_filter, add_participant}
use sd_hw.MongoStorage.Participants.{AllDistinct, Distinct, nobody, join_trip-AllDistinct}
use sd_hw.Handlers.Joins.{Repeats, handle_add_user_to_trip-Repeats}
use sd_hw.Handlers.Trips.{handle_add_user_to_trip}
use sd_hw.Examples.Documents.{StoredTrip, trip_at, join, find, update}
use sd_hw.Examples.Fixture.{fixture, start, request}

abbrev people : Option StoredTrip → Option (List Text)
people none = none
people (some t) = some t.participants

pub no_trip : (o : Option StoredTrip) → people o ≡ none → o ≡ none
no_trip none e = refl
no_trip (some t) e = absurd cc

pub a_trip :
    (o : Option StoredTrip) (ps : List Text)
    → people o ≡ some ps
    → (t : StoredTrip) × (o ≡ some t) × (t.participants ≡ ps)
a_trip none ps e = absurd cc
a_trip (some t) ps e = (t, refl, cc)

pub join-missing :
    (id : ℕ) (login : Text) (trips : List StoredTrip)
    → trip_at id trips ≡ none
    → join id login trips ≡ trips
join-missing id login [] e = refl
join-missing id login (t ∷ trips) e = elim (Bool-cases (t.id == id)) [
  | inl here ↦ cc (rw here at e)
  | inr there ↦ rw there (ap (◌∷◌ t) (join-missing id login trips (rw there at e)))
]

pub trip_at-join :
    (id : ℕ) (login : Text) (ps : List Text) (trips : List StoredTrip)
    → people (trip_at id trips) ≡ some ps
    → people (trip_at id (join id login trips)) ≡ some (with_login login ps)
trip_at-join id login ps [] e = cc
trip_at-join id login ps (t ∷ trips) e = elim (Bool-cases (t.id == id)) [
  | inl here ↦
      let same : some t.participants ≡ some ps = (rw here at e) in
      rw (here, here) (ap (λ l. some (with_login login l)) (cc same))
  | inr there ↦ rw (there, there) (trip_at-join id login ps trips (rw there at e))
]

pub trip_at-join_other :
    (id other : ℕ) (login : Text) (trips : List StoredTrip)
    → (other ≡ id → ⊥)
    → people (trip_at other (join id login trips)) ≡ people (trip_at other trips)
trip_at-join_other id other login [] ne = refl
trip_at-join_other id other login (t ∷ trips) ne = elim (Bool-cases (t.id == id)) [
  | inl here ↦ let away : (t.id == other) ≡ false = ground arith in rw (here, away) refl
  | inr there ↦ elim (Bool-cases (t.id == other)) [
    | inl e ↦ rw (there, e) refl
    | inr e ↦ rw (there, e) (trip_at-join_other id other login trips ne)
  ]
]

unfoldable pub trips : TripStore fixture
unfolding find update id_filter participant_filter add_participant
trips = record {
  trips = "trips";
  participants = λ s oid. people (trip_at oid s.trips);
  get_trips = λ s. refl;
  find_missing = λ oid login s e. rw (no_trip (trip_at oid s.trips) e) refl;
  find_other = λ oid login ps s e new.
      let (t, at, is) = a_trip (trip_at oid s.trips) ps e in rw (at, is, new) refl;
  find_participant = λ oid login ps s e there.
      let (t, at, is) = a_trip (trip_at oid s.trips) ps e in rw (at, is, there) (_, refl);
  update_missing = λ oid login s e.
      let missing = no_trip (trip_at oid s.trips) e in
      rw (missing, join-missing oid login s.trips missing) refl;
  update_reply =
      λ oid login ps s e. let (t, at, is) = a_trip (trip_at oid s.trips) ps e in rw (at, is) refl;
  update_adds = λ oid login ps s e. trip_at-join oid login ps s.trips e;
  update_others = λ oid other login s ne. trip_at-join_other oid other login s.trips ne;
}

abbrev pub join_request : Request
join_request = record request { body = codes "{a" }

abbrev pub with_trip : World fixture
with_trip = record start {
  mongo = record {
    tokens = [];
    trips = record { id = 97; participants = []; fields = no_fields } ∷ [];
  };
}

with_trip-AllDistinct : AllDistinct trips with_trip.mongo
unfolding trips
with_trip-AllDistinct = record {
  at = λ oid ps e. elim (Bool-cases (97 == oid)) [
    | inl h ↦ let same : some [] ≡ some ps = (rw h at e) in subst Distinct (cc same) nobody
    | inr h ↦ let none_there : none ≡ some ps = (rw h at e) in cc none_there
  ];
}

join_trip-AllDistinct_example :
    AllDistinct trips (join_trip {sv = fixture} (codes "a") (codes "alice") with_trip).1.mongo
join_trip-AllDistinct_example =
    join_trip-AllDistinct trips (codes "a") (codes "alice") with_trip with_trip-AllDistinct

abbrev after_join : World fixture
after_join = (handle_add_user_to_trip join_request with_trip).1

handle_add_user_to_trip-Repeats_example :
    Repeats trips after_join (handle_add_user_to_trip join_request after_join)
handle_add_user_to_trip-Repeats_example =
    handle_add_user_to_trip-Repeats trips join_request with_trip after_join refl

join_trip-Joins_example :
    Joins trips 97 (codes "alice") with_trip (join_trip (codes "a") (codes "alice") with_trip)
join_trip-Joins_example = join_trip-Joins trips (codes "a") (codes "alice") 97 with_trip refl
