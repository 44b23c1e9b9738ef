-- ===== src/Examples/Lives.antt =====
-- The documents of the fixture, and the theorems on trips from their creation on.
use package.text.Mathlib.Text.{◌==◌ as str_eq}
use package.text.Mathlib.TextEquality.{eq_iff}
use sd_hw.Prelude.{
  ℕ, ◌==◌, ◌≡◌, refl, ap, inl, inr, true, Option, none, some, List, [], ◌∷◌, Text, String, codes,
  arith, Bool-cases, text_eq,
}
use sd_hw.Models.{Route}
use sd_hw.Services.Values.{Doc}
use sd_hw.Services.Results.{ok}
use sd_hw.Http.{Request}
use sd_hw.App.{World}
use sd_hw.PgStorage.{get_route_by_id}
use sd_hw.PgStorage.Queries.{select_route}
use sd_hw.PgStorage.Rows.{first_row, read_route}
use sd_hw.MongoStorage.Joins.{with_login, holds}
use sd_hw.MongoStorage.Documents.{trip_document, id_filter, add_participant}
use sd_hw.MongoStorage.Archive.{ReadsFields, TripArchive}
use sd_hw.MongoStorage.Archive.Lives.{joiners, join_all}
use sd_hw.Handlers.Trips.{handle_create_trip, handle_get_trip}
use sd_hw.Handlers.Trips.Lives.{Asks, Shows, handle_get_trip-handle_create_trip}
use sd_hw.Examples.Database.{answer}
use sd_hw.Examples.Documents.{
  StoredTrip, trip_at, trip_doc, join, insert, find, update, value_of, bson_codec,
}
use sd_hw.Examples.Trips.{trips}
use sd_hw.Examples.Fixture.{fixture, start, request}

str_eq_refl : (s : String) → str_eq s s ≡ true
str_eq_refl s = (eq_iff s s).1 refl

reads_fields : ReadsFields bson_codec
unfolding value_of
reads_fields = record {
  oid_here = λ name n rest. rw (str_eq_refl name) refl;
  text_here = λ name v rest. rw (str_eq_refl name) refl;
  text_later = λ key name v rest other. rw other refl;
  texts_here = λ name v rest. rw (str_eq_refl name) refl;
  double_here = λ name v rest. rw (str_eq_refl name) refl;
  double_later = λ key name v rest other. rw other refl;
  doc_here = λ name v rest. rw (str_eq_refl name) refl;
  doc_later = λ key name v rest other. rw other refl;
  oid_again = λ n. refl;
}

abbrev fields_of : Option StoredTrip → Option Doc
fields_of none = none
fields_of (some t) = some t.fields

fields_of-join :
    (id other : ℕ) (login : Text) (ts : List StoredTrip)
    → fields_of (trip_at other (join id login ts)) ≡ fields_of (trip_at other ts)
fields_of-join id other login [] = refl
fields_of-join id other login (t ∷ ts) = elim (Bool-cases (t.id == id)) [
  | inl here ↦ elim (Bool-cases (t.id == other)) [
    | inl e ↦ rw (here, e) refl
    | inr e ↦ rw (here, e) refl
  ]
  | inr there ↦ elim (Bool-cases (t.id == other)) [
    | inl e ↦ rw (there, e) refl
    | inr e ↦ rw (there, e) (fields_of-join id other login ts)
  ]
]

the_trip :
    (o : Option StoredTrip) (doc : Doc)
    → fields_of o ≡ some doc
    → (t : StoredTrip) × (o ≡ some t) × (t.fields ≡ doc)
the_trip none doc e = absurd cc
the_trip (some t) doc e = (t, refl, cc)

same_id : (id : ℕ) → (id == id) ≡ true
same_id id = ground arith

archive : TripArchive trips
unfolding trips insert find update id_filter add_participant trip_document value_of
archive = record {
  inserted = λ s id. fields_of (trip_at id s.trips);
  insert_reply = λ route km departure id at s fresh. refl;
  insert_document = λ route km departure id at s fresh. rw (same_id id) refl;
  insert_participants = λ route km departure id at s fresh. rw (same_id id) refl;
  update_document = λ id other login s. fields_of-join id other login s.trips;
  find_document = λ id doc ps s stored joined.
      let (t, at, is) = the_trip (trip_at id s.trips) doc stored in
      let same : some t.participants ≡ some ps = (rw at at joined) in
      rw at (
        trip_doc t,
        refl,
        record {
          participants = ap ok (cc same);
          oids = rw is refl;
          texts_kept = λ name other. rw (other, is) refl;
          docs_kept = rw is refl;
        },
      );
}

abbrev tour : Route
tour = record { id = codes "alice"; owner_login = codes "bob"; points = codes "Moscow, Tver" }

-- Two joins of one login and one of another, and one of another trip.
abbrev joins : List (Text × Text)
joins =
    (7 ∷ [], codes "carol")
    ∷ (7 ∷ [], codes "dave")
    ∷ (8 ∷ [], codes "eve")
    ∷ (7 ∷ [], codes "carol")
    ∷ []

joiners_test : joiners bson_codec 7 joins [] ≡ codes "carol" ∷ codes "dave" ∷ []
unfolding joiners with_login holds text_eq
joiners_test = refl

abbrev with_tour : World fixture
with_tour = record start { pg = record { users = []; routes = tour ∷ []; next_route = 2 } }

asks : Asks request tour with_tour with_tour
unfolding get_route_by_id select_route answer text_eq first_row read_route
asks = record { json = _; route_id = codes "alice"; parsed = refl; named = refl; found = refl }

abbrev get_request : Request
get_request = record request { get_arg = λ name. 7 ∷ [] }

handle_get_trip-handle_create_trip_example :
    Shows trips tour joins 7
      (handle_create_trip request with_tour)
      (handle_get_trip get_request (join_all joins (handle_create_trip request with_tour).1))
unfolding trips archive
handle_get_trip-handle_create_trip_example =
    handle_get_trip-handle_create_trip trips archive reads_fields request tour with_tour with_tour
      joins get_request asks refl refl refl
