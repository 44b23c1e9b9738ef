-- ===== src/MongoStorage/Joins.antt =====
-- Joining a trip: what the code relies on of the collection `trips`, and what it makes of it.
use sd_hw.Prelude.{
  ℕ, ◌≡◌, refl, sym, ap, ◌∙◌, inl, inr, Bool, true, false, Option, none, some, List, [], ◌∷◌, ◌++◌,
  Text, text_eq, text_eq_refl, if◌then◌else◌, Bool-cases, Option-cases,
}
use sd_hw.Services.{Services, UpdateResult}
use sd_hw.Services.Values.{Doc}
use sd_hw.Services.Results.{Result, ok}
use sd_hw.App.{World}
use sd_hw.MongoStorage.{JoinTripResult, joined, already_joined, not_found, invalid_id, join_trip}
use sd_hw.MongoStorage.Documents.{
  id_filter, participant_filter, add_participant, parse_trip_oid_or_throw,
}

-- The login is among the logins.
unfoldable pub holds : Text → List Text → Bool
holds login [] = false
holds login (p ∷ ps) = if text_eq p login then true else holds login ps

-- The participants with one more, unless it is there: `$addToSet`.
unfoldable pub with_login : Text → List Text → List Text
with_login login ps = if holds login ps then ps else ps ++ login ∷ []

abbrev pub matched : ℕ → ℕ → UpdateResult
matched n m = record { matched_count = n; modified_count = m }

-- The documented behaviour of the collection `trips` while it answers, told through the participants
-- of each trip: a filter on an array matches an element, and `$addToSet` adds a value once.
pub record TripStore (sv : Services) : Type 0 where
  pub trips : sv.mongo.Collection
  pub participants : sv.mongo.State → ℕ → Option (List Text)
  pub get_trips : (s : sv.mongo.State) → sv.mongo.get_collection "trips" s ≡ (ok trips, s)
  pub find_missing :
      (oid : ℕ) (login : Text) (s : sv.mongo.State)
      → participants s oid ≡ none
      → sv.mongo.find_one trips (participant_filter oid login) s ≡ (ok none, s)
  pub find_other :
      (oid : ℕ) (login : Text) (ps : List Text) (s : sv.mongo.State)
      → participants s oid ≡ some ps
      → holds login ps ≡ false
      → sv.mongo.find_one trips (participant_filter oid login) s ≡ (ok none, s)
  pub find_participant :
      (oid : ℕ) (login : Text) (ps : List Text) (s : sv.mongo.State)
      → participants s oid ≡ some ps
      → holds login ps ≡ true
      → (doc : Doc) × (sv.mongo.find_one trips (participant_filter oid login) s
          ≡ (ok (some doc), s))
  pub update_missing :
      (oid : ℕ) (login : Text) (s : sv.mongo.State)
      → participants s oid ≡ none
      → sv.mongo.update_one trips (id_filter oid) (add_participant login) s ≡ (ok (matched 0 0), s)
  pub update_reply :
      (oid : ℕ) (login : Text) (ps : List Text) (s : sv.mongo.State)
      → participants s oid ≡ some ps
      → (sv.mongo.update_one trips (id_filter oid) (add_participant login) s).0
        ≡ ok (matched 1 (if holds login ps then 0 else 1))
  pub update_adds :
      (oid : ℕ) (login : Text) (ps : List Text) (s : sv.mongo.State)
      → participants s oid ≡ some ps
      → participants (sv.mongo.update_one trips (id_filter oid) (add_participant login) s).1 oid
        ≡ some (with_login login ps)
  pub update_others :
      (oid other : ℕ) (login : Text) (s : sv.mongo.State)
      → (other ≡ oid → ⊥)
      → participants (sv.mongo.update_one trips (id_filter oid) (add_participant login) s).1 other
        ≡ participants s other

-- The promise of JoinTrip: its answer, and the participants of the trip that is asked for.
unfoldable pub outcome : Text → Option (List Text) → JoinTripResult
outcome login none = not_found
outcome login (some ps) = if holds login ps then already_joined else joined

unfoldable pub joining : Text → Option (List Text) → Option (List Text)
joining login none = none
joining login (some ps) = some (with_login login ps)

module _ {sv : Services} (t : TripStore sv) where
  pub record Joins (oid : ℕ) (login : Text) (w : World sv) (r : Result JoinTripResult × World sv)
      : Type 0 where
    pub answer : r.0 ≡ ok (outcome login (t.participants w.mongo oid))
    pub trip : t.participants r.1.mongo oid ≡ joining login (t.participants w.mongo oid)
    pub others :
        (other : ℕ)
        → (other ≡ oid → ⊥)
        → t.participants r.1.mongo other ≡ t.participants w.mongo other

  Joins-missing :
      (id login : Text) (oid : ℕ) (w : World sv)
      → sv.bson.parse_oid id ≡ some oid
      → t.participants w.mongo oid ≡ none
      → Joins oid login w (join_trip id login w)
  unfolding join_trip outcome joining parse_trip_oid_or_throw
  Joins-missing id login oid w parsed e =
      rw
        (
          t.get_trips w.mongo,
          parsed,
          t.find_missing oid login w.mongo e,
          t.update_missing oid login w.mongo e,
        )
        (record { answer = rw e refl; trip = rw e refl; others = λ o ne. refl })

  Joins-participant :
      (id login : Text) (oid : ℕ) (ps : List Text) (w : World sv)
      → sv.bson.parse_oid id ≡ some oid
      → t.participants w.mongo oid ≡ some ps
      → holds login ps ≡ true
      → Joins oid login w (join_trip id login w)
  unfolding join_trip outcome joining with_login parse_trip_oid_or_throw
  Joins-participant id login oid ps w parsed e there =
      let (doc, found) = t.find_participant oid login ps w.mongo e there in
      rw (t.get_trips w.mongo, parsed, found)
        (record { answer = rw (e, there) refl; trip = rw (e, there) refl; others = λ o ne. refl })

  Joins-other :
      (id login : Text) (oid : ℕ) (ps : List Text) (w : World sv)
      → sv.bson.parse_oid id ≡ some oid
      → t.participants w.mongo oid ≡ some ps
      → holds login ps ≡ false
      → Joins oid login w (join_trip id login w)
  unfolding join_trip outcome joining parse_trip_oid_or_throw
  Joins-other id login oid ps w parsed e new =
      rw
        (
          t.get_trips w.mongo,
          parsed,
          t.find_other oid login ps w.mongo e new,
          t.update_reply oid login ps w.mongo e,
          new,
        )
        (record {
          answer = rw (e, new) refl;
          trip = t.update_adds oid login ps w.mongo e ∙ ap (joining login) (sym e);
          others = λ o ne. t.update_others oid o login w.mongo ne;
        })

  -- With a MongoDB that answers (the laws of TripStore), for an id that names an object, the answer
  -- says whether the trip is missing, had the login, or has got it now; its participants are then
  -- those from before with the login added once, and the other trips are as before.
  pub join_trip-Joins :
      (id login : Text) (oid : ℕ) (w : World sv)
      → sv.bson.parse_oid id ≡ some oid
      → Joins oid login w (join_trip id login w)
  join_trip-Joins id login oid w parsed = elim (Option-cases (t.participants w.mongo oid)) [
    | inl e ↦ Joins-missing id login oid w parsed e
    | inr (ps, e) ↦ elim (Bool-cases (holds login ps)) [
      | inl there ↦ Joins-participant id login oid ps w parsed e there
      | inr new ↦ Joins-other id login oid ps w parsed e new
    ]
  ]

  pub join_trip-invalid :
      (id login : Text) (w : World sv)
      → sv.bson.parse_oid id ≡ none
      → join_trip id login w ≡ (ok invalid_id, w)
  unfolding join_trip parse_trip_oid_or_throw
  join_trip-invalid id login w unparsed = rw (t.get_trips w.mongo, unparsed) refl

holds-append : (login : Text) (ps : List Text) → holds login (ps ++ login ∷ []) ≡ true
unfolding holds
holds-append login [] = rw (text_eq_refl login) refl
holds-append login (p ∷ ps) = elim (Bool-cases (text_eq p login)) [
  | inl e ↦ rw e refl
  | inr e ↦ rw e (holds-append login ps)
]

-- A login that has joined is among the participants, and its next join changes nothing.
pub holds-with_login : (login : Text) (ps : List Text) → holds login (with_login login ps) ≡ true
unfolding with_login
holds-with_login login ps = elim (Bool-cases (holds login ps)) [
  | inl e ↦ rw e e
  | inr e ↦ rw e (holds-append login ps)
]
