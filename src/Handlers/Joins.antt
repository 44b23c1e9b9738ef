-- ===== src/Handlers/Joins.antt =====
-- POST /v1/trips/add-user, once and again.
pub mod Answers
use sd_hw.Prelude.{
  ℕ, arith, ◌==◌, ◌≡◌, refl, sym, subst, ap, ◌∙◌, ◌⊎◌, inl, inr, true, Option, none, some, Text,
  Bool-cases, Option-cases, List,
}
use sd_hw.Services.{Services}
use sd_hw.Services.Values.{Json}
use sd_hw.Services.Results.{Exn, json_error, invalid_argument, failure, Result, ok}
use sd_hw.Http.{Request}
use sd_hw.App.{World, try, mongo_of, rabbit_of}
use sd_hw.App.Keeps.{Keeps, Keeps-try, keeps_rules}
use sd_hw.MongoStorage.{JoinTripResult, joined, already_joined, not_found, invalid_id, join_trip}
use sd_hw.MongoStorage.Keeps.{join_trip-Keeps}
use sd_hw.MongoStorage.Joins.{
  TripStore, with_login, outcome, joining, join_trip-Joins, join_trip-invalid, holds-with_login,
}
use sd_hw.Handlers.{safe_handle, on_exception}
use sd_hw.Handlers.Methods.{method_rules}
use sd_hw.Handlers.Trips.{add_user_to_trip, answer_join, handle_add_user_to_trip}

-- After a join, the next one of the same login finds it there or finds no trip.
outcome-joining :
    (login : Text) (o : Option (List Text))
    → (outcome login (joining login o) ≡ already_joined)
      ⊎ (outcome login (joining login o) ≡ not_found)
unfolding outcome joining
outcome-joining login none = inr refl
outcome-joining login (some ps) = inl (rw (holds-with_login login ps) refl)

joining-joining :
    (login : Text) (o : Option (List Text)) → joining login (joining login o) ≡ joining login o
unfolding joining with_login
joining-joining login none = refl
joining-joining login (some ps) = rw (holds-with_login login ps) refl

-- The request is handled with no event, and with every trip as before.
pub record Repeats {sv : Services} (t : TripStore sv) (v : World sv) (r : Result Text × World sv)
    : Type 0 where
  pub silent : r.1.rabbit ≡ v.rabbit
  pub trips_kept : (oid : ℕ) → t.participants r.1.mongo oid ≡ t.participants v.mongo oid

module _ {sv : Services} where
  answer_join-Keeps_mongo :
      (id login : Text) (result : JoinTripResult)
      → Keeps (mongo_of {sv = sv}) (answer_join id login result)
  unfolding answer_join
  answer_join-Keeps_mongo id login joined = search (method_rules, keeps_rules) depth 8
  answer_join-Keeps_mongo id login _ = search keeps_rules depth 8

  on_exception-Keeps_mongo : (e : Exn) → Keeps (mongo_of {sv = sv}) (on_exception e)
  unfolding on_exception
  on_exception-Keeps_mongo json_error = search keeps_rules
  on_exception-Keeps_mongo invalid_argument = search keeps_rules
  on_exception-Keeps_mongo failure = search keeps_rules

  answered-Keeps_mongo :
      (id login : Text) (result : JoinTripResult)
      → Keeps (mongo_of {sv = sv}) (try (answer_join id login result) on_exception)
  answered-Keeps_mongo id login result =
      Keeps-try _ on_exception (answer_join-Keeps_mongo id login result) on_exception-Keeps_mongo

  already_joined_quiet :
      (id login : Text)
      → Keeps (rabbit_of {sv = sv}) (try (answer_join id login already_joined) on_exception)
  unfolding answer_join
  already_joined_quiet id login = record { at = λ w. refl }

  not_found_quiet :
      (id login : Text)
      → Keeps (rabbit_of {sv = sv}) (try (answer_join id login not_found) on_exception)
  unfolding answer_join
  not_found_quiet id login = record { at = λ w. refl }

  invalid_id_quiet :
      (id login : Text)
      → Keeps (rabbit_of {sv = sv}) (try (answer_join id login invalid_id) on_exception)
  unfolding answer_join
  invalid_id_quiet id login = record { at = λ w. refl }

of_eq : (m n : ℕ) → (m == n) ≡ true → m ≡ n
of_eq m n e = ground arith

module _ {sv : Services} (t : TripStore sv) (request : Request) (id login : Text) (json : Json)
    (parsed : sv.json.from_string request.body ≡ some json)
    (id_read : sv.json.string_field json "trip_id" ≡ some id)
    (login_read : sv.json.string_field json "login" ≡ some login) where
  joined_mongo :
      (result : JoinTripResult) (w : World sv)
      → (join_trip id login w).0 ≡ ok result
      → (handle_add_user_to_trip request w).1.mongo ≡ (join_trip id login w).1.mongo
  unfolding handle_add_user_to_trip add_user_to_trip safe_handle
  joined_mongo result w e =
      rw (parsed, id_read, login_read, e)
        ((answered-Keeps_mongo id login result).at (join_trip id login w).1)

  joined_rabbit :
      (result : JoinTripResult) (w : World sv)
      → (join_trip id login w).0 ≡ ok result
      → Keeps (rabbit_of {sv = sv}) (try (answer_join id login result) on_exception)
      → (handle_add_user_to_trip request w).1.rabbit ≡ w.rabbit
  unfolding handle_add_user_to_trip add_user_to_trip safe_handle
  joined_rabbit result w e quiet =
      rw (parsed, id_read, login_read, e)
        (quiet.at (join_trip id login w).1
          ∙ (join_trip-Keeps {part = rabbit_of} (λ A f. record { at = λ x. refl })
                (λ A f. record { at = λ x. refl }) id login).at
              w)

  -- The second request, where the identifier names an object.
  again :
      (oid : ℕ) (w v : World sv)
      → sv.bson.parse_oid id ≡ some oid
      → v.mongo ≡ (handle_add_user_to_trip request w).1.mongo
      → Repeats t v (handle_add_user_to_trip request v)
  again oid w v named same =
      let first = join_trip-Joins t id login oid w named in
      let second = join_trip-Joins t id login oid v named in
      let before : t.participants v.mongo oid ≡ joining login (t.participants w.mongo oid) =
        ap (λ s. t.participants s oid) (same ∙ joined_mongo _ w first.answer) ∙ first.trip in
      record {
        silent = elim (outcome-joining login (t.participants w.mongo oid)) [
          | inl e ↦
              joined_rabbit already_joined v (second.answer ∙ ap ok (ap (outcome login) before ∙ e))
                (already_joined_quiet id login)
          | inr e ↦
              joined_rabbit not_found v (second.answer ∙ ap ok (ap (outcome login) before ∙ e))
                (not_found_quiet id login)
        ];
        trips_kept = λ o.
            ap (λ s. t.participants s o) (joined_mongo _ v second.answer)
            ∙ elim (Bool-cases (o == oid)) [
              | inl e ↦
                  subst
                    (λ n.
                      t.participants (join_trip id login v).1.mongo n ≡ t.participants v.mongo n)
                    (sym (of_eq o oid e))
                    (second.trip
                      ∙ ap (joining login) before
                      ∙ joining-joining login (t.participants w.mongo oid)
                      ∙ sym before)
              | inr ne ↦ second.others o (ground arith)
            ];
      }

  again_named :
      (w v : World sv)
      → v.mongo ≡ (handle_add_user_to_trip request w).1.mongo
      → Repeats t v (handle_add_user_to_trip request v)
  again_named w v same = elim (Option-cases (sv.bson.parse_oid id)) [
    | inl e ↦
        let refused = join_trip-invalid t id login v e in
        let answer : (join_trip id login v).0 ≡ ok invalid_id = ap (λ x. x.0) refused in
        record {
          silent = joined_rabbit invalid_id v answer (invalid_id_quiet id login);
          trips_kept = λ o.
              ap (λ s. t.participants s o)
                (joined_mongo invalid_id v answer ∙ ap (λ x. x.1.mongo) refused);
        }
    | inr (oid, e) ↦ again oid w v e same
  ]

-- With a MongoDB that answers (the laws of TripStore), a request to join a trip that is sent again,
-- with no change of the trips in between, changes no trip and sends no event.
pub handle_add_user_to_trip-Repeats :
    {sv : Services} (t : TripStore sv) (request : Request) (w v : World sv)
    → v.mongo ≡ (handle_add_user_to_trip request w).1.mongo
    → Repeats t v (handle_add_user_to_trip request v)
unfolding handle_add_user_to_trip add_user_to_trip safe_handle
handle_add_user_to_trip-Repeats {sv} t request w v same =
    elim (Option-cases (sv.json.from_string request.body)) [
      | inl e ↦ rw e (record { silent = refl; trips_kept = λ o. refl })
      | inr (json, parsed) ↦ elim (Option-cases (sv.json.string_field json "trip_id")) [
        | inl e ↦ rw (parsed, e) (record { silent = refl; trips_kept = λ o. refl })
        | inr (id, id_read) ↦ elim (Option-cases (sv.json.string_field json "login")) [
          | inl e ↦ rw (parsed, id_read, e) (record { silent = refl; trips_kept = λ o. refl })
          | inr (login, login_read) ↦
              again_named t request id login json parsed id_read login_read w v same
        ]
      ]
    ]
