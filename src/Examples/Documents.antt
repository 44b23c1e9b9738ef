-- ===== src/Examples/Documents.antt =====
-- A MongoDB of two collections that answers the calls of the program.
use sd_hw.Prelude.{
  ℕ, Option, none, some, List, [], ◌∷◌, Text, String, text_eq, ltb, ◌==◌, keep_if, if◌then◌else◌,
}
use mathlib.Core.Option
use sd_hw.Services.{Mongo, UpdateResult, BsonCodec}
use sd_hw.Services.Values.{Bson, text, oid, date, double, texts, document, Doc, no_fields, field}
use sd_hw.Services.Results.{Result, ok, err, failure}
use sd_hw.MongoStorage.Joins.{holds, with_login, matched}
use package.text.Mathlib.Text.{◌==◌ as str_eq}

pub record StoredToken : Type 0 where
  pub token : Text
  pub login : Text
  pub expires_at : ℕ

pub record StoredTrip : Type 0 where
  pub id : ℕ
  pub participants : List Text
  pub fields : Doc

pub record Store : Type 0 where
  pub tokens : List StoredToken
  pub trips : List StoredTrip

abbrev pub head : {A : Type 0} → List A → Option A
head [] = none
head (a ∷ xs) = some a

abbrev pub token_doc : StoredToken → Doc
token_doc t =
    field "_id" (text t.token)
      (field "login" (text t.login) (field "expires_at" (date t.expires_at) no_fields))

abbrev pub trip_doc : StoredTrip → Doc
trip_doc t = field "participants" (texts t.participants) t.fields

abbrev live : ℕ → Option StoredToken → Option StoredToken
live now none = none
live now (some t) = if ltb now t.expires_at then some t else none

abbrev pub trip_at : ℕ → List StoredTrip → Option StoredTrip
trip_at id [] = none
trip_at id (t ∷ trips) = if t.id == id then some t else trip_at id trips

-- The trip, if the login is among its participants.
abbrev pub joined_in : Text → Option StoredTrip → Option StoredTrip
joined_in login none = none
joined_in login (some t) = if holds login t.participants then some t else none

unfoldable pub insert : Doc → Store → Result (Unit {0}) × Store
insert
      (field _
        (text token)
        (field _ (text login) (field _ (date at) (field _ (date until) no_fields))))
      s =
    (
      ok tt,
      record s { tokens = record { token = token; login = login; expires_at = until } ∷ s.tokens },
    )
insert (field key (oid id) rest) s = (
  ok tt,
  record s {
    trips = record { id = id; participants = []; fields = field key (oid id) rest } ∷ s.trips;
  },
)
insert _ s = (err failure, s)

unfoldable pub find : Doc → Store → Result (Option Doc) × Store
unfolding text_eq
find (field _ (text token) (field _ (document (field _ (date now) no_fields)) no_fields)) s =
    (ok (Option.map token_doc (live now (head (keep_if (λ t. text_eq t.token token) s.tokens)))), s)
find (field _ (oid id) no_fields) s = (ok (Option.map trip_doc (trip_at id s.trips)), s)
find (field _ (oid id) (field _ (text login) no_fields)) s =
    (ok (Option.map trip_doc (joined_in login (trip_at id s.trips))), s)
find _ s = (err failure, s)

abbrev pub join : ℕ → Text → List StoredTrip → List StoredTrip
join id login [] = []
join id login (t ∷ trips) =
    if t.id == id
    then record t { participants = with_login login t.participants } ∷ trips
    else t ∷ join id login trips

abbrev pub joined_counts : Text → Option StoredTrip → UpdateResult
joined_counts login none = matched 0 0
joined_counts login (some t) = matched 1 (if holds login t.participants then 0 else 1)

unfoldable pub update : Doc → Doc → Store → Result UpdateResult × Store
unfolding text_eq
update (field _ (oid id) no_fields) (field _ (document (field _ (text login) no_fields)) no_fields)
      s =
    (ok (joined_counts login (trip_at id s.trips)), record s { trips = join id login s.trips })
update _ _ s = (err failure, s)

abbrev pub store : Mongo
store = record {
  State = Store;
  Collection = String;
  get_collection = λ name s. (ok name, s);
  insert_one = λ collection doc. insert doc;
  find_one = λ collection filter. find filter;
  update_one = λ collection filter change. update filter change;
}

unfoldable pub value_of : Doc → String → Option Bson
value_of no_fields name = none
value_of (field key value rest) name = if str_eq key name then some value else value_of rest name

abbrev as_text : Option Bson → Result Text
as_text (some (text t)) = ok t
as_text _ = err failure

abbrev as_texts : Option Bson → Result (List Text)
as_texts (some (texts t)) = ok t
as_texts _ = err failure

abbrev as_oid : Option Bson → Result ℕ
as_oid (some (oid n)) = ok n
as_oid _ = err failure

abbrev as_double : Option Bson → Result ℕ
as_double (some (double n)) = ok n
as_double _ = err failure

abbrev as_doc : Option Bson → Result Doc
as_doc (some (document d)) = ok d
as_doc _ = err failure

-- An object id is written as a text of one byte.
abbrev one_byte : Text → Option ℕ
one_byte (n ∷ []) = some n
one_byte _ = none

abbrev pub bson_codec : BsonCodec
bson_codec = record {
  oid_field = λ doc name. as_oid (value_of doc name);
  text_field = λ doc name. as_text (value_of doc name);
  texts_field = λ doc name. as_texts (value_of doc name);
  double_field = λ doc name. as_double (value_of doc name);
  doc_field = λ doc name. as_doc (value_of doc name);
  parse_oid = one_byte;
  oid_to_string = λ n. n ∷ [];
}
