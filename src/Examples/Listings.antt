-- ===== src/Examples/Listings.antt =====
-- The routes and the cache of the fixture, and the theorem on the routes of a user at some requests.
use sd_hw.Prelude.{
  sym, ℕ, zero, suc, ltb, ◌/◌, ◌≡◌, refl, inl, inr, false, none, List, [], ◌∷◌, map, Text, codes,
  text_eq, text_eq→eq, keep_if, is_empty, Bool-cases,
}
use sd_hw.Prelude.Int.{pos}
use sd_hw.Models.{Route}
use sd_hw.Services.{Query}
use sd_hw.App.{World}
use sd_hw.Http.{Request, digits, to_string}
use sd_hw.PgStorage.Queries.{
  insert_user, select_credentials, select_user, select_users_like, insert_route,
  select_routes_by_owner, select_route,
}
use sd_hw.Server.{serve}
use sd_hw.Handlers.Registered.{Endpoint, create_route, get_routes}
use sd_hw.Handlers.Routes.{handle_get_routes}
use sd_hw.Handlers.Histories.{
  Statement, to_insert_user, to_select_credentials, to_select_user, to_select_users_like,
  to_select_routes_by_owner, to_select_route,
}
use sd_hw.Handlers.Listings.{Shows, RouteTable, RouteStores}
use sd_hw.Handlers.Listings.Serves.{Lists, handle_get_routes-Lists}
use sd_hw.Examples.Database.{Tables, database, route_row, answer}
use sd_hw.Examples.Keys.{update_self}
use sd_hw.Examples.Profiles.{values}
use sd_hw.Examples.Fixture.{fixture, start, request}

abbrev owned : Text → List Route → List Route
owned login routes = keep_if (λ r. text_eq r.owner_login login) routes

rows-Shows : (routes : List Route) → Shows routes (map route_row routes)
rows-Shows [] = refl
rows-Shows (r ∷ routes) =
    (record { id = refl; owner_login = refl; points = refl }, rows-Shows routes)

digits_solid :
    (fuel n : ℕ) (out : Text) → is_empty out ≡ false → is_empty (digits fuel n out) ≡ false
unfolding digits
digits_solid zero n out h = h
digits_solid (suc fuel) n out h = elim (Bool-cases (ltb n 10)) [
  | inl small ↦ rw small refl
  | inr large ↦ rw large (digits_solid fuel (n / 10) _ refl)
]

number_solid : (n : ℕ) → is_empty (to_string (pos n)) ≡ false
unfolding to_string digits
number_solid n = elim (Bool-cases (ltb n 10)) [
  | inl small ↦ rw small refl
  | inr large ↦ rw large (digits_solid n (n / 10) _ refl)
]

table : RouteTable database
unfolding answer insert_user select_credentials select_user select_users_like insert_route
    select_routes_by_owner select_route
table = record {
  routes_of = λ s login. owned login s.routes;
  select_shows = λ login s. (_, refl, rows-Shows (owned login s.routes));
  routes_kept = kept;
  others_kept = λ route login s other. elim (Bool-cases (text_eq route.owner_login login)) [
    | inl same ↦ absurd (other (sym (text_eq→eq route.owner_login login same)))
    | inr apart ↦ rw apart refl
  ];
  insert_refused = λ route e s refused. absurd (cc);
  insert_returns = λ route found s returned.
      let id = to_string (pos s.next_route) in
      let row =
        route_row (record { id = id; owner_login = route.owner_login; points = route.points }) in
      let shown : row ∷ [] ≡ found.rows = cc in
      (row, [], id, sym shown, refl, number_solid s.next_route);
}
  where
    kept :
        (q : Query) (login : Text) (s : Tables)
        → Statement q
        → owned login (answer q.text q.params s).1.routes ≡ owned login s.routes
    kept q login s (to_insert_user new) =
        elim (Bool-cases (is_empty (keep_if (λ u. text_eq u.login new.login) s.users))) [
          | inl free ↦ rw free refl
          | inr taken ↦ rw taken refl
        ]
    kept q login s (to_select_credentials a b) = refl
    kept q login s (to_select_user a) = refl
    kept q login s (to_select_users_like a) = refl
    kept q login s (to_select_routes_by_owner a) = refl
    kept q login s (to_select_route a) = refl

route_stores : RouteStores fixture
unfolding values
route_stores = record {
  table = table;
  cache = values;
  del_removes = λ k s. update_self k none s.texts;
}

-- A world in which the token of the request is alice's.
abbrev known : World fixture
known = record start {
  mongo = record {
    tokens = record { token = codes "x"; login = codes "alice"; expires_at = 100 } ∷ [];
    trips = [];
  };
}

abbrev requests : List (Endpoint × Request)
requests = (get_routes, request) ∷ (create_route, request) ∷ (get_routes, request) ∷ []

handle_get_routes-Lists_example :
    Lists route_stores
      (codes "alice")
      (serve requests known)
      (handle_get_routes request (serve requests known))
unfolding route_stores values
handle_get_routes-Lists_example =
    handle_get_routes-Lists route_stores requests known request (λ owner. refl) refl
