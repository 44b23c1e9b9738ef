-- ===== src/Server/Routing.antt =====
-- Which handler a method and a path lead to.
use package.text.Mathlib.Text.{◌==◌ as str_eq}
use sd_hw.Prelude.{◌≡◌, refl, Option, none, some, List, [], ◌∷◌, String, if◌then◌else◌}
use sd_hw.Handlers.Registered.{
  Endpoint, login_user, create_user, get_user, search_users, create_route, get_routes, create_trip,
  add_user_to_trip, get_trip,
}
use sd_hw.Server.{Method, get_method, post_method, method_of, path_of}

-- The first of some handlers that has the path.
abbrev first_at : String → List (String × Endpoint) → Option Endpoint
first_at path [] = none
first_at path ((p, e) ∷ es) = if str_eq p path then some e else first_at path es

abbrev endpoint_at : Method → String → Option Endpoint
endpoint_at get_method path = first_at path (
    ("/v1/users", get_user)
    ∷ ("/v1/users/search", search_users)
    ∷ ("/v1/routes", get_routes)
    ∷ ("/v1/trips", get_trip)
    ∷ [])
endpoint_at post_method path = first_at path (
    ("/v1/login", login_user)
    ∷ ("/v1/users", create_user)
    ∷ ("/v1/routes", create_route)
    ∷ ("/v1/trips", create_trip)
    ∷ ("/v1/trips/add-user", add_user_to_trip)
    ∷ [])

endpoint_at_lem : (e : Endpoint) → endpoint_at (method_of e) (path_of e) ≡ some e
unfolding method_of path_of
endpoint_at_lem login_user = refl
endpoint_at_lem create_user = refl
endpoint_at_lem get_user = refl
endpoint_at_lem search_users = refl
endpoint_at_lem create_route = refl
endpoint_at_lem get_routes = refl
endpoint_at_lem create_trip = refl
endpoint_at_lem add_user_to_trip = refl
endpoint_at_lem get_trip = refl

-- No two handlers share a path and a method.
pub method_path-injective :
    (d e : Endpoint) → method_of d ≡ method_of e → path_of d ≡ path_of e → d ≡ e
method_path-injective d e m p = let here = endpoint_at_lem d in let there = endpoint_at_lem e in cc
