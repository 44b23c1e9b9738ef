-- ===== src/Handlers/Histories/Serving.antt =====
-- Invariants over the requests that the server handles one after another.
use sd_hw.Prelude.{refl, Bool, true, false, starts_with, length, drop, List, [], ◌∷◌, Text}
use sd_hw.Services.{Services}
use sd_hw.Http.{Request}
use sd_hw.App.{World, App, set_user_login}
use sd_hw.App.Keeps.{keeps_rules}
use sd_hw.App.Preserves.{Preserves, Preserves-if, Preserves-bind, Preserves-maybe}
use sd_hw.MongoStorage.{get_login_by_token}
use sd_hw.AuthMiddleware.{bearer_prefix, handle_request, unauthorized}
use sd_hw.Handlers.Users.{handle_get_user}
use sd_hw.Handlers.Routes.{handle_create_route, handle_get_routes}
use sd_hw.Handlers.Registered.{
  Endpoint, login_user, create_user, get_user, search_users, create_route, get_routes, create_trip,
  add_user_to_trip, get_trip, handle,
}
use sd_hw.Server.{serve_endpoint, new_response, serve}
use sd_hw.Handlers.Histories.{Frame, Preserves-elsewhere}
use sd_hw.Handlers.Histories.Requests.{
  step_rules, handle_login-Preserves, handle_create_user-Preserves, handle_search_users-Preserves,
  handle_create_trip-Preserves, handle_add_user_to_trip-Preserves, handle_get_trip-Preserves,
}

-- The three handlers that write to the cache, or add a route, are the invariant's own matter.
module _ {sv : Services} {I : World sv → Type 0} (f : Frame I)
    (create_route_kept : (request : Request) → Preserves I (handle_create_route request))
    (get_user_kept : (request : Request) → Preserves I (handle_get_user request))
    (get_routes_kept : (request : Request) → Preserves I (handle_get_routes request)) where
  handle-Preserves :
      (endpoint : Endpoint) (request : Request) → Preserves I (handle endpoint request)
  unfolding handle
  handle-Preserves login_user request = handle_login-Preserves f request
  handle-Preserves create_user request = handle_create_user-Preserves f request
  handle-Preserves get_user request = get_user_kept request
  handle-Preserves search_users request = handle_search_users-Preserves f request
  handle-Preserves create_route request = create_route_kept request
  handle-Preserves get_routes request = get_routes_kept request
  handle-Preserves create_trip request = handle_create_trip-Preserves f request
  handle-Preserves add_user_to_trip request = handle_add_user_to_trip-Preserves f request
  handle-Preserves get_trip request = handle_get_trip-Preserves f request

  get_login_by_token-Preserves : (token : Text) → Preserves I (get_login_by_token token)
  unfolding get_login_by_token
  get_login_by_token-Preserves token =
      Preserves-elsewhere f _ (search keeps_rules depth 16) (search keeps_rules depth 16)

  unauthorized-Preserves : Preserves I unauthorized
  unfolding unauthorized
  unauthorized-Preserves = search step_rules

  set_user_login-Preserves : (login : Text) → Preserves I (set_user_login login)
  set_user_login-Preserves login = Preserves-elsewhere f _ (search keeps_rules) (search keeps_rules)

  -- The middleware reads MongoDB and the clock.
  handle_request-Preserves :
      (enabled : Bool) (next : Request → App sv Text) (request : Request)
      → Preserves I (next request)
      → Preserves I (handle_request enabled next request)
  unfolding handle_request
  handle_request-Preserves false next request p = p
  handle_request-Preserves true next request p =
      let header = request.get_header "Authorization" in
      Preserves-if (starts_with bearer_prefix header) _ _
        (Preserves-bind _ _ (get_login_by_token-Preserves (drop (length bearer_prefix) header))
          (λ login.
            Preserves-maybe login _ _ unauthorized-Preserves
              (λ l. Preserves-bind _ _ (set_user_login-Preserves l) (λ _. p))))
        unauthorized-Preserves

  serve_endpoint-Preserves :
      (endpoint : Endpoint) (request : Request) → Preserves I (serve_endpoint endpoint request)
  unfolding serve_endpoint
  serve_endpoint-Preserves endpoint request =
      handle_request-Preserves _ (handle endpoint) request (handle-Preserves endpoint request)

  pub serve-Preserves :
      (requests : List (Endpoint × Request)) (w : World sv) → I w → I (serve requests w)
  unfolding serve
  serve-Preserves [] w h = h
  serve-Preserves ((endpoint, request) ∷ requests) w h = serve-Preserves requests _ (
      (serve_endpoint-Preserves endpoint request).at (new_response w)
        (f.transports w (new_response w) refl refl h))
