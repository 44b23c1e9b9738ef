-- ===== src/Handlers/Statuses.antt =====
-- The statuses of the responses of the handlers.
use sd_hw.Prelude.{refl, inl, inr, [], ◌∷◌, Text, arith}
use sd_hw.Services.{Services}
use sd_hw.Services.Results.{json_error, invalid_argument, failure}
use sd_hw.Http.{Request}
use sd_hw.RateLimiter.{RateLimitResult}
use sd_hw.App.{World, status_of}
use sd_hw.App.Keeps.{Keeps, keeps_rules, status_rules}
use sd_hw.App.Raises.{Raises, raises_rules}
use sd_hw.Handlers.{set_rate_limit_headers, safe_handle}
use sd_hw.Handlers.Answers.{Answers, answers_rules, Responds, safe_handle-Answers, Answers-Responds}
use sd_hw.Handlers.Methods.{method_rules}
use sd_hw.Handlers.Users.{
  login, handle_login, create_user, handle_create_user, get_user, handle_get_user, search_users,
  handle_search_users,
}
use sd_hw.Handlers.Routes.{create_route, handle_create_route, get_routes, handle_get_routes}
use sd_hw.Handlers.Trips.{
  create_trip, handle_create_trip, add_user_to_trip, handle_add_user_to_trip, answer_join, get_trip,
  handle_get_trip,
}
use sd_hw.MongoStorage.{JoinTripResult, joined}

ruleset handler_rules =
    (inl, inr, refl, answers_rules, method_rules, keeps_rules, raises_rules, status_rules)

module _ {sv : Services} where
  answer_join-Answers :
      (trip_id login : Text) (result : JoinTripResult)
      → Answers
          (json_error ∷ [])
          (400 ∷ 404 ∷ 500 ∷ [])
          (answer_join {sv = sv} trip_id login result)
  unfolding answer_join
  answer_join-Answers trip_id login joined = search handler_rules depth 16
  answer_join-Answers trip_id login _ = search handler_rules depth 16

  create_user-Answers :
      (request : Request)
      → Answers (json_error ∷ []) (400 ∷ 409 ∷ []) (create_user {sv = sv} request)
  unfolding create_user
  create_user-Answers request = search handler_rules depth 16

  get_user-Answers : (request : Request) → Answers [] (400 ∷ 404 ∷ []) (get_user {sv = sv} request)
  unfolding get_user
  get_user-Answers request = search handler_rules depth 16

  search_users-Answers :
      (request : Request) → Answers [] (400 ∷ []) (search_users {sv = sv} request)
  unfolding search_users
  search_users-Answers request = search handler_rules depth 16

  create_route-Answers :
      (request : Request)
      → Answers (json_error ∷ []) (400 ∷ 500 ∷ []) (create_route {sv = sv} request)
  unfolding create_route
  create_route-Answers request = search handler_rules depth 16

  get_routes-Answers : (request : Request) → Answers [] (400 ∷ []) (get_routes {sv = sv} request)
  unfolding get_routes
  get_routes-Answers request = search handler_rules depth 16

  create_trip-Answers :
      (request : Request)
      → Answers (json_error ∷ failure ∷ []) (400 ∷ 404 ∷ 500 ∷ []) (create_trip {sv = sv} request)
  unfolding create_trip
  create_trip-Answers request = search handler_rules depth 16

  add_user_to_trip-Answers :
      (request : Request)
      → Answers (json_error ∷ []) (400 ∷ 404 ∷ 500 ∷ []) (add_user_to_trip {sv = sv} request)
  unfolding add_user_to_trip
  add_user_to_trip-Answers request = search (handler_rules, answer_join-Answers) depth 16

  get_trip-Answers :
      (request : Request)
      → Answers (invalid_argument ∷ []) (400 ∷ 404 ∷ []) (get_trip {sv = sv} request)
  unfolding get_trip
  get_trip-Answers request = search handler_rules depth 16

  login-Answers :
      (request : Request)
      → Answers (json_error ∷ []) (400 ∷ 401 ∷ 429 ∷ []) (login {sv = sv} request)
  unfolding login
  login-Answers request = search handler_rules depth 16

  handle_create_user-Answers :
      (request : Request) → Answers [] (400 ∷ 409 ∷ []) (handle_create_user {sv = sv} request)
  unfolding handle_create_user
  handle_create_user-Answers request =
      safe_handle-Answers (json_error ∷ []) (create_user request) (create_user-Answers request)
        (λ e l. ground arith)

  handle_get_user-Answers :
      (request : Request) → Answers [] (400 ∷ 404 ∷ []) (handle_get_user {sv = sv} request)
  unfolding handle_get_user
  handle_get_user-Answers request =
      safe_handle-Answers [] (get_user request) (get_user-Answers request) (λ e l. ground arith)

  handle_search_users-Answers :
      (request : Request) → Answers [] (400 ∷ []) (handle_search_users {sv = sv} request)
  unfolding handle_search_users
  handle_search_users-Answers request =
      safe_handle-Answers [] (search_users request) (search_users-Answers request)
        (λ e l. ground arith)

  handle_create_route-Answers :
      (request : Request) → Answers [] (400 ∷ 500 ∷ []) (handle_create_route {sv = sv} request)
  unfolding handle_create_route
  handle_create_route-Answers request =
      safe_handle-Answers (json_error ∷ []) (create_route request) (create_route-Answers request)
        (λ e l. ground arith)

  handle_get_routes-Answers :
      (request : Request) → Answers [] (400 ∷ []) (handle_get_routes {sv = sv} request)
  unfolding handle_get_routes
  handle_get_routes-Answers request =
      safe_handle-Answers [] (get_routes request) (get_routes-Answers request) (λ e l. ground arith)

  handle_create_trip-Answers :
      (request : Request) → Answers [] (400 ∷ 404 ∷ 500 ∷ []) (handle_create_trip {sv = sv} request)
  unfolding handle_create_trip
  handle_create_trip-Answers request =
      safe_handle-Answers (json_error ∷ failure ∷ []) (create_trip request)
        (create_trip-Answers request) (λ e l. ground arith)

  handle_add_user_to_trip-Answers :
      (request : Request)
      → Answers [] (400 ∷ 404 ∷ 500 ∷ []) (handle_add_user_to_trip {sv = sv} request)
  unfolding handle_add_user_to_trip
  handle_add_user_to_trip-Answers request =
      safe_handle-Answers (json_error ∷ []) (add_user_to_trip request)
        (add_user_to_trip-Answers request) (λ e l. ground arith)

  handle_get_trip-Answers :
      (request : Request) → Answers [] (400 ∷ 404 ∷ []) (handle_get_trip {sv = sv} request)
  unfolding handle_get_trip
  handle_get_trip-Answers request =
      safe_handle-Answers (invalid_argument ∷ []) (get_trip request) (get_trip-Answers request)
        (λ e l. ground arith)

  safe_login-Answers :
      (request : Request)
      → Answers [] (400 ∷ 401 ∷ 429 ∷ []) (safe_handle (login {sv = sv} request))
  safe_login-Answers request =
      safe_handle-Answers (json_error ∷ []) (login request) (login-Answers request)
        (λ e l. ground arith)

  set_rate_limit_headers-Keeps_status :
      (rl : RateLimitResult) → Keeps (status_of {sv = sv}) (set_rate_limit_headers rl)
  unfolding set_rate_limit_headers
  set_rate_limit_headers-Keeps_status rl = search (keeps_rules, status_rules) depth 16

  set_rate_limit_headers-Raises :
      (rl : RateLimitResult) → Raises {sv = sv} [] (set_rate_limit_headers rl)
  unfolding set_rate_limit_headers
  set_rate_limit_headers-Raises rl = search raises_rules depth 16

  handle_login-Answers :
      (request : Request) → Answers [] (400 ∷ 401 ∷ 429 ∷ []) (handle_login {sv = sv} request)
  unfolding handle_login
  handle_login-Answers request =
      search
        (
          handler_rules, safe_login-Answers, set_rate_limit_headers-Keeps_status,
          set_rate_limit_headers-Raises,
        )
        depth 16

-- Whatever the services do, each of the nine handlers returns a body, and the status of the response
-- is the one from before (200, as the server sets it) or one of those that are listed for its route.
pub handlers-Responds :
    {sv : Services} (request : Request) (w : World sv)
    → let s = w.response.status in
      Responds (400 ∷ 401 ∷ 429 ∷ []) s (handle_login request w)
      × Responds (400 ∷ 409 ∷ []) s (handle_create_user request w)
      × Responds (400 ∷ 404 ∷ []) s (handle_get_user request w)
      × Responds (400 ∷ []) s (handle_search_users request w)
      × Responds (400 ∷ 500 ∷ []) s (handle_create_route request w)
      × Responds (400 ∷ []) s (handle_get_routes request w)
      × Responds (400 ∷ 404 ∷ 500 ∷ []) s (handle_create_trip request w)
      × Responds (400 ∷ 404 ∷ 500 ∷ []) s (handle_add_user_to_trip request w)
      × Responds (400 ∷ 404 ∷ []) s (handle_get_trip request w)
handlers-Responds request w = (
  Answers-Responds (handle_login request) (handle_login-Answers request) w,
  Answers-Responds (handle_create_user request) (handle_create_user-Answers request) w,
  Answers-Responds (handle_get_user request) (handle_get_user-Answers request) w,
  Answers-Responds (handle_search_users request) (handle_search_users-Answers request) w,
  Answers-Responds (handle_create_route request) (handle_create_route-Answers request) w,
  Answers-Responds (handle_get_routes request) (handle_get_routes-Answers request) w,
  Answers-Responds (handle_create_trip request) (handle_create_trip-Answers request) w,
  Answers-Responds (handle_add_user_to_trip request) (handle_add_user_to_trip-Answers request) w,
  Answers-Responds (handle_get_trip request) (handle_get_trip-Answers request) w,
)
