-- ===== src/Examples/Requests.antt =====
-- The theorems on all handlers, at a request of the fixture.
use sd_hw.Prelude.{◌≡◌, [], ◌∷◌}
use sd_hw.Handlers.Answers.{Responds}
use sd_hw.Handlers.Statuses.{handlers-Responds}
use sd_hw.Handlers.Announces.{SentOnSuccess}
use sd_hw.Handlers.Silence.{commands-SentOnSuccess, queries-keep_rabbit}
use sd_hw.Handlers.Users.{handle_login, handle_create_user, handle_get_user, handle_search_users}
use sd_hw.Handlers.Routes.{handle_create_route, handle_get_routes}
use sd_hw.Handlers.Trips.{handle_create_trip, handle_add_user_to_trip, handle_get_trip}
use sd_hw.Examples.Fixture.{fixture, start, request}

handlers-Responds_example :
    Responds (400 ∷ 401 ∷ 429 ∷ []) 200 (handle_login request start)
    × Responds (400 ∷ 409 ∷ []) 200 (handle_create_user request start)
    × Responds (400 ∷ 404 ∷ []) 200 (handle_get_user request start)
    × Responds (400 ∷ []) 200 (handle_search_users request start)
    × Responds (400 ∷ 500 ∷ []) 200 (handle_create_route request start)
    × Responds (400 ∷ []) 200 (handle_get_routes request start)
    × Responds (400 ∷ 404 ∷ 500 ∷ []) 200 (handle_create_trip request start)
    × Responds (400 ∷ 404 ∷ 500 ∷ []) 200 (handle_add_user_to_trip request start)
    × Responds (400 ∷ 404 ∷ []) 200 (handle_get_trip request start)
handlers-Responds_example = handlers-Responds {sv = fixture} request start

commands-SentOnSuccess_example :
    SentOnSuccess {sv = fixture} start (handle_create_user request start)
    × SentOnSuccess {sv = fixture} start (handle_create_route request start)
    × SentOnSuccess {sv = fixture} start (handle_create_trip request start)
    × SentOnSuccess {sv = fixture} start (handle_add_user_to_trip request start)
commands-SentOnSuccess_example = commands-SentOnSuccess {sv = fixture} request start

queries-keep_rabbit_example :
    ((handle_login {sv = fixture} request start).1.rabbit ≡ [])
    × ((handle_get_user {sv = fixture} request start).1.rabbit ≡ [])
    × ((handle_search_users {sv = fixture} request start).1.rabbit ≡ [])
    × ((handle_get_routes {sv = fixture} request start).1.rabbit ≡ [])
    × ((handle_get_trip {sv = fixture} request start).1.rabbit ≡ [])
queries-keep_rabbit_example = queries-keep_rabbit {sv = fixture} request start
