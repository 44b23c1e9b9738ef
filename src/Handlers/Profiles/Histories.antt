-- ===== src/Handlers/Profiles/Histories.antt =====
-- GET /v1/users after any requests.
use sd_hw.Prelude.{◌≡◌, false, none, List, Text}
use sd_hw.Services.{Services}
use sd_hw.Http.{Request}
use sd_hw.App.{World}
use sd_hw.Server.{serve}
use sd_hw.Handlers.{lacks_arg, user_key}
use sd_hw.Handlers.Users.{handle_get_user}
use sd_hw.Handlers.Registered.{Endpoint}
use sd_hw.Handlers.Histories.Serving.{serve-Preserves}
use sd_hw.Handlers.Profiles.{Stores}
use sd_hw.Handlers.Profiles.Preserves.{frame}
use sd_hw.Handlers.Profiles.Writers.{handle_create_route-Preserves, handle_get_routes-Preserves}
use sd_hw.Handlers.Profiles.Serves.{Serves, read_through, handle_get_user-Preserves}

-- After any requests to any of the nine handlers, one after another, from a cache without profiles,
-- a request for a profile is answered with the row that the table then has for the login, whether it
-- comes from the cache or not; if it is not in the cache, and there is no such row or the SELECT
-- fails, the answer is 404.
pub handle_get_user-Serves :
    {sv : Services} (st : Stores sv) (requests : List (Endpoint × Request)) (w : World sv)
    (request : Request)
    → ((login : Text) → st.cache.cached w.redis (user_key login) ≡ none)
    → lacks_arg request "login" ≡ false
    → Serves st
        (request.get_arg "login")
        (serve requests w)
        (handle_get_user request (serve requests w))
handle_get_user-Serves st requests w request empty given =
    read_through st request (serve requests w)
      (serve-Preserves (frame st) (handle_create_route-Preserves st) (handle_get_user-Preserves st)
        (handle_get_routes-Preserves st) requests w
        (record { at = λ login body hit. absurd (cc (empty login)) }))
      given
