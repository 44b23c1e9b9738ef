-- ===== src/AuthMiddleware.antt =====
-- src/auth_middleware.cpp: the middleware that guards the routes of the API, over the rest of the
-- pipeline, which is what `Next` calls.
pub mod Guard
use sd_hw.Prelude.{
  Bool, true, false, not, Option, none, some, List, [], ◌∷◌, Text, codes, starts_with, length, drop,
  maybe, if◌then◌else◌,
}
use sd_hw.Services.{Services}
use sd_hw.Http.{Request, Response}
use sd_hw.App.{World, App, pure, ◌>>=◌, ◌>>◌, set_status, set_user_login}
use sd_hw.MongoStorage.{get_login_by_token}

abbrev pub bearer_prefix : Text
bearer_prefix = codes "Bearer "

unfoldable pub unauthorized_body : Text
unauthorized_body = codes "{\"error\": \"Unauthorized\"}"

module _ {sv : Services} where
  unfoldable pub unauthorized : App sv Text
  unauthorized = set_status 401 >> pure unauthorized_body

  -- `HandleRequest`; the text is the body of the response.
  unfoldable pub handle_request : Bool → (Request → App sv Text) → Request → App sv Text
  handle_request enabled next request =
      let auth_header = request.get_header "Authorization" in
      if not enabled
      then next request
      else if starts_with bearer_prefix auth_header
      then (do
        login ← get_login_by_token (drop (length bearer_prefix) auth_header)
        maybe login unauthorized (λ l. set_user_login l >> next request))
      else unauthorized

-- `AuthMiddlewareFactory::Create`: the middleware is on where its configuration is present.
unfoldable pub create {ℓ} : {Config : Type ℓ} → Option Config → Bool
create none = false
create (some middleware_config) = true
