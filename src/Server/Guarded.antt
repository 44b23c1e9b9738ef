-- ===== src/Server/Guarded.antt =====
-- Which requests must carry a token.
use sd_hw.Prelude.{◌≡◌, refl, ◌⊎◌, true, false}
use sd_hw.Services.{Services}
use sd_hw.Http.{Request}
use sd_hw.App.{World}
use sd_hw.MongoStorage.Tokens.{TokenStore}
use sd_hw.AuthMiddleware.{handle_request}
use sd_hw.AuthMiddleware.Guard.{Accepts, Rejects, handle_request-decides}
use sd_hw.Handlers.Registered.{Endpoint, create_route, create_trip, handle}
use sd_hw.Server.{enabled, serve_endpoint}

-- The operations with `security: bearerAuth` in openapi.yaml: POST /v1/routes and POST /v1/trips.
pub data Secured : Endpoint → Type 0 where
  secured_route : Secured create_route
  secured_trip : Secured create_trip

module _ {sv : Services} (t : TokenStore sv) (endpoint : Endpoint) (request : Request)
    (w : World sv) where
  -- A secured operation runs as the login of a valid token or is refused; another one just runs.
  pub record Guards : Type 0 where
    pub secured :
        Secured endpoint
        → Accepts t request w (handle endpoint) (serve_endpoint endpoint request w)
          ⊎ Rejects t request w (serve_endpoint endpoint request w)
    pub open_to_all :
        (Secured endpoint → ⊥) → serve_endpoint endpoint request w ≡ handle endpoint request w

guarded : (endpoint : Endpoint) → Secured endpoint → enabled endpoint ≡ true
unfolding enabled
guarded _ secured_route = refl
guarded _ secured_trip = refl

unguarded : (endpoint : Endpoint) → (Secured endpoint → ⊥) → enabled endpoint ≡ false
unfolding enabled
unguarded create_route out = absurd (out secured_route)
unguarded create_trip out = absurd (out secured_trip)
unguarded _ out = refl

-- With a MongoDB that answers (the laws of TokenStore), the two operations that the description of the
-- API secures run only as the login of a stored token that has not expired, and are else answered with
-- 401 with no service changed but the clock; every other operation runs for any request.
pub serve_endpoint-Guards :
    {sv : Services} (t : TokenStore sv) (endpoint : Endpoint) (request : Request) (w : World sv)
    → Guards t endpoint request w
unfolding serve_endpoint handle_request
serve_endpoint-Guards t endpoint request w = record {
  secured = λ s. rw (guarded endpoint s) (handle_request-decides t (handle endpoint) request w);
  open_to_all = λ out. rw (unguarded endpoint out) refl;
}
