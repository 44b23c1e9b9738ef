-- ===== src/AuthMiddleware/Guard.antt =====
-- Whom the middleware lets through.
use sd_hw.Prelude.{
  ◌≡◌, refl, sym, ap, ◌∙◌, ◌⊎◌, inl, inr, true, false, Option, none, some, ◌++◌, Text, starts_with,
  starts_with-append, starts_with-split, drop, Bool-cases, maybe,
}
use sd_hw.Services.{Services}
use sd_hw.Services.Results.{Result, ok}
use sd_hw.Http.{Request}
use sd_hw.App.{World, App, ◌>>=◌, ◌>>◌, set_user_login}
use sd_hw.MongoStorage.Tokens.{TokenStore, time, clock_read, login_at, get_login_by_token_lem}
use sd_hw.MongoStorage.{get_login_by_token}
use sd_hw.AuthMiddleware.{bearer_prefix, unauthorized_body, unauthorized, handle_request}

module _ {sv : Services} (t : TokenStore sv) (request : Request) (w : World sv) where
  -- The header carries the token.
  abbrev Carries : Text → Type 0
  Carries token = request.get_header "Authorization" ≡ bearer_prefix ++ token

  -- The token is stored for the login and has not expired.
  abbrev Authenticates : Text → Text → Type 0
  Authenticates token login = login_at (time w) (t.token_of w.mongo token) ≡ some login

  -- The rest of the pipeline runs as that login, with nothing else changed but the clock.
  pub record Accepts (next : Request → App sv Text) (r : Result Text × World sv) : Type 0 where
    pub token : Text
    pub login : Text
    pub carries : Carries token
    pub authenticates : Authenticates token login
    pub runs :
        r
        ≡ next request
            (record (clock_read w) { response = record w.response { user_login = some login } })

  -- The response is 401 and no service has changed but the clock.
  pub record Rejects (r : Result Text × World sv) : Type 0 where
    pub unknown :
        (token : Text) → Carries token → login_at (time w) (t.token_of w.mongo token) ≡ none
    pub body : r.0 ≡ ok unauthorized_body
    pub status : r.1.response.status ≡ 401
    pub pg_kept : r.1.pg ≡ w.pg
    pub mongo_kept : r.1.mongo ≡ w.mongo
    pub redis_kept : r.1.redis ≡ w.redis
    pub rabbit_kept : r.1.rabbit ≡ w.rabbit

token_of_header : (header token : Text) → header ≡ bearer_prefix ++ token → drop 7 header ≡ token
token_of_header header token e = rw e

-- With a MongoDB that answers (the laws of TokenStore), a request reaches the handler exactly if its
-- header is "Bearer " and a token that is stored and has not expired; it runs as the login of that
-- token. Every other request is answered with 401.
pub handle_request-decides :
    {sv : Services} (t : TokenStore sv) (next : Request → App sv Text) (request : Request)
    (w : World sv)
    → Accepts t request w next (handle_request true next request w)
      ⊎ Rejects t request w (handle_request true next request w)
unfolding handle_request unauthorized
handle_request-decides {sv} t next request w =
    elim (Bool-cases (starts_with bearer_prefix header)) [
      | inl bearer ↦ rw bearer (looked_up (starts_with-split bearer_prefix header bearer))
      | inr plain ↦ rw plain (
          inr (record {
            unknown = λ token e. absurd (no_token plain token e);
            body = refl;
            status = refl;
            pg_kept = refl;
            mongo_kept = refl;
            redis_kept = refl;
            rabbit_kept = refl;
          }))
    ]
  where
    header : Text
    header = request.get_header "Authorization"

    no_token :
        starts_with bearer_prefix header ≡ false
        → (token : Text) → header ≡ bearer_prefix ++ token
        → ⊥
    no_token plain token e = cc (starts_with-append bearer_prefix token)

    lookup : App sv Text
    lookup = do
      login ← get_login_by_token (drop 7 header)
      maybe login unauthorized (λ l. set_user_login l >> next request)

    found :
        (o : Option Text) (post : Text)
        → header ≡ bearer_prefix ++ post
        → login_at (time w) (t.token_of w.mongo post) ≡ o
        → Accepts t request w next (lookup w) ⊎ Rejects t request w (lookup w)
    found (some login) post e known =
        rw (token_of_header header post e, get_login_by_token_lem t post w, known)
          (inl (record {
            token = post;
            login = login;
            carries = e;
            authenticates = known;
            runs = refl;
          }))
    found none post e missing =
        rw (token_of_header header post e, get_login_by_token_lem t post w, missing)
          (inr (record {
            unknown = λ token carried.
                ap (λ held. login_at (time w) (t.token_of w.mongo held))
                  (sym (token_of_header header token carried) ∙ token_of_header header post e)
                ∙ missing;
            body = refl;
            status = refl;
            pg_kept = refl;
            mongo_kept = refl;
            redis_kept = refl;
            rabbit_kept = refl;
          }))

    looked_up :
        (post : Text) × (header ≡ bearer_prefix ++ post)
        → Accepts t request w next (lookup w) ⊎ Rejects t request w (lookup w)
    looked_up (post, e) = found (login_at (time w) (t.token_of w.mongo post)) post e refl
