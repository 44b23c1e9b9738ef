-- ===== src/Handlers/Sessions.antt =====
-- A session, from the login to the requests that carry its token.
use sd_hw.Prelude.{◌<◌, ◌≡◌, refl, true, none, some, ◌++◌, arith, Text, starts_with, ltb}
use sd_hw.Services.{Services}
use sd_hw.Http.{Request}
use sd_hw.MongoStorage.Tokens.{TokenStore, time, clock_read, get_login_by_token_lem}
use sd_hw.App.{World, App}
use sd_hw.AuthMiddleware.{bearer_prefix, handle_request}
use sd_hw.Handlers.Users.{handle_login}
use sd_hw.Handlers.Logins.{Issues, new_token, token_end}

-- With a MongoDB that answers (the laws of TokenStore), at the login and at the request: a request
-- that carries the token of a login that was answered with one runs as the user of that login, if
-- the token was not stored before, MongoDB is as the login left it and the token has not ended.
pub handle_request-handle_login :
    {sv : Services} (t : TokenStore sv) (request : Request) (w : World sv)
    (issued : Issues t request w (handle_login request w)) (next : Request → App sv Text)
    (later : Request) (v : World sv)
    → t.token_of w.mongo (new_token w) ≡ none
    → later.get_header "Authorization" ≡ bearer_prefix ++ new_token w
    → v.mongo ≡ (handle_login request w).1.mongo
    → time v < token_end w
    → handle_request true next later v
      ≡ next later
          (record (clock_read v) { response = record v.response { user_login = some issued.user } })
unfolding handle_request starts_with
handle_request-handle_login t request w issued next later v fresh carries same alive =
    let live : ltb (time v) (token_end w) ≡ true = ground arith in
    rw (carries, get_login_by_token_lem t (new_token w) v, same, issued.stored fresh, live) refl
