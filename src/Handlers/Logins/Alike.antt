-- ===== src/Handlers/Logins/Alike.antt =====
-- POST /v1/login and the errors of MongoDB.
use sd_hw.Prelude.{not, ◌≡◌, refl, ap, sym, ◌∙◌, Text}
use sd_hw.Prelude.Int.{ℤ}
use sd_hw.Services.{Services}
use sd_hw.Services.Results.{Exn, json_error, invalid_argument, failure}
use sd_hw.Http.{Request, Response}
use sd_hw.App.{World, pure, ◌>>◌, response_of}
use sd_hw.App.Keeps.{Keeps, keeps_rules}
use sd_hw.App.Blind.{
  Blind, Alike, with_mongo, Alike-if, Alike-bind, Alike-try, Blind-Alike, blind_rules,
}
use sd_hw.PgStorage.{login_user}
use sd_hw.MongoStorage.{insert_auth_token}
use sd_hw.RateLimiter.{RateLimitResult, check}
use sd_hw.Handlers.Bodies.{too_many_requests}
use sd_hw.Handlers.{reply, safe_handle, on_exception, set_rate_limit_headers}
use sd_hw.Handlers.Methods.{method_rules}
use sd_hw.Handlers.Users.{login, handle_login}
use sd_hw.Handlers.Logins.{insert_auth_token-ok}

module _ {sv : Services} where
  check-Blind : (client : Text) (limit window : ℤ) → Blind (check {sv = sv} client limit window)
  unfolding check
  check-Blind client limit window = search blind_rules depth 16

  set_rate_limit_headers-Blind :
      (rl : RateLimitResult) → Blind (set_rate_limit_headers {sv = sv} rl)
  unfolding set_rate_limit_headers
  set_rate_limit_headers-Blind rl = search blind_rules depth 16

  login_user-Blind : (user password : Text) → Blind (login_user {sv = sv} user password)
  unfolding login_user
  login_user-Blind user password = search blind_rules depth 16

  -- The token is stored or not, and the body follows.
  insert_auth_token-Alike :
      (token user body : Text) → Alike {sv = sv} (insert_auth_token token user >> pure body)
  insert_auth_token-Alike token user body =
      let kept : Keeps response_of (insert_auth_token {sv = sv} token user) =
        search (method_rules, keeps_rules) depth 8 in
      record {
        result = λ w s.
            rw (insert_auth_token-ok token user (with_mongo s w), insert_auth_token-ok token user w)
              refl;
        response = λ w s.
            rw (insert_auth_token-ok token user (with_mongo s w), insert_auth_token-ok token user w)
              (kept.at (with_mongo s w) ∙ sym (kept.at w));
      }

  on_exception_lem :
      (e : Exn) (v w : World sv)
      → v.response ≡ w.response
      → ((on_exception e v).0 ≡ (on_exception e w).0)
        × ((on_exception e v).1.response ≡ (on_exception e w).1.response)
  unfolding on_exception
  on_exception_lem json_error v w same =
      (refl, ap {A = Response} (λ r. record r { status = 400 }) same)
  on_exception_lem invalid_argument v w same =
      (refl, ap {A = Response} (λ r. record r { status = 400 }) same)
  on_exception_lem failure v w same =
      (refl, ap {A = Response} (λ r. record r { status = 500 }) same)

  refused-Alike : Alike {sv = sv} (reply 429 too_many_requests)
  refused-Alike = search (Blind-Alike, blind_rules)

  login-Alike : (request : Request) → Alike {sv = sv} (login request)
  unfolding login
  login-Alike request =
      search
        (Alike-bind, Alike-if, Blind-Alike, blind_rules, login_user-Blind, insert_auth_token-Alike)
        depth 16

-- The body, the status and the headers of the answer to a login are the same whatever state MongoDB is
-- in, and whether it stores the token of the answer or fails.
pub handle_login-Alike :
    {sv : Services} (request : Request) → Alike {sv = sv} (handle_login request)
unfolding handle_login safe_handle
handle_login-Alike request = Alike-bind _ _ (check-Blind _ _ _) (λ rl.
    Alike-bind _ _ (set_rate_limit_headers-Blind rl) (λ _.
      Alike-if (not rl.allowed) _ _ refused-Alike
        (Alike-try (login request) on_exception (login-Alike request) on_exception_lem)))
