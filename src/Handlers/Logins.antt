-- ===== src/Handlers/Logins.antt =====
-- POST /v1/login: what the answer means.
pub mod Alike
use sd_hw.Prelude.{
  ℕ, ◌+◌, ◌≡◌, refl, ap, ◌∙◌, ◌⊎◌, inl, inr, Bool, true, false, not, none, some, [], ◌∷◌, arith,
  Text, is_empty, Bool-cases, Option-cases,
}
use sd_hw.Services.{Services, ResultSet}
use sd_hw.Services.Values.{Json}
use sd_hw.Services.Results.{Result, ok, Result-cases}
use sd_hw.Http.{Request}
use sd_hw.PgStorage.{login_user}
use sd_hw.PgStorage.Queries.{select_credentials}
use sd_hw.MongoStorage.Tokens.{TokenStore, insert_auth_token_lem}
use sd_hw.MongoStorage.{insert_auth_token}
use sd_hw.App.{World, pg_of, mongo_of}
use sd_hw.Prelude.Int.{ℤ}
use sd_hw.RateLimiter.{check}
use sd_hw.RateLimiter.Keeps.{check-Keeps}
use sd_hw.RateLimiter.FailOpen.{check-Refuses}
use sd_hw.App.Raises.{Listed, caught_ok}
use sd_hw.Handlers.{safe_handle, set_rate_limit_headers, login_rate_limit, login_rate_window}
use sd_hw.Handlers.Users.{token_json, login, handle_login}

module _ (sv : Services) where
  -- PostgreSQL has a row for the login and the password.
  pub record Valid (pg : sv.pg.State) (user password : Text) : Type 0 where
    pub found : ResultSet
    pub answered : (sv.pg.execute (select_credentials user password) pg).0 ≡ ok found
    pub filled : is_empty found.rows ≡ false

  -- The body of the request is a JSON object with the login and the password.
  pub record Asks (request : Request) (user password : Text) : Type 0 where
    pub json : Json
    pub parsed : sv.json.from_string request.body ≡ some json
    pub login_read : sv.json.string_field json "login" ≡ some user
    pub password_read : sv.json.string_field json "password" ≡ some password

module _ {sv : Services} where
  -- What the check of the credentials does.
  record LoggedIn (user password : Text) (w : World sv) (r : Result Bool × World sv) : Type 0 where
    verdict : Bool
    result : r.0 ≡ ok verdict
    valid : verdict ≡ true → Valid sv w.pg user password
    mongo_kept : r.1.mongo ≡ w.mongo
    runtime_kept : r.1.runtime ≡ w.runtime
    status_kept : r.1.response.status ≡ w.response.status

  login_user-LoggedIn :
      (user password : Text) (w : World sv) → LoggedIn user password w (login_user user password w)
  unfolding login_user
  login_user-LoggedIn user password w =
      elim (Result-cases (sv.pg.execute (select_credentials user password) w.pg).0) [
        | inl (found, e) ↦ rw e (record {
          verdict = not (is_empty found.rows);
          result = refl;
          valid = λ v. record { found = found; answered = e; filled = ground arith };
          mongo_kept = refl;
          runtime_kept = refl;
          status_kept = refl;
        })
        | inr (x, e) ↦ rw e (record {
          verdict = false;
          result = refl;
          valid = λ v. cc;
          mongo_kept = refl;
          runtime_kept = refl;
          status_kept = refl;
        })
      ]

pub insert_auth_token-ok :
    {sv : Services} (token user : Text) (w : World sv) → (insert_auth_token token user w).0 ≡ ok tt
unfolding insert_auth_token
insert_auth_token-ok token user w = caught_ok _ _

-- The token that a login makes, and when it ends.
module _ {sv : Services} where
  abbrev pub new_token : World sv → Text
  new_token w = (sv.runtime.generate_uuid w.runtime).0

  abbrev pub token_end : World sv → ℕ
  token_end w = (sv.runtime.now (sv.runtime.generate_uuid w.runtime).1).0 + 86400

module _ {sv : Services} (t : TokenStore sv) (request : Request) (w : World sv) where
  -- The answer is a new token; it is stored for the login if it is not one that was stored before.
  pub record Issues (r : Result Text × World sv) : Type 0 where
    pub user : Text
    pub password : Text
    pub asks : Asks sv request user password
    pub valid : Valid sv w.pg user password
    pub body : r.0 ≡ ok (sv.json.to_string (token_json (new_token w)))
    pub stored :
        t.token_of w.mongo (new_token w) ≡ none
        → t.token_of r.1.mongo (new_token w) ≡ some (user, token_end w)

  -- The answer is an error, and MongoDB is not touched.
  pub record Denies (r : Result Text × World sv) : Type 0 where
    pub text : Text
    pub body : r.0 ≡ ok text
    pub status : Listed r.1.response.status (400 ∷ 401 ∷ 429 ∷ [])
    pub mongo_kept : r.1.mongo ≡ w.mongo

  -- The branches behind the body: the credentials, and then the token.
  answered :
      (v : World sv) (json : Json) (user password : Text)
      → v.pg ≡ w.pg
      → v.mongo ≡ w.mongo
      → v.runtime ≡ w.runtime
      → sv.json.from_string request.body ≡ some json
      → sv.json.string_field json "login" ≡ some user
      → sv.json.string_field json "password" ≡ some password
      → Issues (safe_handle (login request) v) ⊎ Denies (safe_handle (login request) v)
  unfolding safe_handle login
  answered v json user password pg mongo runtime parsed name secret =
      let ran = login_user-LoggedIn user password v in
      elim (Bool-cases ran.verdict) [
        | inl e ↦
            rw
              (
                parsed,
                name,
                secret,
                ran.result,
                e,
                ran.runtime_kept ∙ runtime,
                insert_auth_token-ok,
              )
              (inl (record {
                user = user;
                password = password;
                asks = record {
                  json = json;
                  parsed = parsed;
                  login_read = name;
                  password_read = secret;
                };
                valid = rw (← pg) (ran.valid e);
                body = refl;
                stored = λ fresh.
                    insert_auth_token_lem t (new_token w) user _
                      (ap (λ m. t.token_of m (new_token w)) (ran.mongo_kept ∙ mongo) ∙ fresh);
              }))
        | inr e ↦
            rw (parsed, name, secret, ran.result, e)
              (inr (record {
                text = _;
                body = refl;
                status = inr (inl refl);
                mongo_kept = ran.mongo_kept ∙ mongo;
              }))
      ]

  logged_in :
      (v : World sv)
      → v.pg ≡ w.pg
      → v.mongo ≡ w.mongo
      → v.runtime ≡ w.runtime
      → Issues (safe_handle (login request) v) ⊎ Denies (safe_handle (login request) v)
  unfolding safe_handle login
  logged_in v pg mongo runtime = elim (Option-cases (sv.json.from_string request.body)) [
    | inl e ↦ rw e (inr (record { text = _; body = refl; status = inl refl; mongo_kept = mongo }))
    | inr (json, parsed) ↦ elim (Option-cases (sv.json.string_field json "login")) [
      | inl e ↦
          rw (parsed, e)
            (inr (record { text = _; body = refl; status = inl refl; mongo_kept = mongo }))
      | inr (user, name) ↦ elim (Option-cases (sv.json.string_field json "password")) [
        | inl e ↦
            rw (parsed, name, e)
              (inr (record { text = _; body = refl; status = inl refl; mongo_kept = mongo }))
        | inr (password, secret) ↦ answered v json user password pg mongo runtime parsed name secret
      ]
    ]
  ]

pub check_frame :
    {sv : Services} (client : Text) (limit window : ℤ) (w : World sv)
    → ((check client limit window w).1.pg ≡ w.pg)
      × ((check client limit window w).1.mongo ≡ w.mongo)
      × ((check client limit window w).1.runtime ≡ w.runtime)
check_frame {sv} client limit window w = (
  (check-Keeps {part = pg_of} (λ A f. record { at = λ v. refl }) client limit window).at w,
  (check-Keeps {part = mongo_of} (λ A f. record { at = λ v. refl }) client limit window).at w,
  (check-Keeps {part = λ v. v.runtime} (λ A f. record { at = λ v. refl }) client limit window).at w,
)

-- With a MongoDB that answers (the laws of TokenStore), a login either answers with a new token, for a
-- login and a password of the body that PostgreSQL confirms, and the token is then stored for that
-- login if it was not stored before; or it answers 400, 401 or 429 and MongoDB is not touched. With
-- a MongoDB that fails nothing is said of what is stored.
pub handle_login-decides :
    {sv : Services} (t : TokenStore sv) (request : Request) (w : World sv)
    → Issues t request w (handle_login request w) ⊎ Denies t request w (handle_login request w)
unfolding handle_login set_rate_limit_headers
handle_login-decides {sv} t request w =
    let client = request.remote_address in
    let (rl, result, _, _) = check-Refuses client login_rate_limit login_rate_window w in
    let (pg, mongo, runtime) = check_frame client login_rate_limit login_rate_window w in
    elim (Bool-cases rl.allowed) [
      | inl e ↦ rw (result, e) (logged_in t request w _ pg mongo runtime)
      | inr e ↦
          rw (result, e)
            (inr
              (record { text = _; body = refl; status = inr (inr (inl refl)); mongo_kept = mongo }))
    ]
