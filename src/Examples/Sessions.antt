-- ===== src/Examples/Sessions.antt =====
-- The tokens of the fixture, and the theorems on them at a login and a request.
use sd_hw.Prelude.{
  [], ◌∷◌, ◌++◌, ℕ, ◌+◌, ◌≡◌, refl, ◌⊎◌, inl, inr, ap, true, Option, none, some, arith, Text, codes,
  keep_if, text_eq, text_eq_refl, ltb, if◌then◌else◌, Bool-cases,
}
use sd_hw.Services.Results.{ok}
use sd_hw.Models.{User}
use sd_hw.Http.{Request, to_string}
use sd_hw.PgStorage.{login_user}
use sd_hw.PgStorage.Queries.{select_credentials}
use sd_hw.RateLimiter.{check, rate_limit_script, script_reply, read_reply}
use sd_hw.Handlers.{safe_handle, set_rate_limit_headers}
use sd_hw.Handlers.Users.{login, token_json, handle_login}
use sd_hw.Handlers.Logins.{Issues, Denies, new_token, handle_login-decides}
use sd_hw.Handlers.Sessions.{handle_request-handle_login}
use sd_hw.Examples.Database.{answer}
use sd_hw.App.{World, App, pure}
use sd_hw.MongoStorage.{insert_auth_token, get_login_by_token}
use sd_hw.MongoStorage.Documents.{auth_token, token_filter}
use sd_hw.MongoStorage.Tokens.{TokenStore, clock_read, get_login_by_token-insert_auth_token}
use sd_hw.AuthMiddleware.{bearer_prefix, handle_request}
use sd_hw.AuthMiddleware.Guard.{Accepts, Rejects, handle_request-decides}
use sd_hw.Examples.Documents.{Store, StoredToken, head, token_doc, insert, find, value_of}
use sd_hw.Examples.Fixture.{fixture, start, request}

abbrev entry : Option StoredToken → Option (Text × ℕ)
entry none = none
entry (some t) = some (t.login, t.expires_at)

abbrev held : Store → Text → Option (Text × ℕ)
held s token = entry (head (keep_if (λ t. text_eq t.token token) s.tokens))

no_entry : (o : Option StoredToken) → entry o ≡ none → o ≡ none
no_entry none e = refl
no_entry (some t) e = absurd cc

an_entry :
    (o : Option StoredToken) (login : Text) (until : ℕ)
    → entry o ≡ some (login, until)
    → (t : StoredToken) × (o ≡ some t) × (t.login ≡ login) × (t.expires_at ≡ until)
an_entry none login until e = absurd cc
an_entry (some t) login until e = (t, refl, cc, cc)

pub tokens : TokenStore fixture
unfolding insert find auth_token token_filter value_of
tokens = record {
  auth = "auth_tokens";
  token_of = held;
  get_auth = λ s. refl;
  insert_reply = λ token login created until s fresh. refl;
  insert_token = λ token login created until s fresh. rw (text_eq_refl token) refl;
  find_missing =
      λ token now s e. rw (no_entry (head (keep_if (λ t. text_eq t.token token) s.tokens)) e) refl;
  find_expired = λ token login until now s e past.
      let (t, first, name, at) =
        an_entry (head (keep_if (λ t. text_eq t.token token) s.tokens)) login until e in
      elim (Bool-cases (ltb now t.expires_at)) [
        | inl live ↦ absurd (ground arith)
        | inr dead ↦ rw (first, dead)
      ];
  find_live = λ token login until now s e alive.
      let (t, first, name, at) =
        an_entry (head (keep_if (λ t. text_eq t.token token) s.tokens)) login until e in
      elim (Bool-cases (ltb now t.expires_at)) [
        | inl live ↦ (token_doc t, rw (first, live), ap ok name)
        | inr dead ↦ absurd (ground arith)
      ];
}

get_login_by_token-insert_auth_token_example :
    (get_login_by_token {sv = fixture}
      (codes "x")
      (insert_auth_token (codes "x") (codes "alice") start).1).0
    ≡ ok (if ltb 7 (7 + 86400) then some (codes "alice") else none)
unfolding tokens insert_auth_token
get_login_by_token-insert_auth_token_example =
    get_login_by_token-insert_auth_token tokens (codes "x") (codes "alice") start
      (insert_auth_token {sv = fixture} (codes "x") (codes "alice") start).1 refl refl

abbrev echo : Request → App fixture Text
echo r = pure r.body

handle_request-decides_example :
    Accepts tokens request start echo (handle_request true echo request start)
    ⊎ Rejects tokens request start (handle_request true echo request start)
handle_request-decides_example = handle_request-decides tokens echo request start

abbrev alice : User
alice = record {
  login = codes "alice";
  first_name = codes "Alice";
  last_name = codes "Smith";
  password = codes "alice";
}

abbrev registered : World fixture
registered = record start { pg = record { users = alice ∷ []; routes = []; next_route = 1 } }

handle_login-decides_example :
    Issues tokens request registered (handle_login request registered)
    ⊎ Denies tokens request registered (handle_login request registered)
handle_login-decides_example = handle_login-decides tokens request registered

issued : Issues tokens request registered (handle_login request registered)
unfolding handle_login check rate_limit_script script_reply read_reply set_rate_limit_headers
    safe_handle login login_user insert_auth_token select_credentials answer tokens insert
    token_json to_string text_eq
issued = record {
  user = codes "alice";
  password = codes "alice";
  asks = record { json = _; parsed = refl; login_read = refl; password_read = refl };
  valid = record { found = _; answered = refl; filled = refl };
  body = refl;
  stored = λ fresh. refl;
}

abbrev with_token : Request
with_token = record request { get_header = λ name. bearer_prefix ++ new_token registered }

abbrev after_login : World fixture
after_login = record start { mongo = (handle_login request registered).1.mongo }

handle_request-handle_login_example :
    handle_request true echo with_token after_login
    ≡ echo with_token (record (clock_read after_login) {
      response = record after_login.response { user_login = some (codes "alice") };
    })
unfolding tokens issued
handle_request-handle_login_example =
    handle_request-handle_login tokens request registered issued echo with_token after_login refl
      refl refl (omega arith)
