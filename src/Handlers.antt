-- ===== src/Handlers.antt =====
-- src/handlers/api_handlers.cpp: what the handlers share. Each handler is a module below.
pub mod Bodies
pub mod Users
pub mod Routes
pub mod Trips
pub mod Methods
pub mod Answers
pub mod Statuses
pub mod Announces
pub mod Silence
pub mod Logins
pub mod Histories
pub mod Limits
pub mod Sessions
pub mod Joins
pub mod Registrations
pub mod Registered
pub mod Profiles
pub mod Listings
use sd_hw.Prelude.{ℕ, Bool, not, ◌||◌, ◌++◌, Text, codes, String, is_empty}
use sd_hw.Prelude.Int.{ℤ, pos, ◌-ℤ◌, max_ℤ}
use sd_hw.Services.{Services}
use sd_hw.Services.Values.{Json}
use sd_hw.Services.Results.{Exn, json_error, invalid_argument, failure, or_throw}
use sd_hw.Http.{Request, to_string}
use sd_hw.RateLimiter.{RateLimitResult}
use sd_hw.App.{App, pure, lift, try, ◌>>◌, set_status, set_header}
use Bodies.{invalid_json, bad_request, internal_server_error}

abbrev pub user_cache_ttl : ℤ
user_cache_ttl = pos 300

abbrev pub routes_cache_ttl : ℤ
routes_cache_ttl = pos 180

abbrev pub login_rate_limit : ℤ
login_rate_limit = pos 10

abbrev pub login_rate_window : ℤ
login_rate_window = pos 60

abbrev pub user_key : Text → Text
user_key login = codes "cache:user:" ++ login

abbrev pub routes_key : Text → Text
routes_key login = codes "cache:routes:" ++ login

-- `!request.HasArg(name) || request.GetArg(name).empty()`
abbrev pub lacks_arg : Request → String → Bool
lacks_arg request name = not (request.has_arg name) || is_empty (request.get_arg name)

module _ {sv : Services} where
  -- The branches of `SafeHandle`, the most derived exception first.
  unfoldable pub on_exception : Exn → App sv Text
  on_exception json_error = set_status 400 >> pure invalid_json
  on_exception invalid_argument = set_status 400 >> pure bad_request
  on_exception failure = set_status 500 >> pure internal_server_error

  unfoldable pub safe_handle : App sv Text → App sv Text
  unfolding on_exception
  safe_handle f = try f on_exception

  unfoldable pub set_rate_limit_headers : RateLimitResult → App sv (Unit {0})
  set_rate_limit_headers rl =
      set_header "X-RateLimit-Limit" (to_string rl.limit)
      >> set_header "X-RateLimit-Remaining" (to_string (max_ℤ (pos 0) (rl.limit -ℤ rl.current)))
      >> set_header "X-RateLimit-Reset" (to_string rl.ttl)

  -- FromString(request.RequestBody())
  abbrev pub parse_body : Request → App sv Json
  parse_body request = lift (or_throw json_error (sv.json.from_string request.body))

  -- json[name].As<std::string>()
  abbrev pub string_field : Json → String → App sv Text
  string_field json name = lift (or_throw json_error (sv.json.string_field json name))

  -- SetResponseStatus and the body that the handler returns
  abbrev pub reply : ℕ → Text → App sv Text
  reply status body = set_status status >> pure body
