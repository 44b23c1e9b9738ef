-- ===== src/Handlers/Users.antt =====
-- src/handlers/api_handlers.cpp: the handlers of /v1/login, /v1/users and /v1/users/search.
use sd_hw.Prelude.{not, List, [], ◌∷◌, Text, maybe, if◌then◌else◌}
use sd_hw.Models.{User}
use sd_hw.Services.{Services}
use sd_hw.Services.Values.{Json, string, array, object, Items, no_items, item, no_members, member}
use sd_hw.Http.{Request}
use sd_hw.PgStorage.{login_user, add_user, get_user_by_login, search_users_by_name}
use sd_hw.MongoStorage.{insert_auth_token}
use sd_hw.RedisCache
use sd_hw.RateLimiter.{check}
use sd_hw.Events.{publish_user_created}
use sd_hw.App.{App, pure, ◌>>=◌, ◌>>◌, call_runtime}
use sd_hw.Handlers.{
  safe_handle, set_rate_limit_headers, parse_body, string_field, lacks_arg, reply, user_key,
  user_cache_ttl, login_rate_limit, login_rate_window,
}
use sd_hw.Handlers.Bodies.{
  too_many_requests, invalid_credentials, user_exists, status_ok, missing_login, user_not_found,
  missing_mask,
}

unfoldable pub token_json : Text → Json
token_json token = object (member "token" (string token) no_members)

-- The password is not among the members.
unfoldable pub user_json : User → Json
user_json user = object (
    member "login" (string user.login) (
      member "first_name" (string user.first_name)
        (member "last_name" (string user.last_name) no_members)))

abbrev user_items : List User → Items
user_items [] = no_items
user_items (u ∷ users) = item (user_json u) (user_items users)

unfoldable pub users_json : List User → Json
users_json users = array (user_items users)

module _ {sv : Services} where
  -- The body of the λ of LoginUserHandler.
  unfoldable pub login : Request → App sv Text
  login request = do
    json ← parse_body request
    login ← string_field json "login"
    password ← string_field json "password"
    is_valid_user ← login_user login password
    if not is_valid_user then reply 401 invalid_credentials else (do
      token ← call_runtime sv sv.runtime.generate_uuid
      insert_auth_token token login
      pure (sv.json.to_string (token_json token)))

  unfoldable pub handle_login : Request → App sv Text
  handle_login request = do
    rl ← check request.remote_address login_rate_limit login_rate_window
    set_rate_limit_headers rl
    if not rl.allowed then reply 429 too_many_requests else safe_handle (login request)

  unfoldable pub create_user : Request → App sv Text
  create_user request = do
    json ← parse_body request
    login ← string_field json "login"
    first_name ← string_field json "first_name"
    last_name ← string_field json "last_name"
    password ← string_field json "password"
    let user : User = record {
      login = login;
      first_name = first_name;
      last_name = last_name;
      password = password;
    }
    added ← add_user user
    if not added then reply 409 user_exists else (do
      RedisCache.invalidate (user_key user.login)
      publish_user_created user
      pure status_ok)

  unfoldable pub handle_create_user : Request → App sv Text
  handle_create_user request = safe_handle (create_user request)

  -- A hit is returned as it is; a miss reads the database and fills the cache.
  unfoldable pub get_user : Request → App sv Text
  get_user request =
      let login = request.get_arg "login" in
      if lacks_arg request "login" then reply 400 missing_login else (do
        cached ← RedisCache.get (user_key login)
        maybe cached
            (do
              found ← get_user_by_login login
              maybe found (reply 404 user_not_found) (λ user. do
                let result = sv.json.to_string (user_json user)
                RedisCache.set (user_key login) result user_cache_ttl
                pure result))
            pure)

  unfoldable pub handle_get_user : Request → App sv Text
  handle_get_user request = safe_handle (get_user request)

  unfoldable pub search_users : Request → App sv Text
  search_users request = if lacks_arg request "mask" then reply 400 missing_mask else (do
    users ← search_users_by_name (request.get_arg "mask")
    pure (sv.json.to_string (users_json users)))

  unfoldable pub handle_search_users : Request → App sv Text
  handle_search_users request = safe_handle (search_users request)
