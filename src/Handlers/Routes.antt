-- ===== src/Handlers/Routes.antt =====
-- src/handlers/api_handlers.cpp: the handlers of /v1/routes.
use sd_hw.Prelude.{List, [], ◌∷◌, Text, is_empty, maybe, if◌then◌else◌}
use sd_hw.Models.{Route}
use sd_hw.Services.{Services}
use sd_hw.Services.Values.{Json, string, array, object, Items, no_items, item, no_members, member}
use sd_hw.Http.{Request}
use sd_hw.PgStorage.{add_route, get_routes_by_user}
use sd_hw.RedisCache
use sd_hw.Events.{publish_route_created}
use sd_hw.App.{App, pure, ◌>>=◌, ◌>>◌}
use sd_hw.Handlers.{
  safe_handle, parse_body, string_field, lacks_arg, reply, routes_key, routes_cache_ttl,
}
use sd_hw.Handlers.Bodies.{internal_server_error, missing_login}

unfoldable pub id_json : Text → Json
id_json id = object (member "id" (string id) no_members)

unfoldable pub route_json : Route → Json
route_json route = object (
    member "id" (string route.id) (
      member "owner_login" (string route.owner_login)
        (member "points" (string route.points) no_members)))

abbrev route_items : List Route → Items
route_items [] = no_items
route_items (r ∷ routes) = item (route_json r) (route_items routes)

unfoldable pub routes_json : List Route → Json
routes_json routes = array (route_items routes)

module _ {sv : Services} where
  unfoldable pub create_route : Request → App sv Text
  create_route request = do
    json ← parse_body request
    owner_login ← string_field json "owner_login"
    points ← string_field json "points"
    let route : Route = record { id = []; owner_login = owner_login; points = points }
    id ← add_route route
    if is_empty id then reply 500 internal_server_error else (do
      owner ← string_field json "owner_login"
      RedisCache.invalidate (routes_key owner)
      publish_route_created (record route { id = id })
      pure (sv.json.to_string (id_json id)))

  unfoldable pub handle_create_route : Request → App sv Text
  handle_create_route request = safe_handle (create_route request)

  unfoldable pub get_routes : Request → App sv Text
  get_routes request =
      let login = request.get_arg "login" in
      if lacks_arg request "login" then reply 400 missing_login else (do
        cached ← RedisCache.get (routes_key login)
        maybe cached
            (do
              routes ← get_routes_by_user login
              let result = sv.json.to_string (routes_json routes)
              RedisCache.set (routes_key login) result routes_cache_ttl
              pure result)
            pure)

  unfoldable pub handle_get_routes : Request → App sv Text
  handle_get_routes request = safe_handle (get_routes request)
