-- ===== src/PgStorage/Queries.antt =====
-- The SQL statements of src/storage_pg.cpp, with their parameters.
use sd_hw.Prelude.{List, [], ◌∷◌, ◌++◌, Text, codes, String}
use sd_hw.Models.{User, Route, Trip}
use sd_hw.Services.{Query}

abbrev query : String → List Text → Query
query text params = record { text = text; params = params }

unfoldable pub insert_user : User → Query
insert_user user =
    query
      "INSERT INTO users (login, first_name, last_name, password_hash) VALUES ($1, $2, $3, $4) ON CONFLICT (login) DO NOTHING"
      (user.login ∷ user.first_name ∷ user.last_name ∷ user.password ∷ [])

unfoldable pub select_credentials : Text → Text → Query
select_credentials login password =
    query "SELECT login FROM users WHERE login = $1 AND password_hash = $2" (login ∷ password ∷ [])

unfoldable pub select_user : Text → Query
select_user login =
    query "SELECT login, first_name, last_name, password_hash FROM users WHERE login = $1"
      (login ∷ [])

unfoldable pub select_users_like : Text → Query
select_users_like mask =
    query
      "SELECT login, first_name, last_name, password_hash FROM users WHERE first_name ILIKE $1 OR last_name ILIKE $1 OR login ILIKE $1 ORDER BY first_name, last_name"
      ((codes "%" ++ (mask ++ codes "%")) ∷ [])

unfoldable pub insert_route : Route → Query
insert_route route =
    query "INSERT INTO routes (owner_login, points) VALUES ($1, $2) RETURNING id"
      (route.owner_login ∷ route.points ∷ [])

unfoldable pub select_routes_by_owner : Text → Query
select_routes_by_owner login =
    query
      "SELECT id, owner_login, points, created_at FROM routes WHERE owner_login = $1 ORDER BY created_at DESC"
      (login ∷ [])

unfoldable pub select_route : Text → Query
select_route route_id =
    query "SELECT id, owner_login, points FROM routes WHERE id = $1" (route_id ∷ [])

unfoldable pub insert_trip : Trip → Query
insert_trip trip =
    query "INSERT INTO trips (route_id) VALUES ($1) RETURNING id" (trip.route_id ∷ [])

unfoldable pub insert_participant : Text → Text → Query
insert_participant trip_id login =
    query
      "INSERT INTO trip_participants (trip_id, login) VALUES ($1, $2) ON CONFLICT (trip_id, login) DO NOTHING"
      (trip_id ∷ login ∷ [])

unfoldable pub select_trip : Text → Query
select_trip trip_id =
    query "SELECT id, route_id, status, departure_time FROM trips WHERE id = $1" (trip_id ∷ [])

unfoldable pub select_participants : Text → Query
select_participants trip_id =
    query "SELECT login FROM trip_participants WHERE trip_id = $1" (trip_id ∷ [])
