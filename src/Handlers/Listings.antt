-- ===== src/Handlers/Listings.antt =====
-- The routes of users in the cache: what the handlers of src/handlers/api_handlers.cpp rely on for
-- them, and when the cache agrees with the table `routes`.
pub mod Preserves
pub mod Adds
pub mod Serves
pub mod Faults
pub mod Posted
use sd_hw.Prelude.{◌≡◌, ◌≢◌, none, some, Option, List, [], ◌∷◌, Text, false, is_empty}
use sd_hw.Models.{Route}
use sd_hw.Services.{Services, Postgres, Redis, Query, Row, ResultSet}
use sd_hw.Services.Results.{Exn, ok, err}
use sd_hw.PgStorage.Queries.{insert_route, select_routes_by_owner}
use sd_hw.App.{World}
use sd_hw.Handlers.{routes_key}
use sd_hw.Handlers.Routes.{routes_json}
use sd_hw.Handlers.Histories.{Statement}
use sd_hw.Handlers.Profiles.{TextCache}

-- The row of a route, as `read_route` reads it.
pub record IsRouteRow (route : Route) (row : Row) : Type 0 where
  pub id : row.column "id" ≡ ok route.id
  pub owner_login : row.column "owner_login" ≡ ok route.owner_login
  pub points : row.column "points" ≡ ok route.points

abbrev pub Shows : List Route → List Row → Type 0
Shows [] rows = rows ≡ []
Shows (route ∷ routes) [] = ⊥
Shows (route ∷ routes) (row ∷ rows) = IsRouteRow route row × Shows routes rows

-- The documented behaviour of the table `routes` while it answers the SELECT of an owner's routes;
-- the INSERT of a route may fail, and then it adds nothing.
pub record RouteTable (pg : Postgres) : Type 0 where
  pub routes_of : pg.State → Text → List Route
  pub select_shows :
      (login : Text) (s : pg.State)
      → (found : ResultSet) × ((pg.execute (select_routes_by_owner login) s).0 ≡ ok found)
        × Shows (routes_of s login) found.rows
  pub routes_kept :
      (q : Query) (login : Text) (s : pg.State)
      → Statement q
      → routes_of (pg.execute q s).1 login ≡ routes_of s login
  pub others_kept :
      (route : Route) (login : Text) (s : pg.State)
      → login ≢ route.owner_login
      → routes_of (pg.execute (insert_route route) s).1 login ≡ routes_of s login
  pub insert_refused :
      (route : Route) (e : Exn) (s : pg.State)
      → (pg.execute (insert_route route) s).0 ≡ err e
      → routes_of (pg.execute (insert_route route) s).1 route.owner_login
        ≡ routes_of s route.owner_login
  pub insert_returns :
      (route : Route) (found : ResultSet) (s : pg.State)
      → (pg.execute (insert_route route) s).0 ≡ ok found
      → (row : Row) × (rest : List Row) × (id : Text) × (found.rows ≡ row ∷ rest)
        × (row.column "id" ≡ ok id)
        × (is_empty id ≡ false)

-- A Redis whose DEL removes the key.
pub record RouteStores (sv : Services) : Type 0 where
  pub table : RouteTable sv.pg
  pub cache : TextCache sv.redis
  pub del_removes : (k : Text) (s : sv.redis.State) → cache.cached (sv.redis.del k s).1 k ≡ none

-- Every list of routes in the cache is the one of the table.
pub record Coherent {sv : Services} (st : RouteStores sv) (w : World sv) : Type 0 where
  pub at :
      (owner body : Text)
      → st.cache.cached w.redis (routes_key owner) ≡ some body
      → body ≡ sv.json.to_string (routes_json (st.table.routes_of w.pg owner))
