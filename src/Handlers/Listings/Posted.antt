-- ===== src/Handlers/Listings/Posted.antt =====
-- A route from POST /v1/routes to GET /v1/routes.
use sd_hw.Prelude.{◌≡◌, ◌⊎◌, some, List, [], ◌∷◌, Text}
use sd_hw.Models.{Route}
use sd_hw.Services.{Services, Postgres, Row, ResultSet}
use sd_hw.Services.Values.{Json}
use sd_hw.Services.Results.{Result, ok}
use sd_hw.Http.{Request}
use sd_hw.App.{World}
use sd_hw.App.Keeps.{Keeps}
use sd_hw.PgStorage.Queries.{insert_route}
use sd_hw.Handlers.Routes.{id_json, routes_json}
use sd_hw.Handlers.Listings.{RouteTable}

abbrev pub Among : Route → List Route → Type 0
Among route [] = ⊥
Among route (r ∷ routes) = (route ≡ r) ⊎ Among route routes

-- An INSERT that succeeds adds the route under the id that it returns.
pub record AddsRoutes {pg : Postgres} (table : RouteTable pg) : Type 0 where
  pub insert_adds :
      (route : Route) (found : ResultSet) (row : Row) (rest : List Row) (id : Text) (s : pg.State)
      → (pg.execute (insert_route route) s).0 ≡ ok found
      → found.rows ≡ row ∷ rest
      → row.column "id" ≡ ok id
      → Among
          (record route { id = id })
          (table.routes_of (pg.execute (insert_route route) s).1 route.owner_login)

-- The body of the request is a JSON object with the owner and the points of a route.
pub record AsksRoute (sv : Services) (request : Request) (owner points : Text) : Type 0 where
  pub json : Json
  pub parsed : sv.json.from_string request.body ≡ some json
  pub owner_read : sv.json.string_field json "owner_login" ≡ some owner
  pub points_read : sv.json.string_field json "points" ≡ some points

abbrev pub route_of : Text → Text → Text → Route
route_of id owner points = record { id = id; owner_login = owner; points = points }

module _ {sv : Services} where
  -- The answers to the two requests.
  pub record Shown (owner points : Text) (posted listed : Result Text × World sv) : Type 0 where
    pub id : Text
    pub routes : List Route
    pub named : posted.0 ≡ ok (sv.json.to_string (id_json id))
    pub listing : listed.0 ≡ ok (sv.json.to_string (routes_json routes))
    pub among : Among (route_of id owner points) routes
