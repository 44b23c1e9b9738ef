-- ===== src/Handlers/Listings/Adds.antt =====
-- POST /v1/routes, and the routes of its owner in the cache.
use sd_hw.Prelude.{
  ◌≡◌, refl, sym, subst, inl, inr, some, List, [], ◌∷◌, Text, is_empty, text_eq, text_eq→eq,
  text_eq_iff, if◌then◌else◌, Bool-cases, Option-cases,
}
use sd_hw.Models.{Route}
use sd_hw.Services.{Services, Row, ResultSet}
use sd_hw.Services.Values.{Json}
use sd_hw.Services.Results.{Exn, ok, err, Result-cases}
use sd_hw.Http.{Request}
use sd_hw.App.{World, App, pure, ◌>>=◌, ◌>>◌}
use sd_hw.App.Preserves.{Preserves, Preserves-bind, Preserves-lift}
use sd_hw.PgStorage.{add_route}
use sd_hw.PgStorage.Queries.{insert_route}
use sd_hw.PgStorage.Rows.{first_row}
use sd_hw.RedisCache
use sd_hw.RedisCache.{invalidate}
use sd_hw.RedisCache.Steps.{invalidate_lem}
use sd_hw.Events.{publish_route_created}
use sd_hw.Handlers.{routes_key, reply, string_field}
use sd_hw.Handlers.Bodies.{internal_server_error}
use sd_hw.Handlers.Routes.{routes_json, id_json, create_route, handle_create_route}
use sd_hw.Handlers.Histories.Requests.{steps, safe_handle-Preserves}
use sd_hw.Handlers.Listings.{RouteStores, Coherent}
use sd_hw.Handlers.Listings.Preserves.{frame, quiet}

module _ {sv : Services} (st : RouteStores sv) where
  -- The world after the INSERT.
  abbrev pub inserted : Route → World sv → World sv
  inserted route w = record w { pg = (sv.pg.execute (insert_route route) w.pg).1 }

  add_route-refused :
      (route : Route) (e : Exn) (w : World sv)
      → (sv.pg.execute (insert_route route) w.pg).0 ≡ err e
      → add_route route w ≡ (ok [], inserted route w)
  unfolding add_route
  add_route-refused route e w refused = rw refused refl

  pub add_route-returned :
      (route : Route) (found : ResultSet) (row : Row) (rest : List Row) (id : Text) (w : World sv)
      → (sv.pg.execute (insert_route route) w.pg).0 ≡ ok found
      → found.rows ≡ row ∷ rest
      → row.column "id" ≡ ok id
      → add_route route w ≡ (ok id, inserted route w)
  unfolding add_route first_row
  add_route-returned route found row rest id w returned rows column =
      rw (returned, rows, column) refl

  -- A refused INSERT changes no list.
  refused-Coherent :
      (route : Route) (e : Exn) (w : World sv)
      → (sv.pg.execute (insert_route route) w.pg).0 ≡ err e
      → Coherent st w
      → Coherent st (inserted route w)
  refused-Coherent route e w refused h =
      quiet st w (inserted route w)
        (λ owner. elim (Bool-cases (text_eq owner route.owner_login)) [
          | inl same ↦
              subst (λ o. st.table.routes_of (inserted route w).pg o ≡ st.table.routes_of w.pg o)
                (sym (text_eq→eq owner route.owner_login same))
                (st.table.insert_refused route e w.pg refused)
          | inr other ↦
              st.table.others_kept route owner w.pg
                (λ same. cc ((text_eq_iff owner route.owner_login).1 same))
        ])
        (λ owner body hit. hit) h

  -- After an INSERT, the list of the owner is taken out of the cache.
  invalidated-Coherent :
      (route : Route) (w : World sv)
      → Coherent st w
      → Coherent st (invalidate (routes_key route.owner_login) (inserted route w)).1
  invalidated-Coherent route w h = rw invalidate_lem (record {
    at = λ owner body hit. elim (Bool-cases (text_eq owner route.owner_login)) [
      | inl same ↦
          let gone = st.del_removes (routes_key route.owner_login) w.redis in
          let e = text_eq→eq owner route.owner_login same in absurd (cc)
      | inr other ↦
          subst (λ rs. body ≡ sv.json.to_string (routes_json rs))
            (sym (
              st.table.others_kept route owner w.pg
                (λ same. cc ((text_eq_iff owner route.owner_login).1 same))))
            (h.at owner body (st.cache.del_keeps _ _ body w.redis hit))
    ];
  })

  -- What follows the INSERT in the handler.
  abbrev behind : Json → Route → Text → App sv Text
  behind json route id = if is_empty id then reply 500 internal_server_error else (do
    owner ← string_field json "owner_login"
    RedisCache.invalidate (routes_key owner)
    publish_route_created (record route { id = id })
    pure (sv.json.to_string (id_json id)))

  event-Preserves :
      (route : Route) (body : Text)
      → Preserves (Coherent st) (do publish_route_created {sv = sv} route; pure body)
  event-Preserves route body = let f = frame st in search steps depth 8

  add_route-Preserves :
      (json : Json) (route : Route)
      → sv.json.string_field json "owner_login" ≡ some route.owner_login
      → Preserves (Coherent st) (add_route route >>= behind json route)
  add_route-Preserves json route named = record {
    at = λ w h. elim (Result-cases (sv.pg.execute (insert_route route) w.pg).0) [
      | inr (e, refused) ↦ rw (add_route-refused route e w refused) (
          (frame st).transports (inserted route w) _ refl refl
            (refused-Coherent route e w refused h))
      | inl (found, returned) ↦
          let (row, rest, id, rows, column, given) =
            st.table.insert_returns route found w.pg returned in
          let kept = invalidated-Coherent route w h in
          let key = routes_key route.owner_login in
          rw
            (
              add_route-returned route found row rest id w returned rows column,
              given,
              named,
              invalidate_lem key (inserted route w),
            )
            ((event-Preserves (record route { id = id }) (sv.json.to_string (id_json id))).at _
              (rw (invalidate_lem key (inserted route w)) at kept))
    ];
  }

  pub handle_create_route-Preserves :
      (request : Request) → Preserves (Coherent st) (handle_create_route request)
  unfolding handle_create_route create_route
  handle_create_route-Preserves request =
      safe_handle-Preserves (frame st) _ (Preserves-bind _ _ (Preserves-lift _) owner_named)
    where
      owner_named :
          (json : Json)
          → Preserves (Coherent st) (do
            owner_login ← string_field json "owner_login"
            points ← string_field json "points"
            let route : Route = record { id = []; owner_login = owner_login; points = points }
            add_route route >>= behind json route)
      owner_named json = record {
        at = λ w h. elim (Option-cases (sv.json.string_field json "owner_login")) [
          | inl missing ↦ rw missing h
          | inr (owner, named) ↦ rw named (
              (Preserves-bind _ _ (Preserves-lift _) (λ points.
                  add_route-Preserves json
                    (record { id = []; owner_login = owner; points = points }) named)).at
                w h)
        ];
      }
