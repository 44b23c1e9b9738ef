-- ===== src/Handlers/Listings/Serves.antt =====
-- GET /v1/routes, with its cache in front of the table, after any requests.
use sd_hw.Prelude.{
  ◌≡◌, refl, sym, ap, ◌∙◌, inl, inr, false, none, some, List, [], ◌∷◌, ◌++◌, append_assoc,
  append-nil, Text, Bool-cases,
}
use sd_hw.Prelude.Int.{ℤ}
use sd_hw.Models.{Route}
use sd_hw.Services.{Services, Row}
use sd_hw.Services.Results.{Result, ok, Result-cases}
use sd_hw.Http.{Request}
use sd_hw.App.{World}
use sd_hw.App.Preserves.{Preserves}
use sd_hw.PgStorage.{get_routes_by_user}
use sd_hw.PgStorage.Queries.{select_routes_by_owner}
use sd_hw.PgStorage.Rows.{read_route, read_rows}
use sd_hw.RedisCache.{get}
use sd_hw.RedisCache.Steps.{set_lem}
use sd_hw.Server.{serve}
use sd_hw.Handlers.{safe_handle, lacks_arg, routes_key, routes_cache_ttl}
use sd_hw.Handlers.Routes.{get_routes, handle_get_routes, routes_json}
use sd_hw.Handlers.Registered.{Endpoint}
use sd_hw.Handlers.Histories.{to_select_routes_by_owner}
use sd_hw.Handlers.Histories.Serving.{serve-Preserves}
use sd_hw.Handlers.Listings.{RouteStores, Coherent, Shows}
use sd_hw.Handlers.Listings.Preserves.{frame, handle_get_user-Preserves}
use sd_hw.Handlers.Listings.Adds.{handle_create_route-Preserves}

read_rows-Shows :
    (routes : List Route) (rows : List Row) (out : List Route)
    → Shows routes rows
    → read_rows read_route rows out ≡ ok (out ++ routes)
unfolding read_rows read_route
read_rows-Shows [] rows out h = rw h (ap ok (sym (append-nil out)))
read_rows-Shows (route ∷ routes) [] out h = elim h [ ]
read_rows-Shows (route ∷ routes) (row ∷ rows) out (is, h) =
    rw (is.id, is.owner_login, is.points)
      (read_rows-Shows routes rows (out ++ route ∷ []) h
        ∙ ap ok (append_assoc out (route ∷ []) routes))

module _ {sv : Services} (st : RouteStores sv) where
  -- The body is the list of the routes that the table has for the login.
  pub record Lists (login : Text) (w : World sv) (r : Result Text × World sv) : Type 0 where
    pub answer : r.0 ≡ ok (sv.json.to_string (routes_json (st.table.routes_of w.pg login)))
    pub response : r.1.response ≡ w.response
    pub coherent : Coherent st r.1

  get_routes_by_user_lem :
      (login : Text) (w : World sv)
      → get_routes_by_user login w ≡ (
        ok (st.table.routes_of w.pg login),
        record w { pg = (sv.pg.execute (select_routes_by_owner login) w.pg).1 },
      )
  unfolding get_routes_by_user
  get_routes_by_user_lem login w =
      let (found, answered, shown) = st.table.select_shows login w.pg in
      rw (answered, read_rows-Shows (st.table.routes_of w.pg login) found.rows [] shown) refl

  routes_key-injective : (j k : Text) → routes_key j ≡ routes_key k → j ≡ k
  routes_key-injective j k e = cc

  -- The list of the table may be set for the key of its owner.
  set-Coherent :
      (login value : Text) (n : ℤ) (w : World sv)
      → value ≡ sv.json.to_string (routes_json (st.table.routes_of w.pg login))
      → Coherent st w
      → Coherent st (record w { redis = (sv.redis.set (routes_key login) value n w.redis).1 })
  set-Coherent login value n w is h = record {
    at = λ owner body hit.
        elim (st.cache.set_after (routes_key login) value (routes_key owner) body n w.redis hit) [
          | inl (own, new) ↦ rw (routes_key-injective owner login own) (new ∙ is)
          | inr old ↦ h.at owner body old
        ];
  }

  missed :
      (request : Request) (w v : World sv)
      → Coherent st v
      → v.pg ≡ w.pg
      → v.response ≡ w.response
      → lacks_arg request "login" ≡ false
      → get (routes_key (request.get_arg "login")) w ≡ (ok none, v)
      → Lists (request.get_arg "login") w (handle_get_routes request w)
  unfolding handle_get_routes get_routes safe_handle
  missed request w v h pg response given miss =
      let login = request.get_arg "login" in
      let q = select_routes_by_owner login in
      let looked : World sv = record v { pg = (sv.pg.execute q v.pg).1 } in
      let good : Coherent st looked =
        ((frame st).executes q (to_select_routes_by_owner login)).at v h in
      let same = st.table.routes_kept q login v.pg (to_select_routes_by_owner login) in
      rw (given, miss, get_routes_by_user_lem login v, set_lem)
        (record {
          answer = ap (λ s. ok (sv.json.to_string (routes_json (st.table.routes_of s login)))) pg;
          response = response;
          coherent =
              set-Coherent login _ routes_cache_ttl looked
                (ap (λ rs. sv.json.to_string (routes_json rs)) (sym same)) good;
        })

  pub list_through :
      (request : Request) (w : World sv)
      → Coherent st w
      → lacks_arg request "login" ≡ false
      → Lists (request.get_arg "login") w (handle_get_routes request w)
  unfolding handle_get_routes get_routes safe_handle get
  list_through request w h given =
      let login = request.get_arg "login" in
      let key = routes_key login in
      let asked : World sv = record w { redis = (sv.redis.get key w.redis).1 } in
      let good : Coherent st asked = ((frame st).gets key).at w h in
      elim (Result-cases (sv.redis.get key w.redis).0) [
        | inl (none, e) ↦ missed request w asked good refl refl given (rw e refl)
        | inl (some body, e) ↦
            rw (given, e)
              (record {
                answer = ap ok (h.at login body (st.cache.get_hit key body w.redis e));
                response = refl;
                coherent = good;
              })
        | inr (x, e) ↦ missed request w asked good refl refl given (rw e refl)
      ]

  pub handle_get_routes-Preserves :
      (request : Request) → Preserves (Coherent st) (handle_get_routes request)
  unfolding handle_get_routes get_routes safe_handle
  handle_get_routes-Preserves request = record {
    at = λ w h. elim (Bool-cases (lacks_arg request "login")) [
      | inl e ↦ rw e ((frame st).transports w _ refl refl h)
      | inr e ↦ (list_through request w h e).coherent
    ];
  }

-- The cache stays coherent over any requests, from one without routes.
pub serve-Coherent :
    {sv : Services} (st : RouteStores sv) (requests : List (Endpoint × Request)) (w : World sv)
    → ((owner : Text) → st.cache.cached w.redis (routes_key owner) ≡ none)
    → Coherent st (serve requests w)
serve-Coherent st requests w empty =
    serve-Preserves (frame st) (handle_create_route-Preserves st) (handle_get_user-Preserves st)
      (handle_get_routes-Preserves st) requests w
      (record { at = λ owner body hit. absurd (cc (empty owner)) })

-- After any requests to any of the nine handlers, one after another, from a cache without routes, and
-- with a PostgreSQL that answers the SELECT and a Redis that deletes what it is asked to, a request for
-- the routes of a login is answered with exactly the routes that the table then has for it, whether the
-- answer comes from the cache or not.
pub handle_get_routes-Lists :
    {sv : Services} (st : RouteStores sv) (requests : List (Endpoint × Request)) (w : World sv)
    (request : Request)
    → ((owner : Text) → st.cache.cached w.redis (routes_key owner) ≡ none)
    → lacks_arg request "login" ≡ false
    → Lists st
        (request.get_arg "login")
        (serve requests w)
        (handle_get_routes request (serve requests w))
handle_get_routes-Lists st requests w request empty given =
    list_through st request (serve requests w) (serve-Coherent st requests w empty) given
