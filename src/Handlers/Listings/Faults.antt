-- ===== src/Handlers/Listings/Faults.antt =====
-- GET /v1/routes while PostgreSQL fails, and after it.
use sd_hw.Prelude.{◌≡◌, refl, false, none, some, [], Text}
use sd_hw.Services.{Services}
use sd_hw.Services.Results.{Exn, ok, err}
use sd_hw.Http.{Request}
use sd_hw.App.{World}
use sd_hw.PgStorage.{get_routes_by_user}
use sd_hw.PgStorage.Queries.{select_routes_by_owner}
use sd_hw.RedisCache.{get}
use sd_hw.RedisCache.Steps.{set_lem}
use sd_hw.Handlers.{safe_handle, lacks_arg, routes_key, routes_cache_ttl}
use sd_hw.Handlers.Routes.{get_routes, handle_get_routes, routes_json}

abbrev pub empty_list : Services → Text
empty_list sv = sv.json.to_string (routes_json [])

module _ {sv : Services} where
  -- Redis after the first request.
  abbrev pub kept_failure : Text → World sv → sv.redis.State
  kept_failure login w =
      (sv.redis.set (routes_key login) (empty_list sv) routes_cache_ttl
        (sv.redis.get (routes_key login) w.redis).1).1

  -- Two requests, the second in any later state of PostgreSQL.
  pub record Hides (request : Request) (w : World sv) (pg : sv.pg.State) : Type 0 where
    pub first : (handle_get_routes request w).0 ≡ ok (empty_list sv)
    pub status : (handle_get_routes request w).1.response ≡ w.response
    pub second :
        (handle_get_routes request (record (handle_get_routes request w).1 { pg = pg })).0
        ≡ ok (empty_list sv)
    pub unasked :
        (handle_get_routes request (record (handle_get_routes request w).1 { pg = pg })).1.pg ≡ pg

  failed :
      (request : Request) (w : World sv) (e : Exn)
      → lacks_arg request "login" ≡ false
      → (sv.redis.get (routes_key (request.get_arg "login")) w.redis).0 ≡ ok none
      → (sv.pg.execute (select_routes_by_owner (request.get_arg "login")) w.pg).0 ≡ err e
      → handle_get_routes request w ≡ (
        ok (empty_list sv),
        record w {
          pg = (sv.pg.execute (select_routes_by_owner (request.get_arg "login")) w.pg).1;
          redis = kept_failure (request.get_arg "login") w;
        },
      )
  unfolding handle_get_routes get_routes safe_handle get get_routes_by_user
  failed request w e given miss fails = rw (given, miss, fails, set_lem) refl

  hit :
      (request : Request) (w : World sv) (body : Text)
      → lacks_arg request "login" ≡ false
      → (sv.redis.get (routes_key (request.get_arg "login")) w.redis).0 ≡ ok (some body)
      → handle_get_routes request w ≡ (
        ok body,
        record w { redis = (sv.redis.get (routes_key (request.get_arg "login")) w.redis).1 },
      )
  unfolding handle_get_routes get_routes safe_handle get
  hit request w body given there = rw (given, there) refl

-- If the routes of a login are not in the cache and the SELECT for them fails, the answer is the empty
-- list with the status of a success; and if Redis then gives back what it was given, the next request
-- for the login is answered with the empty list again, whatever routes PostgreSQL has by then, and
-- PostgreSQL is not asked.
pub handle_get_routes-Hides :
    {sv : Services} (request : Request) (w : World sv) (e : Exn) (pg : sv.pg.State)
    → lacks_arg request "login" ≡ false
    → (sv.redis.get (routes_key (request.get_arg "login")) w.redis).0 ≡ ok none
    → (sv.pg.execute (select_routes_by_owner (request.get_arg "login")) w.pg).0 ≡ err e
    → (sv.redis.get
        (routes_key (request.get_arg "login"))
        (kept_failure (request.get_arg "login") w)).0
      ≡ ok (some (empty_list sv))
    → Hides request w pg
handle_get_routes-Hides {sv} request w e pg given miss fails kept =
    let first = failed request w e given miss fails in
    let later : World sv = record w { pg = pg; redis = kept_failure (request.get_arg "login") w } in
    let second = hit request later (empty_list sv) given kept in
    record {
      first = rw first refl;
      status = rw first refl;
      second = rw (first, second) refl;
      unasked = rw (first, second) refl;
    }
