-- ===== src/Handlers/Profiles/Writers.antt =====
-- The handlers that keep the profiles in the cache coherent for a reason of their own.
use sd_hw.Prelude.{Text}
use sd_hw.Prelude.Int.{ℤ}
use sd_hw.Models.{Route}
use sd_hw.Services.{Services}
use sd_hw.Http.{Request}
use sd_hw.App.Preserves.{Preserves, Preserves-try, preserves_rules}
use sd_hw.PgStorage.{add_route}
use sd_hw.RedisCache.{set}
use sd_hw.Handlers.{routes_key}
use sd_hw.Handlers.Routes.{create_route, handle_create_route, get_routes, handle_get_routes}
use sd_hw.Handlers.Histories.Requests.{steps, safe_handle-Preserves}
use sd_hw.Handlers.Profiles.{Stores, Coherent}
use sd_hw.Handlers.Profiles.Preserves.{frame, Preserves-insert_route, Preserves-set, user-routes}

module _ {sv : Services} (st : Stores sv) where
  add_route-Preserves : (route : Route) → Preserves (Coherent st) (add_route route)
  unfolding add_route
  add_route-Preserves route = search (preserves_rules, Preserves-insert_route) depth 16

  set_routes-Preserves :
      (owner value : Text) (n : ℤ) → Preserves (Coherent st) (set (routes_key owner) value n)
  unfolding set
  set_routes-Preserves owner value n =
      Preserves-try _ _
        (Preserves-set st (routes_key owner) value n (λ name. user-routes name owner))
        (λ e. search preserves_rules)

  pub handle_create_route-Preserves :
      (request : Request) → Preserves (Coherent st) (handle_create_route request)
  unfolding handle_create_route create_route
  handle_create_route-Preserves request =
      let f = frame st in search (steps, safe_handle-Preserves, add_route-Preserves) depth 16

  pub handle_get_routes-Preserves :
      (request : Request) → Preserves (Coherent st) (handle_get_routes request)
  unfolding handle_get_routes get_routes
  handle_get_routes-Preserves request =
      let f = frame st in search (steps, safe_handle-Preserves, set_routes-Preserves) depth 16
