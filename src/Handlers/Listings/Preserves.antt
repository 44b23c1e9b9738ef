-- ===== src/Handlers/Listings/Preserves.antt =====
-- Steps that keep the routes in the cache coherent.
use sd_hw.Prelude.{refl, some, arith, ◌≡◌, ◌≢◌, ap, sym, ◌∙◌, inl, inr, subst, Text}
use sd_hw.Prelude.Int.{ℤ}
use sd_hw.Services.{Services}
use sd_hw.Http.{Request}
use sd_hw.App.{World, call_redis}
use sd_hw.App.Preserves.{Preserves, Preserves-try, preserves_rules}
use sd_hw.RateLimiter.{rate_limit_key}
use sd_hw.RedisCache.{set}
use sd_hw.Handlers.{user_key, routes_key}
use sd_hw.Handlers.Routes.{routes_json}
use sd_hw.Handlers.Users.{get_user, handle_get_user}
use sd_hw.Handlers.Histories.{Frame}
use sd_hw.Handlers.Histories.Requests.{steps, safe_handle-Preserves}
use sd_hw.Handlers.Profiles.Preserves.{byte, user-routes}
use sd_hw.Handlers.Listings.{RouteStores, Coherent}

routes-limit : (owner client : Text) → routes_key owner ≢ rate_limit_key client
routes-limit owner client e = omega (arith, ap (byte 0) e)

module _ {sv : Services} (st : RouteStores sv) where
  -- A step that changes no list of routes and sets none in the cache.
  pub quiet :
      (w v : World sv)
      → ((owner : Text) → st.table.routes_of v.pg owner ≡ st.table.routes_of w.pg owner)
      → ((owner body : Text)
          → st.cache.cached v.redis (routes_key owner) ≡ some body
          → st.cache.cached w.redis (routes_key owner) ≡ some body)
      → Coherent st w
      → Coherent st v
  quiet w v routes cached h = record {
    at = λ owner body hit.
        subst (λ rs. body ≡ sv.json.to_string (routes_json rs)) (sym (routes owner))
          (h.at owner body (cached owner body hit));
  }

  pub frame : Frame (Coherent st)
  frame = record {
    transports = λ w v pg redis h.
        quiet w v (λ owner. ap (λ s. st.table.routes_of s owner) pg)
          (λ owner body hit. ap (λ s. st.cache.cached s (routes_key owner)) (sym redis) ∙ hit) h;
    executes = λ q s. record {
      at =
          λ w h. quiet w _ (λ owner. st.table.routes_kept q owner w.pg s) (λ owner body hit. hit) h;
    };
    gets = λ k. record {
      at = λ w h.
          quiet w _ (λ owner. refl)
            (λ owner body hit. st.cache.get_keeps k (routes_key owner) body w.redis hit) h;
    };
    deletes = λ k. record {
      at = λ w h.
          quiet w _ (λ owner. refl)
            (λ owner body hit. st.cache.del_keeps k (routes_key owner) body w.redis hit) h;
    };
    evaluates = λ client limit window. record {
      at = λ w h.
          quiet w _ (λ owner. refl)
            (λ owner body hit.
              st.cache.eval_keeps client limit window (routes_key owner) body w.redis
                (routes-limit owner client) hit)
            h;
    };
  }

  -- A profile may be set for its key.
  set_profile-Preserves :
      (login value : Text) (n : ℤ)
      → Preserves (Coherent st) (call_redis sv (sv.redis.set (user_key login) value n))
  set_profile-Preserves login value n = record {
    at = λ w h.
        quiet w _ (λ owner. refl)
          (λ owner body hit.
            elim (st.cache.set_after (user_key login) value (routes_key owner) body n w.redis hit) [
              | inl (e, _) ↦ absurd (user-routes login owner (sym e))
              | inr old ↦ old
            ])
          h;
  }

  set_user-Preserves :
      (login value : Text) (n : ℤ) → Preserves (Coherent st) (set (user_key login) value n)
  unfolding set
  set_user-Preserves login value n =
      Preserves-try _ _ (set_profile-Preserves login value n) (λ e. search preserves_rules)

  pub handle_get_user-Preserves :
      (request : Request) → Preserves (Coherent st) (handle_get_user request)
  unfolding handle_get_user get_user
  handle_get_user-Preserves request =
      let f = frame in search (steps, safe_handle-Preserves, set_user-Preserves) depth 16
