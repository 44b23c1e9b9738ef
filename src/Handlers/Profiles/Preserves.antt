-- ===== src/Handlers/Profiles/Preserves.antt =====
-- Steps that keep the profiles in the cache coherent.
use sd_hw.Prelude.{ℕ, zero, suc, [], ◌∷◌, arith, ◌≡◌, ◌≢◌, ap, sym, ◌∙◌, inl, inr, subst, Text}
use sd_hw.Prelude.Int.{ℤ}
use sd_hw.Models.{Route}
use sd_hw.Services.{Services, Query}
use sd_hw.App.{World, call_pg, call_redis}
use sd_hw.App.Preserves.{Preserves}
use sd_hw.PgStorage.Queries.{insert_route}
use sd_hw.RateLimiter.{rate_limit_script, rate_limit_key}
use sd_hw.Handlers.{user_key, routes_key}
use sd_hw.Handlers.Histories.{Statement, Frame}
use sd_hw.Handlers.Profiles.{Stores, Profile, Coherent}

-- The byte at a position, 0 behind the end.
abbrev pub byte : ℕ → Text → ℕ
byte n [] = 0
byte zero (c ∷ s) = c
byte (suc n) (c ∷ s) = byte n s

-- The keys of profiles are no keys of the rate limiter, nor of the routes in the cache.
user-limit : (login client : Text) → user_key login ≢ rate_limit_key client
user-limit login client e = omega (arith, ap (byte 0) e)

pub user-routes : (login owner : Text) → user_key login ≢ routes_key owner
user-routes login owner e = omega (arith, ap (byte 6) e)

module _ {sv : Services} (st : Stores sv) where
  -- A row that was there is there after a statement.
  pub Preserves-execute :
      (q : Query) → Statement q → Preserves (Coherent st) (call_pg sv (sv.pg.execute q))
  Preserves-execute q s = record {
    at = λ w h. record {
      at = λ login body hit.
          let p = h.at login body hit in
          record {
            user = p.user;
            stored = st.table.row_kept q login p.user w.pg s p.stored;
            printed = p.printed;
          };
    };
  }

  pub Preserves-insert_route :
      (route : Route) → Preserves (Coherent st) (call_pg sv (sv.pg.execute (insert_route route)))
  Preserves-insert_route route = record {
    at = λ w h. record {
      at = λ login body hit.
          let p = h.at login body hit in
          record {
            user = p.user;
            stored = st.table.row_kept_by_route route login p.user w.pg p.stored;
            printed = p.printed;
          };
    };
  }

  pub Preserves-get : (k : Text) → Preserves (Coherent st) (call_redis sv (sv.redis.get k))
  Preserves-get k = record {
    at = λ w h. record {
      at = λ login body hit.
          h.at login body (st.cache.get_keeps k (user_key login) body w.redis hit);
    };
  }

  pub Preserves-del : (k : Text) → Preserves (Coherent st) (call_redis sv (sv.redis.del k))
  Preserves-del k = record {
    at = λ w h. record {
      at = λ login body hit.
          h.at login body (st.cache.del_keeps k (user_key login) body w.redis hit);
    };
  }

  -- A value may be set for a key that is no user's.
  pub Preserves-set :
      (k v : Text) (n : ℤ)
      → ((login : Text) → user_key login ≢ k)
      → Preserves (Coherent st) (call_redis sv (sv.redis.set k v n))
  Preserves-set k v n other = record {
    at = λ w h. record {
      at = λ login body hit. elim (st.cache.set_after k v (user_key login) body n w.redis hit) [
        | inl (e, _) ↦ absurd (other login e)
        | inr old ↦ h.at login body old
      ];
    };
  }

  pub Preserves-eval :
      (client : Text) (limit window : ℤ)
      → Preserves (Coherent st) (
          call_redis sv
            (sv.redis.eval (rate_limit_script sv.redis (rate_limit_key client) limit window)))
  Preserves-eval client limit window = record {
    at = λ w h. record {
      at = λ login body hit. h.at login body (
          st.cache.eval_keeps client limit window (user_key login) body w.redis
            (user-limit login client) hit);
    };
  }

  transports : (w v : World sv) → v.pg ≡ w.pg → v.redis ≡ w.redis → Coherent st w → Coherent st v
  transports w v pg redis h = record {
    at = λ login body hit.
        subst (λ s. Profile st s login body) (sym pg)
          (h.at login body (ap (λ s. st.cache.cached s (user_key login)) (sym redis) ∙ hit));
  }

  pub frame : Frame (Coherent st)
  frame = record {
    transports = transports;
    executes = Preserves-execute;
    gets = Preserves-get;
    deletes = Preserves-del;
    evaluates = Preserves-eval;
  }
