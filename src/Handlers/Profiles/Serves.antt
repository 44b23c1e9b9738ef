-- ===== src/Handlers/Profiles/Serves.antt =====
-- What GET /v1/users answers, with its cache in front of the table.
use sd_hw.Prelude.{
  ◌≡◌, refl, sym, ap, ◌∙◌, subst, ◌⊎◌, inl, inr, false, none, some, Text, Bool-cases, Option-cases,
}
use sd_hw.Prelude.Int.{ℤ}
use sd_hw.Services.{Services}
use sd_hw.Services.Results.{Result, ok, err, Result-cases}
use sd_hw.Http.{Request}
use sd_hw.App.{World, pure, catch_result, response_of}
use sd_hw.App.Raises.{caught_ok}
use sd_hw.PgStorage.Queries.{select_user}
use sd_hw.RedisCache.{get, set}
use sd_hw.RedisCache.Keeps.{set-Keeps}
use sd_hw.Handlers.{safe_handle, lacks_arg, user_key, user_cache_ttl}
use sd_hw.Handlers.Users.{get_user as answer_user, handle_get_user, user_json}
use sd_hw.Handlers.Bodies.{user_not_found}
use sd_hw.App.Preserves.{Preserves}
use sd_hw.Handlers.Histories.{to_select_user}
use sd_hw.Handlers.Histories.Requests.{get_user_by_login-Preserves}
use sd_hw.Handlers.Profiles.{Stores, Profile, Coherent}
use sd_hw.Handlers.Profiles.Lookup.{Missing, get_user_by_login-Looked}
use sd_hw.Handlers.Profiles.Preserves.{frame, Preserves-get}

module _ {sv : Services} (st : Stores sv) where
  -- The answer is the profile of the login as the table has it, or 404.
  pub record Serves (login : Text) (w : World sv) (r : Result Text × World sv) : Type 0 where
    pub answer :
        ((body : Text) × (r.0 ≡ ok body) × Profile st w.pg login body × (r.1.response ≡ w.response))
        ⊎ ((r.0 ≡ ok user_not_found) × (r.1.response.status ≡ 404) × Missing st w.pg login)
    pub coherent : Coherent st r.1

  user_key-injective : (j k : Text) → user_key j ≡ user_key k → j ≡ k
  user_key-injective j k e = cc

  set-ok : (key value : Text) (n : ℤ) (w : World sv) → (set key value n w).0 ≡ ok tt
  unfolding set
  set-ok key value n w = caught_ok _ _

  -- A profile of the table may be set for the key of its login.
  set-Coherent :
      (login value : Text) (n : ℤ) (w : World sv)
      → Profile st w.pg login value
      → Coherent st w
      → Coherent st (set (user_key login) value n w).1
  unfolding set
  set-Coherent login value n w p h =
      swallowed (sv.redis.set (user_key login) value n w.redis).0
        (record w { redis = (sv.redis.set (user_key login) value n w.redis).1 })
        (record {
          at = λ j body hit.
              elim (st.cache.set_after (user_key login) value (user_key j) body n w.redis hit) [
                | inl (own, new) ↦
                    rw (user_key-injective j login own)
                      (record { user = p.user; stored = p.stored; printed = new ∙ p.printed })
                | inr old ↦ h.at j body old
              ];
        })
    where
      swallowed :
          (r : Result (Unit {0})) (v : World sv)
          → Coherent st v
          → Coherent st (catch_result r (λ e. pure tt) v).1
      swallowed (ok _) v h = h
      swallowed (err e) v h = h

  -- A miss: the table, and then the cache.
  missed :
      (request : Request) (w v : World sv)
      → Coherent st v
      → v.pg ≡ w.pg
      → v.response ≡ w.response
      → lacks_arg request "login" ≡ false
      → get (user_key (request.get_arg "login")) w ≡ (ok none, v)
      → Serves (request.get_arg "login") w (handle_get_user request w)
  unfolding handle_get_user answer_user safe_handle
  missed request w v h pg response given miss =
      let login = request.get_arg "login" in
      let looked = get_user_by_login-Looked st login v in
      let good = (get_user_by_login-Preserves (frame st) login).at v h in
      elim (Option-cases looked.found) [
        | inl e ↦
            rw (given, miss, looked.result, e)
              (record {
                answer = inr (refl, refl, subst (λ s. Missing st s login) pg (looked.absent e));
                coherent = record { at = good.at };
              })
        | inr (user, e) ↦
            let stored = looked.real user e in
            let result = sv.json.to_string (user_json user) in
            rw (given, miss, looked.result, e, set-ok)
              (record {
                answer = inl (
                  result,
                  refl,
                  record {
                    user = user;
                    stored = ap (λ s. st.table.user_at s login) (sym pg) ∙ stored;
                    printed = refl;
                  },
                  (set-Keeps {part = response_of} (λ A f. record { at = λ x. refl })
                          (user_key login) result user_cache_ttl).at
                        _
                      ∙ looked.response
                      ∙ response,
                );
                coherent =
                    set-Coherent login result user_cache_ttl _
                      (record {
                        user = user;
                        stored =
                            ap (λ s. st.table.user_at s login) looked.pg
                            ∙ st.table.row_kept (select_user login) login user v.pg
                                (to_select_user login) stored;
                        printed = refl;
                      })
                      good;
              })
      ]

  pub read_through :
      (request : Request) (w : World sv)
      → Coherent st w
      → lacks_arg request "login" ≡ false
      → Serves (request.get_arg "login") w (handle_get_user request w)
  unfolding handle_get_user answer_user safe_handle get
  read_through request w h given =
      let login = request.get_arg "login" in
      let key = user_key login in
      let asked : World sv = record w { redis = (sv.redis.get key w.redis).1 } in
      let good : Coherent st asked = (Preserves-get st key).at w h in
      elim (Result-cases (sv.redis.get key w.redis).0) [
        | inl (none, e) ↦ missed request w asked good refl refl given (rw e refl)
        | inl (some body, e) ↦
            rw (given, e)
              (record {
                answer =
                    inl (body, refl, h.at login body (st.cache.get_hit key body w.redis e), refl);
                coherent = good;
              })
        | inr (x, e) ↦ missed request w asked good refl refl given (rw e refl)
      ]

  pub handle_get_user-Preserves :
      (request : Request) → Preserves (Coherent st) (handle_get_user request)
  unfolding handle_get_user answer_user safe_handle
  handle_get_user-Preserves request = record {
    at = λ w h. elim (Bool-cases (lacks_arg request "login")) [
      | inl e ↦ rw e (record { at = h.at })
      | inr e ↦ (read_through request w h e).coherent
    ];
  }
