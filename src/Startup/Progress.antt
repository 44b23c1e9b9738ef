-- ===== src/Startup/Progress.antt =====
-- The start of the service does not hang: the constructors wait for each other in no circle.
use sd_hw.Prelude.{
  ℕ, ◌+◌, ◌≤◌, ◌≡◌, refl, sym, subst, ◌∙◌, ◌⊎◌, inl, inr, Bool, true, false, ◌&&◌, List, [], ◌∷◌,
  ◌++◌, String, arith, Bool-cases,
}
use sd_hw.Services.{Services}
use sd_hw.App.{World}
use sd_hw.Startup.Components.{
  Component, component_list, storage_pg_component, storage_mongo_component, redis_cache_component,
  rate_limiter_component, event_publisher_component, event_consumer_component, login_user_handler,
  create_user_handler, get_user_handler, search_users_handler, create_route_handler,
  get_routes_handler, create_trip_handler, add_user_to_trip_handler, get_trip_handler,
  auth_middleware_factory, event_components, api_handlers,
}
use sd_hw.Startup.{constructed, all_constructed, framework, In, Ready, Reached, begun, constructs}
use sd_hw.Startup.Constructed.{
  Within, Within-head, Within-cons, Within-append, all_constructed-Within, missing, missing-length,
  missing-constructs, missing-last, missing-++, In-last, In-append, In-++,
}

module _ {sv : Services} where
  -- Each constructor finds what stands before it.
  abbrev ordered : List String → List (Component sv) → Bool
  ordered seen [] = true
  ordered seen (c ∷ cs) = all_constructed c.finds seen && ordered (c.name ∷ seen) cs

module _ {sv : Services} where
  -- What `main` appends before the handlers.
  abbrev services : List (Component sv)
  services =
      storage_pg_component ∷ storage_mongo_component ∷ redis_cache_component
      ∷ rate_limiter_component ∷ event_components

  -- The order in which no constructor waits: the factory of the middleware, which `main` appends
  -- last, comes before the handlers.
  abbrev waits_for_none : List (Component sv)
  waits_for_none = services ++ auth_middleware_factory ∷ api_handlers

waits_for_none-ordered : (sv : Services) → ordered (framework []) (waits_for_none {sv = sv}) ≡ true
unfolding storage_pg_component storage_mongo_component redis_cache_component rate_limiter_component
    event_publisher_component event_consumer_component login_user_handler create_user_handler
    get_user_handler search_users_handler create_route_handler get_routes_handler
    create_trip_handler add_user_to_trip_handler get_trip_handler auth_middleware_factory
    event_components api_handlers framework constructed all_constructed
waits_for_none-ordered sv = refl

module _ {sv : Services} where
  waits_for_none-In : (c : Component sv) → In c waits_for_none → In c component_list
  unfolding component_list event_components api_handlers
  waits_for_none-In c =
      In-++ c services (auth_middleware_factory ∷ api_handlers)
        (api_handlers ++ auth_middleware_factory ∷ []) moved
    where
      moved :
          In c (auth_middleware_factory ∷ api_handlers)
          → In c (api_handlers ++ auth_middleware_factory ∷ [])
      moved (inl same) =
          subst (λ d. In d (api_handlers ++ auth_middleware_factory ∷ [])) (sym same)
            (In-last auth_middleware_factory api_handlers)
      moved (inr handler) = In-append c api_handlers (auth_middleware_factory ∷ []) handler

missing-waits_for_none :
    (sv : Services) (names : List String)
    → missing {sv = sv} component_list names ≡ missing {sv = sv} waits_for_none names
unfolding component_list event_components api_handlers
missing-waits_for_none sv names =
    missing-++ (services {sv = sv}) (api_handlers ++ auth_middleware_factory ∷ [])
      (auth_middleware_factory ∷ api_handlers) names
      (missing-last auth_middleware_factory api_handlers names)

module _ {sv : Services} where
  pub record Next (cs : List (Component sv)) (names : List String) : Type 0 where
    pub component : Component sv
    pub listed : In component cs
    pub fresh : constructed component.name names ≡ false
    pub found : all_constructed component.finds names ≡ true

  next :
      (cs : List (Component sv)) (seen names : List String)
      → Within seen names
      → ordered seen cs ≡ true
      → (missing cs names ≡ 0) ⊎ Next cs names
  unfolding missing
  next [] seen names sub h = inl refl
  next (c ∷ cs) seen names sub h = elim (Bool-cases (all_constructed c.finds seen)) [
    | inr unfound ↦ absurd (cc)
    | inl found ↦ elim (Bool-cases (constructed c.name names)) [
      | inl hit ↦
          rw hit
            (elim (next cs (c.name ∷ seen) names (Within-head c.name seen names hit sub)
              (rw found at h)) [
                | inl done ↦ inl done
                | inr n ↦ inr (record {
                  component = n.component;
                  listed = inr n.listed;
                  fresh = n.fresh;
                  found = n.found;
                })
              ])
      | inr miss ↦ inr (record {
        component = c;
        listed = inl refl;
        fresh = miss;
        found = all_constructed-Within c.finds seen names sub found;
      })
    ]
  ]

  Reached-framework :
      {minimal : List String} {w v : World sv} {n : ℕ} {names : List String}
      → Reached minimal w n names v
      → Within (framework []) names
  unfolding framework
  Reached-framework {minimal} begun = Within-append (framework []) minimal
  Reached-framework (constructs c before ready returned) =
      Within-cons c.name _ _ (Reached-framework before)

  Reached-missing :
      {minimal : List String} {w v : World sv} {n : ℕ} {names : List String}
      → Reached minimal w n names v
      → n + missing {sv = sv} component_list names ≤ 16
  unfolding component_list event_components api_handlers
  Reached-missing {minimal} begun =
      omega (arith, missing-length {sv = sv} component_list (framework minimal))
  Reached-missing (constructs c before ready returned) = omega (
    arith,
    Reached-missing before,
    missing-constructs c component_list _ ready.appended ready.fresh,
  )

-- Where the start has come to, in a given order of the constructors: at most 16 have returned, and
-- if any of the program's components is missing then there is one that need not wait.
pub record Progresses (sv : Services) (n : ℕ) (names : List String) : Type 0 where
  pub bounded : n + missing {sv = sv} component_list names ≤ 16
  pub goes_on : (missing {sv = sv} component_list names ≡ 0) ⊎ ((c : Component sv) × Ready names c)

-- In whatever order the constructors run, each one after what it finds (with the middlewares that the
-- base class of the handlers finds by the configuration), they are at most 16 in number, and while
-- one of the components that the functions Append… of `main` append is missing, there is one of them
-- that is not constructed and whose modelled lookups all find what they look for.
pub Reached-Progresses :
    {sv : Services} (minimal : List String) (w v : World sv) (n : ℕ) (names : List String)
    → Reached minimal w n names v
    → Progresses sv n names
Reached-Progresses {sv} minimal w v n names reached = record {
  bounded = Reached-missing reached;
  goes_on =
      elim (next waits_for_none (framework []) names (Reached-framework reached)
        (waits_for_none-ordered sv)) [
          | inl done ↦ inl (missing-waits_for_none sv names ∙ done)
          | inr c ↦ inr (
            c.component,
            record {
              appended = waits_for_none-In c.component c.listed;
              fresh = c.fresh;
              found = c.found;
            },
          )
        ];
}
