-- ===== src/Startup/Topology.antt =====
-- What the start of the service does to the broker.
use sd_hw.Prelude.{
  ℕ, ◌≡◌, refl, sym, ap, subst, ◌⊎◌, inl, inr, Bool, true, false, List, [], ◌∷◌, String, All,
}
use sd_hw.Services.{Services}
use sd_hw.Services.Results.{ok}
use sd_hw.App.{World}
use sd_hw.Events.{declare_event_topology}
use sd_hw.Startup.Components.{
  Component, component_list, event_publisher, storage_pg_component, storage_mongo_component,
  redis_cache_component, rate_limiter_component, event_publisher_component,
  event_consumer_component, login_user_handler, create_user_handler, get_user_handler,
  search_users_handler, create_route_handler, get_routes_handler, create_trip_handler,
  add_user_to_trip_handler, get_trip_handler, auth_middleware_factory, event_components,
  api_handlers,
}
use sd_hw.Startup.{constructed, framework, In, Reached, begun, constructs}
use sd_hw.Startup.Constructed.{missing, missing-constructed}
use package.text.Mathlib.Text.{◌==◌ as str_eq}

module _ {sv : Services} where
  -- The constructor of another component than the publisher: it changes nothing.
  record Quiet (c : Component sv) : Type 0 where
    other : str_eq c.name event_publisher ≡ false
    same : (v : World sv) → (c.construct v).1 ≡ v

  abbrev Role : Component sv → Type 0
  Role c = (c ≡ event_publisher_component) ⊎ Quiet c

  listed : (c : Component sv) (cs : List (Component sv)) → All Role cs → In c cs → Role c
  listed c [] all h = elim h [ ]
  listed c (d ∷ cs) all (inl same) = subst Role (sym same) all.0
  listed c (d ∷ cs) all (inr later) = listed c cs all.1 later

  quiet :
      (c : Component sv)
      → str_eq c.name event_publisher ≡ false
      → ((v : World sv) → (c.construct v).1 ≡ v)
      → Role c
  quiet c other same = inr (record { other = other; same = same })

roles : (sv : Services) → All Role (component_list {sv = sv})
unfolding component_list storage_pg_component storage_mongo_component redis_cache_component
    rate_limiter_component event_consumer_component login_user_handler create_user_handler
    get_user_handler search_users_handler create_route_handler get_routes_handler
    create_trip_handler add_user_to_trip_handler get_trip_handler auth_middleware_factory
    event_components api_handlers
roles sv = (
  quiet _ refl (λ v. refl),
  (
    quiet _ refl (λ v. refl),
    (
      quiet _ refl (λ v. refl),
      (
        quiet _ refl (λ v. refl),
        (
          inl refl,
          (
            quiet _ refl (λ v. refl),
            (
              quiet _ refl (λ v. refl),
              (
                quiet _ refl (λ v. refl),
                (
                  quiet _ refl (λ v. refl),
                  (
                    quiet _ refl (λ v. refl),
                    (
                      quiet _ refl (λ v. refl),
                      (
                        quiet _ refl (λ v. refl),
                        (
                          quiet _ refl (λ v. refl),
                          (
                            quiet _ refl (λ v. refl),
                            (quiet _ refl (λ v. refl), (quiet _ refl (λ v. refl), tt)),
                          ),
                        ),
                      ),
                    ),
                  ),
                ),
              ),
            ),
          ),
        ),
      ),
    ),
  ),
)

publisher_listed : (sv : Services) → In event_publisher_component (component_list {sv = sv})
unfolding component_list event_components api_handlers
publisher_listed sv = inr (inr (inr (inr (inl refl))))

-- The services and the broker at a point of the start: the topology is declared, and nothing else
-- has happened, once the publisher is constructed.
pub record Declares {sv : Services} (w : World sv) (names : List String) (v : World sv)
    : Type 0 where
  pub declared : constructed event_publisher names ≡ true → declare_event_topology w ≡ (ok tt, v)
  pub untouched : constructed event_publisher names ≡ false → v ≡ w
  pub complete : missing {sv = sv} component_list names ≡ 0 → declare_event_topology w ≡ (ok tt, v)

module _ {sv : Services} where
  -- The first two fields, on which the third rests.
  abbrev State : World sv → World sv → Bool → Type 0
  State w v there = (there ≡ true → declare_event_topology w ≡ (ok tt, v)) × (there ≡ false → v ≡ w)

  publisher_after :
      (w v : World sv) (names : List String)
      → State w v (constructed event_publisher names)
      → constructed event_publisher names ≡ false
      → (declare_event_topology v).0 ≡ ok tt
      → State w (declare_event_topology v).1 true
  publisher_after w v names state fresh returned = (
    λ _.
        subst
          (λ u.
            (declare_event_topology u).0 ≡ ok tt
            → declare_event_topology w ≡ (ok tt, (declare_event_topology u).1))
          (sym (state.1 fresh)) (λ r. ap (λ x. (x, (declare_event_topology w).1)) r) returned,
    λ e. absurd (cc),
  )

  after :
      (w v : World sv) (names : List String) (c : Component sv)
      → Role c
      → State w v (constructed event_publisher names)
      → constructed c.name names ≡ false
      → (c.construct v).0 ≡ ok tt
      → State w (c.construct v).1 (constructed event_publisher (c.name ∷ names))
  unfolding constructed event_publisher_component
  after w v names c (inr q) state fresh returned = rw (q.other, q.same v) state
  after w v names c (inl same) state fresh returned =
      subst
        (λ d.
          constructed d.name names ≡ false
          → (d.construct v).0 ≡ ok tt
          → State w (d.construct v).1 (constructed event_publisher (d.name ∷ names)))
        (sym same) (publisher_after w v names state) fresh returned

  Reached-State :
      {minimal : List String} {w v : World sv} {n : ℕ} {names : List String}
      → constructed event_publisher minimal ≡ false
      → Reached minimal w n names v
      → State w v (constructed event_publisher names)
  unfolding constructed framework
  Reached-State foreign begun = (λ e. absurd (cc), λ _. refl)
  Reached-State foreign (constructs c before ready returned) =
      after _ _ _ c (listed c component_list (roles sv) ready.appended)
        (Reached-State foreign before) ready.fresh returned

-- In whatever order the constructors run, if no component of the framework has the publisher's name:
-- the service and the broker are as they were until the publisher is constructed, and from then on
-- they are what the three declarations made of them, of which none failed; so when all components are
-- constructed, and requests are served, the exchange and the bound queue have been declared, once.
pub Reached-Declares :
    {sv : Services} (minimal : List String) (w v : World sv) (n : ℕ) (names : List String)
    → constructed event_publisher minimal ≡ false
    → Reached minimal w n names v
    → Declares w names v
unfolding event_publisher_component
Reached-Declares {sv} minimal w v n names foreign reached =
    let state = Reached-State foreign reached in
    record {
      declared = state.0;
      untouched = state.1;
      complete = λ none_left. state.0 (
          missing-constructed event_publisher_component component_list names (publisher_listed sv)
            none_left);
    }
