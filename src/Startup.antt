-- ===== src/Startup.antt =====
-- src/main.cpp and the constructors of the components that it appends. The framework gives each
-- component a name, constructs each one once, and lets a constructor wait in FindComponent until the
-- component of that name is constructed.
pub mod Components
pub mod Constructed
pub mod Progress
pub mod Topology
use package.text.Mathlib.Text.{◌==◌ as str_eq}
use sd_hw.Prelude.{
  ℕ, ◌+◌, ◌≡◌, ◌⊎◌, Bool, true, false, ◌&&◌, List, [], ◌∷◌, ◌++◌, String, if◌then◌else◌,
}
use sd_hw.Services.{Services}
use Components.{Component, postgres_name, mongo_name, rabbit_name, redis_name, component_list}
use sd_hw.Services.Results.{ok}
use sd_hw.App.{World, App, pure}
use sd_hw.Events.{declare_event_topology}

-- The framework's components that are constructed before the program's: those that `main` names and
-- the program looks for, and others, `minimal`. The framework's own HTTP handlers find the program's
-- middleware, and so come later; no constructor of the program looks for them.
unfoldable pub framework : List String → List String
framework minimal = postgres_name ∷ mongo_name ∷ rabbit_name ∷ redis_name ∷ minimal

unfoldable pub constructed : String → List String → Bool
constructed name [] = false
constructed name (n ∷ names) = if str_eq n name then true else constructed name names

unfoldable pub all_constructed : List String → List String → Bool
all_constructed [] names = true
all_constructed (n ∷ finds) names = constructed n names && all_constructed finds names

module _ {sv : Services} where
  abbrev pub In : Component sv → List (Component sv) → Type 0
  In c [] = ⊥
  In c (d ∷ ds) = (c ≡ d) ⊎ In c ds

  -- A constructor that has not run and finds all that it looks for.
  pub record Ready (names : List String) (c : Component sv) : Type 0 where
    pub appended : In c component_list
    pub fresh : constructed c.name names ≡ false
    pub found : all_constructed c.finds names ≡ true

  -- The names that are constructed, the world, and the number of constructors that have returned,
  -- in any order in which each one finds what it looks for.
  pub data Reached (minimal : List String) (w : World sv)
      : ℕ → List String → World sv → Type 0 where
    begun : Reached minimal w 0 (framework minimal) w
    constructs :
        {n : ℕ} {names : List String} {v : World sv} (c : Component sv)
        → Reached minimal w n names v
        → Ready names c
        → (c.construct v).0 ≡ ok tt
        → Reached minimal w (1 + n) (c.name ∷ names) (c.construct v).1
