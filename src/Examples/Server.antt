-- ===== src/Examples/Server.antt =====
-- The theorems on the configuration of the server at some requests.
use sd_hw.Prelude.{◌≡◌, refl}
use sd_hw.Handlers.Registered.{create_route}
use sd_hw.Server.Routing.{method_path-injective}
use sd_hw.Server.Guarded.{Guards, serve_endpoint-Guards}
use sd_hw.Examples.Sessions.{tokens}
use sd_hw.Examples.Fixture.{start, request}

serve_endpoint-Guards_example : Guards tokens create_route request start
serve_endpoint-Guards_example = serve_endpoint-Guards tokens create_route request start

method_path-injective_example : create_route ≡ create_route
method_path-injective_example = method_path-injective create_route create_route refl refl
