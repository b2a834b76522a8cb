-- ===== src/Orchestrator/Supervisor/Tests.antt =====
-- `_stop_all` at a concrete configuration.
use mathlib.Core.List.{Perm, flatten}
use jetty.Prelude.{some, List, [], ◌∷◌, ◌≡◌, refl, sorted}
use jetty.Prelude.Dict.{keys, get, put}
use jetty.Prelude.Text.{Str, codes, str_eq}
use jetty.Orchestrator.Config.StartOrder.{order, start_order}
use jetty.Orchestrator.Config.Tests.{shop, shop_services, Distinct-shop, validate-shop}
use jetty.Orchestrator.Supervisor.Stop.{stop_all}
use jetty.Orchestrator.Supervisor.Stop.Waves.{DependentsFirst, stop_all-validated}

stop_all-shop :
    stop_all (codes "db" ∷ codes "api" ∷ codes "web" ∷ []) shop_services
    ≡ some ((codes "web" ∷ []) ∷ (codes "api" ∷ []) ∷ (codes "db" ∷ []) ∷ [])
unfolding stop_all sorted str_eq get put
stop_all-shop = refl

stop_all-validated_example :
    (names : List Str) × (start_order shop_services ≡ order names)
    × ((waves : List (List Str)) × (stop_all names shop_services ≡ some waves)
        × Perm (flatten waves) (keys shop_services)
        × DependentsFirst shop_services [] waves)
stop_all-validated_example = stop_all-validated shop Distinct-shop validate-shop
