-- ===== src/Routing/Tests.antt =====
-- Agreements between three organisations, and the theorems of this component at them.
use intermesh.Prelude.{codes, ◌≡◌, refl, false, ◌||◌, [], ◌∷◌, contains, ◌==◌, text_eq}
use intermesh.Routing.{Enforcer, connection, can_route}
use intermesh.Routing.Agreements.{
  allows, revokes, run, plain, plain_call, plain_calls, agreed, can_route-agreed,
}

abbrev closed : Enforcer
closed = record { allow_cross_tenant_by_default = false; allowed_connections = [] }

can_route-agreed_example :
    can_route
      (codes "a")
      (codes "b")
      (run closed (allows (codes "a") (codes "b") ∷ revokes (codes "a") (codes "c") ∷ []))
    ≡ (codes "a" == codes "b"
        || closed.allow_cross_tenant_by_default
        || agreed
            (codes "a")
            (codes "b")
            (allows (codes "a") (codes "b") ∷ revokes (codes "a") (codes "c") ∷ [])
            (contains (connection (codes "a") (codes "b")) closed.allowed_connections))
unfolding plain plain_call plain_calls
can_route-agreed_example =
    can_route-agreed (codes "a") (codes "b")
      (allows (codes "a") (codes "b") ∷ revokes (codes "a") (codes "c") ∷ []) closed refl refl
