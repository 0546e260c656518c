-- ===== src/Routing.antt =====
-- sdk-python/intermesh/policy.py: which organisation may send to which. The set of allowed
-- connections is a list without repetition, each a text that joins the two names.
pub mod Agreements
mod Tests
use intermesh.Prelude.{
  Text, codes, Bool, true, List, [], ◌∷◌, ◌++◌, contains, ◌==◌, text_eq, if◌then◌else◌,
}

pub record Enforcer : Type 0 where
  pub allow_cross_tenant_by_default : Bool
  pub allowed_connections : List Text

-- `f"{from_org}->{to_org}"`
unfoldable pub connection : Text → Text → Text
connection from_org to_org = from_org ++ 45 ∷ 62 ∷ to_org

-- `set.discard`
unfoldable pub discard : Text → List Text → List Text
discard k [] = []
discard k (j ∷ js) = let rest = discard k js in if j == k then rest else j ∷ rest

unfoldable pub allow_cross_tenant_connection : Text → Text → Enforcer → Enforcer
allow_cross_tenant_connection from_org to_org e =
    let k = connection from_org to_org in
    record e {
      allowed_connections =
          if contains k e.allowed_connections
          then e.allowed_connections
          else k ∷ e.allowed_connections;
    }

unfoldable pub revoke_cross_tenant_connection : Text → Text → Enforcer → Enforcer
revoke_cross_tenant_connection from_org to_org e = record e {
  allowed_connections = discard (connection from_org to_org) e.allowed_connections;
}

unfoldable pub can_route : Text → Text → Enforcer → Bool
can_route sender_org recipient_org e =
    if sender_org == recipient_org
    then true
    else if e.allow_cross_tenant_by_default
    then true
    else contains (connection sender_org recipient_org) e.allowed_connections
