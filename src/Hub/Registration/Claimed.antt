-- ===== src/Hub/Registration/Claimed.antt =====
-- Under which name sdk-python/intermesh/hub.py enters an agent that registers.
use intermesh.Prelude.{
  Text, codes, ◌≡◌, refl, ◌||◌, ◌++◌, ◌∷◌, contains, Bool-cases, inl, inr, nat_eq, text_eq, ◌==◌,
  if◌then◌else◌,
}
use intermesh.Prelude.Json.{Fields}
use intermesh.Identity.{make_identity, start_identity, qualify, org_or_default}
use intermesh.Hub.{Env}
use intermesh.Hub.Names.{qualified_name}
use intermesh.Hub.Registration.{Grant, raw_identity}

-- An agent is entered under its organisation's name and its own, but under its own alone in the
-- organisation "default", or if there is a slash in it: then it names any organisation it likes.
pub qualified_name-make_identity :
    (env : Env) (name : Text) (d : Fields) (g : Grant)
    → qualified_name (make_identity env.identity_digest env.fresh env.now (raw_identity name d g))
      ≡ (if g.org_id == codes "default" || contains 47 name then name else g.org_id ++ 47 ∷ name)
unfolding qualified_name make_identity start_identity qualify org_or_default raw_identity
qualified_name-make_identity env name d g = elim (Bool-cases (g.org_id == codes "default")) [
  | inl plain ↦ rw plain refl
  | inr other ↦ rw other refl
]
