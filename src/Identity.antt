-- ===== src/Identity.antt =====
-- sdk-python/intermesh/identity.py: who an agent is. `digest` stands for SHA-256 over the sorted JSON of
-- the seven members that the fingerprint covers; times are whole numbers, 0 for 0.0.
use intermesh.Prelude.{
  ℕ, ltb, nat_beq, nat_eq, Text, codes, Bool, true, false, ◌||◌, Option, none, some, List, [], ◌∷◌,
  ◌++◌, contains, text_eq, ◌==◌, if◌then◌else◌,
}
use intermesh.Prelude.Int.{pos}
use intermesh.Prelude.Json.{Items, Fields, str, int, arr, obj, nil, cons, end, field}
use intermesh.Audit.{or_now}
use intermesh.Message.{id_or}

-- What the fingerprint covers, with the three lists sorted.
pub record Covered : Type 0 where
  pub agent_id : Text
  pub org_id : Text
  pub name : Text
  pub capabilities : List Text
  pub roles : List Text
  pub permissions : List Text
  pub created_at : ℕ

pub record AgentIdentity : Type 0 where
  pub agent_id : Text
  pub org_id : Text
  pub name : Text
  pub qualified_name : Text
  pub capabilities : List Text
  pub roles : List Text
  pub permissions : List Text
  pub created_at : ℕ
  pub metadata : Fields
  pub public_key : Option Text
  pub schema : Option Text
  pub fingerprint : Text

-- The members that `from_dict` reads; `name` is mandatory.
pub record RawIdentity : Type 0 where
  pub name : Text
  pub org_id : Option Text
  pub capabilities : Option (List Text)
  pub roles : Option (List Text)
  pub permissions : Option (List Text)
  pub agent_id : Option Text
  pub created_at : Option ℕ
  pub metadata : Option Fields
  pub public_key : Option Text
  pub schema : Option Text
  pub fingerprint : Option Text

-- The order of texts by their code points.
unfoldable pub text_leb : Text → Text → Bool
text_leb [] t = true
text_leb (c ∷ s) [] = false
text_leb (c ∷ s) (d ∷ t) =
    let rest = text_leb s t in if ltb c d then true else if nat_beq c d then rest else false

unfoldable pub place : Text → List Text → List Text
unfolding text_leb
place x [] = x ∷ []
place x (y ∷ ys) = let rest = place x ys in if text_leb x y then x ∷ y ∷ ys else y ∷ rest

-- `sorted`
unfoldable pub sorted : List Text → List Text
unfolding place
sorted [] = []
sorted (x ∷ xs) = place x (sorted xs)

-- `f"{org_id}/{name}" if "/" not in name else name`
unfoldable pub qualify : Text → Text → Text
qualify org name = if contains 47 name then name else org ++ 47 ∷ name

-- `xs or default`
unfoldable pub list_or : List Text → Option (List Text) → List Text
list_or d none = d
list_or d (some []) = d
list_or d (some (x ∷ xs)) = x ∷ xs

unfoldable pub fields_or_end : Option Fields → Fields
fields_or_end none = end
fields_or_end (some f) = f

unfoldable pub org_or_default : Option Text → Text
org_or_default none = codes "default"
org_or_default (some org) = org

unfoldable pub given_or : Text → Option Text → Text
given_or computed none = computed
given_or computed (some f) = f

unfoldable pub covered : AgentIdentity → Covered
unfolding sorted
covered i = record {
  agent_id = i.agent_id;
  org_id = i.org_id;
  name = i.name;
  capabilities = sorted i.capabilities;
  roles = sorted i.roles;
  permissions = sorted i.permissions;
  created_at = i.created_at;
}

-- `has_role`
unfoldable pub has_role : Text → AgentIdentity → Bool
has_role role i = contains role i.roles || contains (codes "admin") i.roles

-- `has_permission`
unfoldable pub has_permission : Text → AgentIdentity → Bool
has_permission permission i =
    if contains (codes "admin:*") i.permissions || contains (codes "admin") i.roles
    then true
    else contains permission i.permissions

unfoldable pub texts : List Text → Items
texts [] = nil
texts (x ∷ xs) = cons (str x) (texts xs)

-- `if self.public_key: d["public_key"] = ...`, and so for the schema, before the members that follow.
unfoldable pub optional_member : Text → Option Text → Fields → Fields
optional_member k none rest = rest
optional_member k (some []) rest = rest
optional_member k (some (c ∷ s)) rest = field k (str (c ∷ s)) rest

-- `to_dict`
unfoldable pub to_dict : AgentIdentity → Fields
unfolding texts optional_member
to_dict i = field (codes "agent_id") (str i.agent_id) (
    field (codes "org_id") (str i.org_id) (
      field (codes "name") (str i.name) (
        field (codes "qualified_name") (str i.qualified_name) (
          field (codes "capabilities") (arr (texts i.capabilities)) (
            field (codes "roles") (arr (texts i.roles)) (
              field (codes "permissions") (arr (texts i.permissions)) (
                field (codes "created_at") (int (pos i.created_at)) (
                  field (codes "metadata") (obj i.metadata) (
                    field (codes "fingerprint") (str i.fingerprint) (
                      optional_member (codes "public_key") i.public_key
                        (optional_member (codes "schema") i.schema end)))))))))))

module _ (digest : Covered → Text) where
  -- `_compute_fingerprint`
  unfoldable pub compute_fingerprint : AgentIdentity → Text
  unfolding covered
  compute_fingerprint i = digest (covered i)

  unfoldable pub verify_fingerprint : AgentIdentity → Bool
  unfolding compute_fingerprint
  verify_fingerprint i = i.fingerprint == compute_fingerprint i

  -- `__init__`, before the fingerprint.
  unfoldable pub start_identity : Text → ℕ → RawIdentity → AgentIdentity
  unfolding id_or or_now qualify list_or fields_or_end org_or_default
  start_identity fresh now raw = record {
    agent_id = id_or fresh raw.agent_id;
    org_id = org_or_default raw.org_id;
    name = raw.name;
    qualified_name = qualify (org_or_default raw.org_id) raw.name;
    capabilities = list_or [] raw.capabilities;
    roles = list_or (codes "standard" ∷ []) raw.roles;
    permissions = list_or [] raw.permissions;
    created_at = or_now now raw.created_at;
    metadata = fields_or_end raw.metadata;
    public_key = raw.public_key;
    schema = raw.schema;
    fingerprint = [];
  }

  -- `from_dict`, with `__init__`: a fingerprint that is given replaces the one computed.
  unfoldable pub make_identity : Text → ℕ → RawIdentity → AgentIdentity
  unfolding start_identity compute_fingerprint given_or
  make_identity fresh now raw =
      let i = start_identity fresh now raw in
      record i { fingerprint = given_or (compute_fingerprint i) raw.fingerprint }
