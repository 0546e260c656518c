-- ===== src/Hub/Registration.antt =====
-- sdk-python/intermesh/hub.py: what `handle_agent` does with a `register`. A member of the content that has
-- another type than the SDK sends counts as absent.
pub mod Granted
pub mod Claimed
pub mod Enrolment
pub mod Admission
use intermesh.Prelude.{
  ℕ, zero, suc, leb, Text, codes, Bool, true, false, not, ◌&&◌, ◌||◌, Option, none, some, List, [],
  ◌∷◌, ◌++◌, contains, text_eq, nat_eq, ◌==◌, if◌then◌else◌,
}
use intermesh.Prelude.Json.{Json, Items, Fields, int, str, arr, obj, nil, cons, end, field}
use intermesh.Prelude.Int.{pos}
use intermesh.Prelude.Exec.{Result, ok, err}
use intermesh.Prelude.Results.{get}
use intermesh.Assurance.Policy.{starts, truthy}
use intermesh.ApiKeys.{ApiKeyStore, KeyInfo, lookup_key}
use intermesh.Identity.{RawIdentity}
use intermesh.Hub.{Env, Hub}
use intermesh.Assurance.Evidence.Verify.{is_falsy}
use intermesh.Hub.Escrowed.{text_member}

-- The rights that a registration is granted, and how.
pub record Grant : Type 0 where
  pub org_id : Text
  pub roles : List Text
  pub permissions : List Text
  pub auth_method : Text

-- Why a registration is granted nothing: an unknown key, one that is no text, on which `lookup` raises,
-- or none where one is asked for.
pub data Denial : Type 0 where
  unknown_key bad_key : Denial
  key_required : Text → Denial

unfoldable pub items_texts : Items → Option (List Text)
items_texts nil = some []
items_texts (cons (str s) xs) = elim (items_texts xs) [ none ↦ none | some r ↦ some (s ∷ r) ]
items_texts (cons x xs) = none

unfoldable pub texts_member : Option Json → Option (List Text)
unfolding items_texts
texts_member (some (arr xs)) = items_texts xs
texts_member o = none

unfoldable pub fields_member : Option Json → Option Fields
fields_member (some (obj f)) = some f
fields_member o = none

unfoldable pub time_member : Option Json → Option ℕ
time_member (some (int (pos n))) = some n
time_member o = none

unfoldable pub list_default : List Text → Option (List Text) → List Text
list_default d none = d
list_default d (some xs) = xs

unfoldable pub text_default : Text → Option Text → Text
text_default d none = d
text_default d (some s) = s

abbrev pub observer_prefixes : List Text
observer_prefixes =
    codes "topology_"
    ∷ codes "nexus_dashboard"
    ∷ codes "dashboard_"
    ∷ codes "agents_dir"
    ∷ codes "security_"
    ∷ []

unfoldable pub has_prefix : List Text → Text → Bool
has_prefix [] name = false
has_prefix (p ∷ ps) name = starts p name || has_prefix ps name

unfoldable pub declared_roles : Fields → List Text
unfolding list_default texts_member
declared_roles d = list_default (codes "standard" ∷ []) (texts_member (get (codes "roles") d))

-- `wants_telemetry`, as the client declares it.
unfoldable pub wants_telemetry : Fields → Text → Bool
unfolding declared_roles has_prefix
wants_telemetry d name =
    contains (codes "observer") (declared_roles d) || has_prefix observer_prefixes name

-- `_is_local_connection`
unfoldable pub is_local_host : Text → Bool
is_local_host host =
    host == codes "127.0.0.1"
    || host == codes "::1"
    || host == codes "localhost"
    || starts (codes "127.") host

unfoldable pub is_local_connection : Env → ℕ → Bool
unfolding is_local_host
is_local_connection env ws = elim (env.remote_host ws) [
  | none ↦ false
  | some host ↦ is_local_host host
]

unfoldable pub refusal_text : Bool → Text
refusal_text local =
    codes "SELF_DECLARED_REFUSED: ce Hub n'accepte pas d'identité auto-déclarée depuis "
    ++ (if local then codes "cette connexion" else codes "une connexion distante")
    ++ codes ". Un agent doit présenter une clé d'API (`intermesh apikey --org <org>`). "
    ++ codes "Pour un réseau privé, démarrez le Hub avec --allow-self-declared."

-- `_registration_refusal`
unfoldable pub registration_refusal : Env → ℕ → Option Text → Option Text
unfolding is_local_connection refusal_text
registration_refusal env ws key =
    let local = is_local_connection env ws in
    if truthy key
    then none
    else if env.require_api_key || (not local && not env.allow_self_declared)
    then some (refusal_text local)
    else none

-- The rights that the client declares for itself.
unfoldable pub declared_grant : Text → Fields → Grant
unfolding declared_roles text_default list_default text_member texts_member
declared_grant my_org d = record {
  org_id = text_default my_org (text_member (get (codes "org_id") d));
  roles = declared_roles d;
  permissions = list_default [] (texts_member (get (codes "permissions") d));
  auth_method = codes "self_declared";
}

unfoldable pub key_grant : KeyInfo → Grant
key_grant i = record {
  org_id = i.org_id;
  roles = i.roles;
  permissions = i.permissions;
  auth_method = codes "api_key";
}

-- `d.get("api_key")`, the empty text if it is falsy.
unfoldable pub presented_key : Option Json → Result Denial Text
unfolding is_falsy
presented_key none = ok []
presented_key (some (str t)) = ok t
presented_key (some j) = if is_falsy j then ok [] else err bad_key

-- `not d.get("api_key")`
unfoldable pub is_keyless : Option Json → Bool
unfolding presented_key
is_keyless j = elim (presented_key j) [ err e ↦ false | ok [] ↦ true | ok (c ∷ t) ↦ false ]

-- The rights of a registration: those of the key that it presents, or those that it declares.
unfoldable pub grant_of : Env → ℕ → Text → Fields → ApiKeyStore → Result Denial Grant
unfolding registration_refusal declared_grant key_grant presented_key
grant_of env ws my_org d keys = elim (presented_key (get (codes "api_key") d)) [
  | err e ↦ err e
  | ok [] ↦ elim (registration_refusal env ws none) [
    | some why ↦ err (key_required why)
    | none ↦ ok (declared_grant my_org d)
  ]
  | ok (c ∷ key) ↦ elim (lookup_key env.hash_key (c ∷ key) keys) [
    | none ↦ err unknown_key
    | some i ↦ ok (key_grant i)
  ]
]

-- `wants_telemetry and bool({"admin", "observer"} & set(roles))`
unfoldable pub gets_telemetry : Bool → Grant → Bool
gets_telemetry wanted g =
    wanted && (contains (codes "admin") g.roles || contains (codes "observer") g.roles)

-- What `AgentIdentity.from_dict` is given.
unfoldable pub raw_identity : Text → Fields → Grant → RawIdentity
unfolding text_member texts_member time_member fields_member list_default
raw_identity name d g = record {
  name = name;
  org_id = some g.org_id;
  capabilities = some (list_default [] (texts_member (get (codes "capabilities") d)));
  roles = some g.roles;
  permissions = some g.permissions;
  agent_id = text_member (get (codes "agent_id") d);
  created_at = time_member (get (codes "created_at") d);
  metadata = fields_member (get (codes "metadata") d);
  public_key = text_member (get (codes "public_key") d);
  schema = text_member (get (codes "schema") d);
  fingerprint = none;
}

-- `MAX_AGENTS and not wants_telemetry and current_active >= MAX_AGENTS`
unfoldable pub is_full : ℕ → Bool → ℕ → Bool
is_full zero wanted active = false
is_full (suc n) wanted active = not wanted && leb (suc n) active
