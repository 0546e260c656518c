-- ===== src/Assurance/Evidence.antt =====
-- sdk-python/intermesh/assurance/evidence.py: the record of an action and how a third party checks
-- it. The codecs and Ed25519 are the parameter `Crypto`; a float is held by its `repr`.
pub mod Dicts
pub mod Verify
pub mod Signed
use intermesh.Prelude.{
  ℕ, zero, suc, Text, codes, Bool, true, false, Option, none, some, List, [], ◌∷◌, ◌++◌, map,
  text_eq, ◌==◌, if◌then◌else◌,
}
use intermesh.Prelude.Int.{ℤ, pos}
use intermesh.Prelude.Json.{Json, Fields, null, int, str, obj, end, field}
use intermesh.Canonical.{canonical_hash}
use intermesh.Assurance.Policy.{Decision, allow, block, approval, upper}
use intermesh.Assurance.Risk.{RiskLevel, r0, r1, r2, r3, r4, r5, value, show}
use intermesh.Assurance.Evidence.Dicts.{set_field, update, clean, or_null}

pub record ActionEvidence : Type 0 where
  pub agent_id : Text
  pub organization_id : Text
  pub action : Fields
  pub risk : Fields
  pub authorization : Fields
  pub execution : Fields
  pub action_id : Text
  pub timestamp : ℤ
  pub prev_hash : Text
  pub version : Text

abbrev pub genesis : Text
genesis = codes "0000000000000000000000000000000000000000000000000000000000000000"

unfoldable pub decision_text : Decision → Text
decision_text allow = codes "allow"
decision_text block = codes "block"
decision_text approval = codes "approval"

-- The keyword arguments of `build`.
pub record Observed : Type 0 where
  pub agent_id : Text
  pub organization_id : Text
  pub method : Text
  pub target : Text
  pub risk : RiskLevel
  pub decision : Decision
  pub policy : Text
  pub rule : Option Text
  pub payload_hash : Option Text
  pub action_type : Option Text
  pub status : Text
  pub response_status : Option ℕ
  pub response_hash : Option Text
  pub prev_hash : Text
  pub extra : Fields

-- `action_type or "http_request"`
unfoldable pub type_or_http : Option Text → Text
type_or_http none = codes "http_request"
type_or_http (some []) = codes "http_request"
type_or_http (some (c ∷ s)) = c ∷ s

-- `build`; `uuid` and `now` are the defaults of `action_id` and `timestamp`.
unfoldable pub build : Text → ℤ → Observed → ActionEvidence
unfolding type_or_http decision_text
build uuid now o = record {
  agent_id = o.agent_id;
  organization_id = o.organization_id;
  action = field (codes "method") (str (upper o.method)) (
      field (codes "target") (str o.target) (
        field (codes "type") (str (type_or_http o.action_type))
          (field (codes "payload_hash") (or_null str o.payload_hash) end)));
  risk = field (codes "level") (str (show o.risk)) (
      field (codes "label") (str (show o.risk))
        (field (codes "value") (int (pos (value o.risk))) end));
  authorization = field (codes "policy") (str o.policy) (
      field (codes "rule") (or_null str o.rule)
        (field (codes "decision") (str (decision_text o.decision)) end));
  execution = clean (
      update o.extra (
        field (codes "status") (str o.status) (
          field (codes "response_status") (or_null (λ n. int (pos n)) o.response_status)
            (field (codes "response_hash") (or_null str o.response_hash) end))));
  action_id = uuid;
  timestamp = now;
  prev_hash = o.prev_hash;
  version = codes "0.1";
}

-- `body`
unfoldable pub body : ActionEvidence → Fields
body e = field (codes "version") (str e.version) (
    field (codes "action_id") (str e.action_id) (
      field (codes "timestamp") (int e.timestamp) (
        field (codes "agent_id") (str e.agent_id) (
          field (codes "organization_id") (str e.organization_id) (
            field (codes "action") (obj (clean e.action)) (
              field (codes "risk") (obj e.risk) (
                field (codes "authorization") (obj (clean e.authorization)) (
                  field (codes "execution") (obj (clean e.execution))
                    (field (codes "prev_hash") (str e.prev_hash) end)))))))))

-- Ed25519, the codecs of `intermesh.canonical`, and `str` of a JSON value.
pub record Crypto (Key Pub : Type 0) : Type 0 where
  pub dumps : Json → Text
  pub sha256_hex : Text → Text
  pub b64 : Text → Text
  pub unb64 : Text → Option Text
  pub private_sign : Key → Text → Text
  pub public_pem : Key → Text
  pub load_public_pem : Text → Option Pub
  pub verify : Pub → Text → Text → Bool
  pub str_json : Json → Text

-- `issuer or self.organization_id`
unfoldable pub issuer_or : Text → Option Text → Text
issuer_or org none = org
issuer_or org (some []) = org
issuer_or org (some (c ∷ s)) = c ∷ s

-- `{**body, "evidence": envelope}`, as `body` has no such member.
unfoldable pub with_evidence : Fields → Fields → Fields
with_evidence envelope end = field (codes "evidence") (obj envelope) end
with_evidence envelope (field k v f) = field k v (with_evidence envelope f)

-- `s[:n]`
unfoldable pub first : ℕ → Text → Text
first n [] = []
first zero (c ∷ s) = []
first (suc n) (c ∷ s) = c ∷ first n s

module _ {Key Pub : Type 0} (lib : Crypto Key Pub) where
  -- `evidence_hash`
  unfoldable pub evidence_hash : ActionEvidence → Option Text
  evidence_hash e = canonical_hash lib.dumps lib.sha256_hex (obj (body e))

  -- `key_fingerprint`
  unfoldable pub key_fingerprint : Text → Text
  unfolding first
  key_fingerprint pem = first 16 (lib.sha256_hex pem)

  unfoldable pub envelope : Key → Option Text → Text → Text → Fields
  unfolding issuer_or key_fingerprint
  envelope key issuer org digest =
      let pem = lib.public_pem key in
      field (codes "hash") (str digest) (
        field (codes "algorithm") (str (codes "Ed25519")) (
          field (codes "signature") (str (lib.b64 (lib.private_sign key digest))) (
            field (codes "issuer") (str (issuer_or org issuer)) (
              field (codes "public_key") (str pem)
                (field (codes "key_fingerprint") (str (key_fingerprint pem)) end)))))

  -- `sign`; `none` is the CanonicalError of a float.
  unfoldable pub sign : Key → Option Text → ActionEvidence → Option Fields
  unfolding evidence_hash envelope body with_evidence
  sign key issuer e = elim (evidence_hash e) [
    | none ↦ none
    | some digest ↦ some (with_evidence (envelope key issuer e.organization_id digest) (body e))
  ]

  -- `payload_digest`
  unfoldable pub payload_digest : Text → Option Text
  payload_digest [] = none
  payload_digest (c ∷ raw) = some (lib.sha256_hex (c ∷ raw))
