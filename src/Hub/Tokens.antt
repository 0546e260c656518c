-- ===== src/Hub/Tokens.antt =====
-- sdk-python/intermesh/hub.py: the tokens that a hub signs, and whose tokens it accepts.
pub mod Accepted
use intermesh.Prelude.{
  ℕ, ◌+◌, ltb, leb, Text, codes, Bool, true, false, not, ◌&&◌, Option, none, some, List, [], ◌∷◌,
  text_eq, ◌==◌, if◌then◌else◌,
}
use intermesh.Prelude.Dict.{Dict, lookup}
use intermesh.Hub.{Env, Claims}

-- An hour, in the milliseconds of the model.
abbrev pub token_expiry : ℕ
token_expiry = 3600000

-- `generate_token`, with the claims and with their signature.
unfoldable pub token_claims : Env → Text → Text → List Text → Text → Text → Claims
token_claims env agent agent_id roles org auth = record {
  agent_name = some agent;
  agent_id = some agent_id;
  roles = roles;
  org_id = some org;
  auth_method = some auth;
  issued_at = some env.now;
  expires_at = some (env.now + token_expiry);
  issuer = some (codes "intermesh-hub");
  iss_org = some env.hub_org;
}

unfoldable pub generate_token : Env → Text → Text → List Text → Text → Text → Text
unfolding token_claims
generate_token env agent agent_id roles org auth =
    env.encode (token_claims env agent agent_id roles org auth)

-- The public key of `decode_token`: the hub's own, or the one that a peer has published.
unfoldable pub issuer_key : Env → Dict Text Text → Option Text → Option Text
issuer_key env keys none = some env.public_pem
issuer_key env keys (some org) =
    let published = lookup org keys in if org == env.hub_org then some env.public_pem else published

-- `decode_token`
unfoldable pub decode_token : Env → Dict Text Text → Text → Option Text → Option Claims
unfolding issuer_key
decode_token env keys [] issuing = none
decode_token env keys (c ∷ token) issuing = elim (issuer_key env keys issuing) [
  | none ↦ none
  | some key ↦ env.decode (c ∷ token) key
]

-- `payload.get("expires_at", 0) < time.time()`
unfoldable pub is_expired : ℕ → Option ℕ → Bool
is_expired now none = ltb 0 now
is_expired now (some t) = ltb t now

-- `payload.get(key) == value`
unfoldable pub claims_text : Text → Option Text → Bool
claims_text value none = false
claims_text value (some t) = t == value

-- `payload.get("iss_org", value) == value`
unfoldable pub claims_or_absent : Text → Option Text → Bool
claims_or_absent value none = true
claims_or_absent value (some t) = t == value

unfoldable pub issuer_or_own : Env → Option Text → Text
issuer_or_own env none = env.hub_org
issuer_or_own env (some org) = org

-- `verify_token`
unfoldable pub verify_token : Env → Dict Text Text → Text → Text → Option Text → Bool
unfolding decode_token is_expired claims_text claims_or_absent issuer_or_own
verify_token env keys token agent issuing = elim (decode_token env keys token issuing) [
  | none ↦ false
  | some p ↦
      claims_text agent p.agent_name
      && not (is_expired env.now p.expires_at)
      && claims_or_absent (issuer_or_own env issuing) p.iss_org
]

-- `claimed_sender and claimed_sender != "hub"` asks for the name of the token.
unfoldable pub names_sender : Text → Claims → Bool
unfolding claims_text
names_sender [] p = true
names_sender (c ∷ s) p = if (c ∷ s) == codes "hub" then true else claims_text (c ∷ s) p.agent_name

-- `verify_federated_token`
unfoldable pub verify_federated_token : Env → Dict Text Text → Text → Text → Text → Bool
unfolding decode_token is_expired claims_text names_sender
verify_federated_token env keys token origin sender =
    elim (decode_token env keys token (some origin)) [
      | none ↦ false
      | some p ↦
          not (is_expired env.now p.expires_at)
          && claims_text origin p.iss_org
          && names_sender sender p
    ]
