-- ===== src/Hub/Tokens/Accepted.antt =====
-- Which tokens sdk-python/intermesh/hub.py accepts.
use intermesh.Prelude.{
  arith, ℕ, ◌+◌, ltb, Text, codes, ◌≡◌, refl, ap, ◌⊎◌, inl, inr, true, false, not, Option, none,
  some, [], ◌∷◌, List, Option-cases, Bool-cases, text_eq, ◌==◌, eq_of, eq_refl,
}
use intermesh.Prelude.Dict.{Dict, lookup}
use intermesh.Hub.{Env, Claims}
use intermesh.Hub.Tokens.{
  issuer_key, decode_token, is_expired, claims_text, claims_or_absent, issuer_or_own, verify_token,
  names_sender, verify_federated_token, generate_token, token_claims, token_expiry,
}

claims_text-some : (v : Text) (o : Option Text) → claims_text v o ≡ true → o ≡ some v
unfolding claims_text
claims_text-some v none h = ground arith
claims_text-some v (some t) h = ap some (eq_of t v h)

-- The key with which a peer's token is checked: the one that it published, or the hub's own for its own
-- organisation.
abbrev pub KeyOf : Env → Dict Text Text → Text → Text → Type 0
KeyOf env keys org key =
    ((org ≡ env.hub_org) × (key ≡ env.public_pem)) ⊎ (lookup org keys ≡ some key)

-- What an accepted token of an organisation is worth: it decodes under a key of that organisation,
-- which signed it, it has not expired, and it names the sender unless the hub itself sends.
abbrev pub IsTrusted : Env → Dict Text Text → Text → Text → Text → Type 0
IsTrusted env keys token origin sender =
    (key : Text) × (p : Claims) × KeyOf env keys origin key
    × (env.decode token key ≡ some p)
    × (is_expired env.now p.expires_at ≡ false)
    × (p.iss_org ≡ some origin)
    × ((p.agent_name ≡ some sender) ⊎ (sender ≡ []) ⊎ (sender ≡ codes "hub"))

issuer_key-KeyOf :
    (env : Env) (keys : Dict Text Text) (org key : Text)
    → issuer_key env keys (some org) ≡ some key
    → KeyOf env keys org key
unfolding issuer_key
issuer_key-KeyOf env keys org key h = elim (Bool-cases (org == env.hub_org)) [
  | inl same ↦ inl (eq_of org env.hub_org same, ground arith)
  | inr other ↦ inr (ground arith)
]

decode_token-cases :
    (env : Env) (keys : Dict Text Text) (token org : Text) (p : Claims)
    → decode_token env keys token (some org) ≡ some p
    → (key : Text) × KeyOf env keys org key × (env.decode token key ≡ some p)
unfolding decode_token
decode_token-cases env keys [] org p h = ground arith
decode_token-cases env keys (c ∷ t) org p h = elim (Option-cases (issuer_key env keys (some org))) [
  | inl none_there ↦ absurd (ground arith)
  | inr (key, e) ↦ (key, issuer_key-KeyOf env keys org key e, ground arith)
]

names_sender-cases :
    (s : Text) (p : Claims)
    → names_sender s p ≡ true
    → (p.agent_name ≡ some s) ⊎ (s ≡ []) ⊎ (s ≡ codes "hub")
unfolding names_sender
names_sender-cases [] p h = inr (inl refl)
names_sender-cases (c ∷ s) p h = elim (Bool-cases ((c ∷ s) == codes "hub")) [
  | inl hub ↦ inr (inr (eq_of (c ∷ s) (codes "hub") hub))
  | inr other ↦ inl (claims_text-some (c ∷ s) p.agent_name (ground arith))
]

-- A token that a relayed message carries is either refused, or it is signed with a key of the
-- organisation that relays it, names it as its issuer, is not expired, and names the message's sender.
pub verify_federated_token_lem :
    (env : Env) (keys : Dict Text Text) (token origin sender : Text)
    → (verify_federated_token env keys token origin sender ≡ false)
      ⊎ IsTrusted env keys token origin sender
unfolding verify_federated_token
verify_federated_token_lem env keys token origin sender =
    elim (Option-cases (decode_token env keys token (some origin))) [
      | inl undecoded ↦ inl (rw (verify_federated_token, undecoded) refl)
      | inr (p, e) ↦ elim (Bool-cases (verify_federated_token env keys token origin sender)) [
        | inr no_way ↦ inl no_way
        | inl accepted ↦ inr (
            let (key, kept, decoded) = decode_token-cases env keys token origin p e in
            (
              key,
              p,
              kept,
              decoded,
              ground arith,
              claims_text-some origin p.iss_org (ground arith),
              names_sender-cases sender p (ground arith),
            ))
      ]
    ]

decode_token-own :
    (env : Env) (keys : Dict Text Text) (token : Text) (c : ℕ) (t : Text)
    → token ≡ c ∷ t
    → decode_token env keys token none ≡ env.decode token env.public_pem
unfolding decode_token issuer_key
decode_token-own env keys token c t e = rw e refl

-- A token that the hub has signed for an agent is accepted from it exactly until its hour is over, if
-- `jwt` decodes with the hub's public key what it has encoded with the private one.
pub verify_token-generate_token :
    (env : Env) (keys : Dict Text Text) (agent agent_id : Text) (roles : List Text)
    (org auth : Text) (later : ℕ) (c : ℕ) (t : Text)
    → generate_token env agent agent_id roles org auth ≡ c ∷ t
    → env.decode (generate_token env agent agent_id roles org auth) env.public_pem
      ≡ some (token_claims env agent agent_id roles org auth)
    → verify_token
        (record env { now = later })
        keys
        (generate_token env agent agent_id roles org auth)
        agent
        none
      ≡ not (ltb (env.now + token_expiry) later)
unfolding verify_token claims_text claims_or_absent issuer_or_own is_expired token_claims
verify_token-generate_token env keys agent agent_id roles org auth later c t filled decodes =
    let token = generate_token env agent agent_id roles org auth in
    rw
      (
        verify_token,
        decode_token-own (record env { now = later }) keys token c t filled,
        decodes,
        eq_refl agent,
        eq_refl env.hub_org,
      )
      (ground arith)
