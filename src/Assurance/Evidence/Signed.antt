-- ===== src/Assurance/Evidence/Signed.antt =====
-- A record that `sign` made passes `verify_evidence`.
use intermesh.Prelude.{
  ap, ◌∙◌, sym, Text, codes, ◌≡◌, refl, true, false, Option, none, some, [], text_eq, text_beq,
  arith, ◌⊎◌, inl, inr, eq_refl, Bool-cases,
}
use intermesh.Prelude.Json.{Fields, str, obj}
use intermesh.Prelude.Results.{get}
use intermesh.Prelude.Exec.{ok}
use intermesh.Canonical.{canonical_hash, canonical_bytes, has_float}
use intermesh.Assurance.Evidence.{
  ActionEvidence, Crypto, body, envelope, evidence_hash, sign, with_evidence,
}
use intermesh.Assurance.Evidence.Dicts.{clean}
use intermesh.Assurance.Evidence.Verify.{
  VerificationReport, is_valid, required, select, missing, is_ascii, verify_evidence, verify_fields,
  check_body, check_members, check_hash, find_key, read_key, has_signature, text_of, is_text,
  is_falsy, is_object, object_or_empty, is_linked, hash_of,
}

module _ {Key Pub : Type 0} (lib : Crypto Key Pub) (key : Key) (pub_key : Pub) where
  -- What the signing code relies on: base64 is undone, hexadecimal is ASCII, a PEM text is not empty
  -- and loads as the public key, and this key accepts the signatures of the private one.
  pub record Sound : Type 0 where
    pub decodes : (t : Text) → lib.unb64 (lib.b64 t) ≡ some t
    pub ascii : (t : Text) → is_ascii (lib.sha256_hex t) ≡ true
    pub filled : is_falsy (str (lib.public_pem key)) ≡ false
    pub loads : lib.load_public_pem (lib.public_pem key) ≡ some pub_key
    pub accepts : (t : Text) → lib.verify pub_key (lib.private_sign key t) t ≡ true

  selected :
      (e : ActionEvidence) (env : Fields) → select required (with_evidence env (body e)) ≡ body e
  unfolding select with_evidence body get text_beq
  selected e env = refl

  complete :
      (e : ActionEvidence) (env : Fields) → missing required (with_evidence env (body e)) ≡ []
  unfolding missing with_evidence body get text_beq
  complete e env = refl

  -- The trusted key, if there is one, is the signer's.
  abbrev pub IsSigner : Option Pub → Type 0
  IsSigner trusted = (trusted ≡ none) ⊎ (trusted ≡ some pub_key)

  key_found :
      Sound
      → (trusted : Option Pub) → IsSigner trusted
      → (issuer : Option Text) (org digest : Text)
      → find_key lib trusted (envelope lib key issuer org digest) ≡ ok pub_key
  unfolding find_key envelope get text_beq read_key
  key_found s trusted (inl e) issuer org digest = rw (e, s.filled, read_key, s.loads) refl
  key_found s trusted (inr e) issuer org digest = rw e refl

  signature_passes :
      Sound
      → (issuer : Option Text) (org raw : Text)
      → has_signature lib pub_key (envelope lib key issuer org (lib.sha256_hex raw)) ≡ true
  unfolding has_signature envelope get text_beq text_of
  signature_passes s issuer org raw =
      rw
        (
          has_signature,
          s.decodes (lib.private_sign key (lib.sha256_hex raw)),
          s.ascii raw,
          s.accepts (lib.sha256_hex raw),
        )
        refl

  hash_kept :
      (issuer : Option Text) (org digest : Text)
      → get (codes "hash") (envelope lib key issuer org digest) ≡ some (str digest)
  unfolding envelope get text_beq
  hash_kept issuer org digest = refl

  is_text_refl : (t : Text) → is_text t (some (str t)) ≡ true
  unfolding is_text
  is_text_refl t = eq_refl t

  check_hash_lem :
      (trusted : Option Pub) (env : Fields) (digest : Text) (r : VerificationReport)
      → is_text digest (get (codes "hash") env) ≡ true
      → find_key lib trusted env ≡ ok pub_key
      → has_signature lib pub_key env ≡ true
      → check_hash lib trusted env digest r
        ≡ record r { integrity_ok = true; signature_ok = true; errors = [] }
  unfolding check_hash
  check_hash_lem trusted env digest r same found signed = rw (check_hash, found, signed, same) refl

  -- What the report of a signed record says.
  abbrev pub passed : ActionEvidence → Fields → VerificationReport
  passed e env = record {
    schema_ok = true;
    integrity_ok = true;
    signature_ok = true;
    errors = [];
    decision = get (codes "decision") (clean e.authorization);
    risk = get (codes "level") e.risk;
    action_id = some (str e.action_id);
    issuer = get (codes "issuer") env;
    key_fingerprint = get (codes "key_fingerprint") env;
  }

  check_body_lem :
      (trusted : Option Pub) (f b env : Fields) (digest : Text) (r : VerificationReport)
      → select required f ≡ b
      → canonical_hash lib.dumps lib.sha256_hex (obj b) ≡ some digest
      → check_body lib trusted f env r ≡ check_hash lib trusted env digest r
  unfolding check_body check_hash
  check_body_lem trusted f b env digest r same hashed = rw (check_body, same, hashed) refl

  verify_members :
      (trusted : Option Pub) (e : ActionEvidence) (env : Fields)
      → let f = with_evidence env (body e) in
        verify_evidence lib (obj f) trusted
        ≡ some (
            check_body lib trusted f env
              (record (passed e env) { integrity_ok = false; signature_ok = false }))
  unfolding verify_evidence verify_fields check_members with_evidence body get text_beq missing
      is_object object_or_empty
  verify_members trusted e env = refl

  envelope_passes :
      Sound
      → (trusted : Option Pub) → IsSigner trusted
      → (issuer : Option Text) (org raw : Text) (r : VerificationReport)
      → check_hash lib trusted
          (envelope lib key issuer org (lib.sha256_hex raw))
          (lib.sha256_hex raw)
          r
        ≡ record r { integrity_ok = true; signature_ok = true; errors = [] }
  envelope_passes s trusted signer issuer org raw r =
      check_hash_lem trusted _ _ r
        (rw (hash_kept issuer org (lib.sha256_hex raw)) (is_text_refl (lib.sha256_hex raw)))
        (key_found s trusted signer issuer org (lib.sha256_hex raw))
        (signature_passes s issuer org raw)

  linked :
      (e : ActionEvidence) (env : Fields)
      → is_linked lib e.prev_hash (obj (with_evidence env (body e))) ≡ true
  unfolding is_linked with_evidence body get text_beq is_text
  linked e env = eq_refl e.prev_hash

  hash_signed :
      (issuer : Option Text) (e : ActionEvidence) (digest : Text)
      → hash_of lib
          (obj (with_evidence (envelope lib key issuer e.organization_id digest) (body e)))
        ≡ digest
  unfolding hash_of is_object with_evidence body get text_beq envelope text_of
  hash_signed issuer e digest = refl

  -- What `sign` hashes and returns.
  pub signed_body :
      (issuer : Option Text) (e : ActionEvidence) (f : Fields)
      → sign lib key issuer e ≡ some f
      → (digest raw : Text) × (digest ≡ lib.sha256_hex raw)
        × (canonical_hash lib.dumps lib.sha256_hex (obj (body e)) ≡ some digest)
        × (f ≡ with_evidence (envelope lib key issuer e.organization_id digest) (body e))
  unfolding sign evidence_hash canonical_hash canonical_bytes
  signed_body issuer e f done = elim (Bool-cases (has_float (obj (body e)))) [
    | inl float ↦ ground arith
    | inr exact ↦ (
      lib.sha256_hex (lib.dumps (obj (body e))),
      lib.dumps (obj (body e)),
      refl,
      ground arith,
      ground arith,
    )
  ]

  -- Where the codecs and the keys do what `Sound` says, a record that `sign` returns is found
  -- valid and without errors, by anyone who trusts the key that it carries or has the
  -- signer's key, and it names as its predecessor what it was given.
  pub verify_evidence-sign :
      Sound
      → (trusted : Option Pub) → IsSigner trusted
      → (issuer : Option Text) (e : ActionEvidence) (f : Fields) → sign lib key issuer e ≡ some f
      → (r : VerificationReport) × (verify_evidence lib (obj f) trusted ≡ some r)
        × (is_valid r ≡ true)
        × (r.errors ≡ [])
        × (is_linked lib e.prev_hash (obj f) ≡ true)
        × (evidence_hash lib e ≡ some (hash_of lib (obj f)))
  unfolding is_valid evidence_hash
  verify_evidence-sign s trusted signer issuer e f done =
      let (digest, raw, hex, hashed, made) = signed_body issuer e f done in
      let env = envelope lib key issuer e.organization_id digest in
      rw made (
        passed e env,
        verify_members trusted e env
            ∙ ap some (
                check_body_lem trusted _ _ env digest _ (selected e env) hashed
                ∙ rw hex (envelope_passes s trusted signer issuer e.organization_id raw _)),
        refl,
        refl,
        linked e env,
        hashed ∙ ap some (sym (hash_signed issuer e digest)),
      )
