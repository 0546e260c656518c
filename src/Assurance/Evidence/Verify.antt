-- ===== src/Assurance/Evidence/Verify.antt =====
-- `verify_evidence` and `verify_chain` of sdk-python/intermesh/assurance/evidence.py. `none` is the
-- AttributeError of a member that is no object.
use intermesh.Prelude.{
  ℕ, ◌+◌, leb, Text, codes, Bool, true, false, not, ◌&&◌, Option, none, some, List, [], ◌∷◌, ◌++◌,
  map, text_eq, ◌==◌, nat_beq, length, if◌then◌else◌,
}
use intermesh.Prelude.Int.{pos, negsuc}
use intermesh.Prelude.Json.{
  Json, Fields, null, bool, int, float, str, arr, obj, nil, cons, end, field,
}
use intermesh.Prelude.Exec.{Result, ok, err}
use intermesh.Prelude.Results.{get}
use intermesh.Canonical.{canonical_hash}
use intermesh.Assurance.Evidence.{Crypto, genesis}

-- Why a record is refused.
pub data Cause : Type 0 where
  not_an_object unserializable modified no_key bad_key bad_signature broken_link : Cause
  missing_fields : List Text → Cause

-- `action_id` of a chain's report is the number of its records.
pub record VerificationReport : Type 0 where
  pub schema_ok : Bool
  pub integrity_ok : Bool
  pub signature_ok : Bool
  pub errors : List (Option ℕ × Cause)
  pub decision : Option Json
  pub risk : Option Json
  pub action_id : Option Json
  pub issuer : Option Json
  pub key_fingerprint : Option Json

abbrev pub required : List Text
required =
    codes "version"
    ∷ codes "action_id"
    ∷ codes "timestamp"
    ∷ codes "agent_id"
    ∷ codes "organization_id"
    ∷ codes "action"
    ∷ codes "risk"
    ∷ codes "authorization"
    ∷ codes "execution"
    ∷ codes "prev_hash"
    ∷ []

-- `valid`
unfoldable pub is_valid : VerificationReport → Bool
is_valid r = r.schema_ok && r.integrity_ok && r.signature_ok

abbrev pub fresh : VerificationReport
fresh = record {
  schema_ok = false;
  integrity_ok = false;
  signature_ok = false;
  errors = [];
  decision = none;
  risk = none;
  action_id = none;
  issuer = none;
  key_fingerprint = none;
}

-- `[f for f in REQUIRED if f not in record]`
unfoldable pub missing : List Text → Fields → List Text
missing [] f = []
missing (k ∷ ks) f = elim (get k f) [ none ↦ k ∷ missing ks f | some v ↦ missing ks f ]

-- `{f: record[f] for f in REQUIRED}`, of a record that has them.
unfoldable pub select : List Text → Fields → Fields
select [] f = end
select (k ∷ ks) f = elim (get k f) [ none ↦ select ks f | some v ↦ field k v (select ks f) ]

unfoldable pub is_falsy : Json → Bool
is_falsy null = true
is_falsy (bool b) = not b
is_falsy (int (pos n)) = nat_beq n 0
is_falsy (int (negsuc n)) = false
is_falsy (float t) = if t == codes "0.0" then true else t == codes "-0.0"
is_falsy (str []) = true
is_falsy (str (c ∷ s)) = false
is_falsy (arr nil) = true
is_falsy (arr (cons x xs)) = false
is_falsy (obj end) = true
is_falsy (obj (field k v f)) = false

-- `(record.get(key) or {})`, for the `.get` that follows.
unfoldable pub object_or_empty : Option Json → Option Fields
unfolding is_falsy
object_or_empty none = some end
object_or_empty (some (obj f)) = some f
object_or_empty (some j) = if is_falsy j then some end else none

unfoldable pub is_object : Option Json → Option Fields
is_object none = none
is_object (some (obj f)) = some f
is_object (some j) = none

unfoldable pub is_text : Text → Option Json → Bool
is_text t none = false
is_text t (some (str s)) = t == s
is_text t (some j) = false

-- `encode("ascii")` passes.
unfoldable pub is_ascii : Text → Bool
is_ascii [] = true
is_ascii (c ∷ s) = leb c 127 && is_ascii s

module _ {Key Pub : Type 0} (lib : Crypto Key Pub) where
  -- `str` of what `get` returned, which is `default` without a member.
  unfoldable pub text_of : Text → Option Json → Text
  text_of default none = default
  text_of default (some (str s)) = s
  text_of default (some j) = lib.str_json j

  unfoldable pub read_key : Json → Result Cause Pub
  read_key (str pem) = elim (lib.load_public_pem pem) [ none ↦ err bad_key | some key ↦ ok key ]
  read_key j = err bad_key

  -- The key to check with.
  unfoldable pub find_key : Option Pub → Fields → Result Cause Pub
  unfolding is_falsy read_key
  find_key (some key) envelope = ok key
  find_key none envelope = elim (get (codes "public_key") envelope) [
    | none ↦ err no_key
    | some pem ↦ if is_falsy pem then err no_key else read_key pem
  ]

  -- `key.verify(...)`
  unfoldable pub has_signature : Pub → Fields → Bool
  unfolding text_of is_ascii get
  has_signature key envelope =
      let claimed = text_of (codes "None") (get (codes "hash") envelope) in
      elim (lib.unb64 (text_of [] (get (codes "signature") envelope))) [
        | none ↦ false
        | some signature ↦ is_ascii claimed && lib.verify key signature claimed
      ]

  -- From the comparison of the hashes on.
  unfoldable pub check_hash : Option Pub → Fields → Text → VerificationReport → VerificationReport
  unfolding is_text find_key has_signature
  check_hash trusted envelope recomputed report =
      let intact = is_text recomputed (get (codes "hash") envelope) in
      let errors : List (Option ℕ × Cause) = if intact then [] else (none, modified) ∷ [] in
      elim (find_key trusted envelope) [
        | err e ↦ record report { integrity_ok = intact; errors = errors ++ (none, e) ∷ [] }
        | ok key ↦
            let signed = has_signature key envelope in
            record report {
              integrity_ok = intact;
              signature_ok = signed;
              errors = errors ++ (if signed then [] else (none, bad_signature) ∷ []);
            }
      ]

  unfoldable pub check_body : Option Pub → Fields → Fields → VerificationReport → VerificationReport
  unfolding select check_hash
  check_body trusted f envelope report =
      elim (canonical_hash lib.dumps lib.sha256_hex (obj (select required f))) [
        | none ↦ record report { errors = (none, unserializable) ∷ [] }
        | some recomputed ↦ check_hash trusted envelope recomputed report
      ]

  unfoldable pub check_members : Option Pub → Fields → Fields → Option VerificationReport
  unfolding object_or_empty check_body
  check_members trusted f envelope = elim (object_or_empty (get (codes "authorization") f)) [
    | none ↦ none
    | some authorization ↦ elim (object_or_empty (get (codes "risk") f)) [
      | none ↦ none
      | some risk ↦ some (
          check_body trusted f envelope (record fresh {
            schema_ok = true;
            action_id = get (codes "action_id") f;
            decision = get (codes "decision") authorization;
            risk = get (codes "level") risk;
            issuer = get (codes "issuer") envelope;
            key_fingerprint = get (codes "key_fingerprint") envelope;
          }))
    ]
  ]

  unfoldable pub refused : Cause → Option VerificationReport
  refused e = some (record fresh { errors = (none, e) ∷ [] })

  unfoldable pub verify_fields : Fields → Option Pub → Option VerificationReport
  unfolding check_members missing is_object refused
  verify_fields f trusted = elim (is_object (get (codes "evidence") f)) [
    | none ↦ refused (missing_fields (missing required f ++ codes "evidence" ∷ []))
    | some envelope ↦ elim (missing required f) [
      | [] ↦ check_members trusted f envelope
      | k ∷ ks ↦ refused (missing_fields (k ∷ ks))
    ]
  ]

  -- `verify_evidence`
  unfoldable pub verify_evidence : Json → Option Pub → Option VerificationReport
  unfolding verify_fields refused
  verify_evidence (obj f) trusted = verify_fields f trusted
  verify_evidence j trusted = refused not_an_object

  -- `(record.get("evidence") or {}).get("hash", GENESIS)`, of a valid record: its hash is a text.
  unfoldable pub hash_of : Json → Text
  unfolding is_object
  hash_of (obj f) = elim (is_object (get (codes "evidence") f)) [
    | none ↦ genesis
    | some envelope ↦ text_of genesis (get (codes "hash") envelope)
  ]
  hash_of j = genesis

  -- `record.get("prev_hash") != previous`
  unfoldable pub is_linked : Text → Json → Bool
  unfolding is_text
  is_linked previous (obj f) = is_text previous (get (codes "prev_hash") f)
  is_linked previous j = false

  -- One turn of the loop, with the report of the single record.
  unfoldable pub chain_step :
      ℕ → Json → VerificationReport → VerificationReport × Text → VerificationReport × Text
  unfolding is_valid hash_of is_linked
  chain_step index r single (report, previous) =
      if not (is_valid single)
      then (
        record report {
          schema_ok = report.schema_ok && single.schema_ok;
          integrity_ok = report.integrity_ok && single.integrity_ok;
          signature_ok = report.signature_ok && single.signature_ok;
          errors = report.errors ++ map (λ e. (some index, e.1)) single.errors;
        },
        previous,
      )
      else if is_linked previous r
      then (report, hash_of r)
      else (
        record report {
          integrity_ok = false;
          errors = report.errors ++ (some index, broken_link) ∷ [];
        },
        hash_of r,
      )

  unfoldable pub chain_from :
      ℕ → List Json → VerificationReport × Text → Option (VerificationReport × Text)
  unfolding verify_evidence chain_step
  chain_from index [] s = some s
  chain_from index (r ∷ rs) s = elim (verify_evidence r none) [
    | none ↦ none
    | some single ↦ chain_from (index + 1) rs (chain_step index r single s)
  ]

  -- `verify_chain`
  unfoldable pub verify_chain : List Json → Option VerificationReport
  unfolding chain_from
  verify_chain records =
      elim (chain_from 0 records
        (record fresh { schema_ok = true; integrity_ok = true; signature_ok = true }, genesis)) [
          | none ↦ none
          | some s ↦ some (record s.0 { action_id = some (int (pos (length records))) })
        ]
