-- ===== src/Assurance/Proxy/Tests.antt =====
-- A proxy with one rule, a toy signature scheme, and the theorems on evidence and the proxy at them.
use intermesh.Prelude.{
  Text, codes, ◌≡◌, refl, inl, true, none, some, List, [], ◌∷◌, map, text_beq, text_beq_iff,
}
use intermesh.Prelude.Int.{pos}
use intermesh.Prelude.Json.{Json, Fields, str, obj, end, field}
use intermesh.Prelude.Exec.{ok}
use intermesh.Assurance.Risk.{r2, r3}
use intermesh.Assurance.Policy.{Lib, Policy, approval, starts}
use intermesh.Assurance.Approval.{Approval}
use intermesh.Assurance.Evidence.{
  ActionEvidence, Crypto, genesis, sign, evidence_hash, body, with_evidence, envelope,
}
use intermesh.Assurance.Evidence.Dicts.{clean}
use intermesh.Canonical.{has_float, canonical_hash, canonical_bytes}
use intermesh.Assurance.Evidence.Verify.{
  VerificationReport, is_valid, is_linked, hash_of, is_ascii, is_falsy, verify_evidence,
  verify_chain,
}
use intermesh.Assurance.Evidence.Signed.{Sound, verify_evidence-sign}
use intermesh.Assurance.Proxy.{
  AssuranceProxy, World, Request, Outside, connected, LineCodec, EvidenceStore, file_text, resume,
  append, write_line, hash_or,
}
use intermesh.Assurance.Proxy.Handlers.{assess, handle}
use intermesh.Assurance.Proxy.Lines.{is_unbroken, AreRead}
use intermesh.Assurance.Proxy.Journal.{append_all, start, verify_chain-append_all}
use intermesh.Assurance.Proxy.Forwarding.{IsPermitted, handle-IsPermitted}

-- A signature is the signed text, and every hash is one letter.
abbrev toy : Crypto Text Text
toy = record {
  dumps = λ j. codes "json";
  sha256_hex = λ t. codes "h";
  b64 = λ t. t;
  unb64 = λ t. some t;
  private_sign = λ key t. t;
  public_pem = λ key. codes "pem";
  load_public_pem = λ pem. some pem;
  verify = λ key signature t. text_beq signature t;
  str_json = λ j. codes "json";
}

toy_sound : Sound toy (codes "key") (codes "pem")
unfolding is_ascii is_falsy
toy_sound = record {
  decodes = λ t. refl;
  ascii = λ t. refl;
  filled = refl;
  loads = refl;
  accepts = λ t. (text_beq_iff t t).1 refl;
}

abbrev deed : ActionEvidence
deed = record {
  agent_id = codes "a";
  organization_id = codes "o";
  action = end;
  risk = field (codes "level") (str (codes "R2")) end;
  authorization = end;
  execution = end;
  action_id = codes "1";
  timestamp = pos 5;
  prev_hash = genesis;
  version = codes "0.1";
}

abbrev signed_deed : Fields
signed_deed = with_evidence (envelope toy (codes "key") none (codes "o") (codes "h")) (body deed)

verify_evidence-sign_example :
    (r : VerificationReport) × (verify_evidence toy (obj signed_deed) none ≡ some r)
    × (is_valid r ≡ true)
    × (r.errors ≡ [])
    × (is_linked toy genesis (obj signed_deed) ≡ true)
    × (evidence_hash toy deed ≡ some (hash_of toy (obj signed_deed)))
unfolding sign evidence_hash canonical_hash canonical_bytes has_float body clean
verify_evidence-sign_example =
    verify_evidence-sign toy (codes "key") (codes "pem") toy_sound none (inl refl) none deed
      signed_deed refl

-- One line stands for the record of the deed.
abbrev one_line : LineCodec
one_line = record { dump = λ j. codes "x"; load = λ t. some (obj signed_deed) }

abbrev journal : EvidenceStore
journal =
    append_all toy (codes "key") (codes "pem") none (deed ∷ [])
      (start toy (codes "key") (codes "pem") none)

deed_read : AreRead one_line journal.file
unfolding AreRead is_unbroken append_all append write_line hash_or sign evidence_hash canonical_hash
    canonical_bytes has_float body clean intermesh.Prelude.Results.get text_beq
deed_read = ((refl, refl), tt)

verify_chain-append_all_example :
    (rs : List Json) × (journal.file ≡ some rs)
    × ((report : VerificationReport) × (verify_chain toy rs ≡ some report)
        × (is_valid report ≡ true)
        × (report.errors ≡ []))
    × (resume one_line (file_text one_line rs) ≡ some (journal.last_hash, journal.count))
verify_chain-append_all_example =
    verify_chain-append_all toy (codes "key") (codes "pem") none toy_sound one_line (deed ∷ [])
      deed_read

abbrev net : Outside
net = record {
  send = λ method url headers content. ok (200, content);
  dial = λ host port. connected;
  str_error = λ e. codes "no";
  now_ms = 7;
  uuid = codes "1";
}

abbrev lib : Lib
lib = record {
  compiles = λ r. true;
  search = text_beq;
  split_url = λ u. record { netloc = u; path = []; query = [] };
}

abbrev policy : Policy
policy = record {
  name = codes "p";
  rules = [];
  default_decision = approval;
  default_risk = r3;
  evidence_threshold = r2;
}

abbrev proxy : AssuranceProxy Text
proxy = record {
  policy = policy;
  policy_label = codes "p@1";
  key = codes "key";
  agent_id = codes "a";
  organization_id = codes "o";
}

abbrev granted : Approval
granted = record {
  action_id = codes "t";
  method = codes "GET";
  target = codes "http://x";
  approved_by = codes "b";
  approved_at = 1;
  expires_at = 9;
  used_at = none;
}

abbrev world : World
world = record {
  approvals = (codes "t", granted) ∷ [];
  store = record { last_hash = genesis; count = 0; file = some [] };
  sent = [];
}

abbrev request : Request
request = record {
  method = codes "GET";
  path = codes "http://x";
  headers = (codes "TE", codes "a") ∷ (codes "Host", codes "x") ∷ [];
  content = codes "c";
  approval_header = some (codes "t");
}

handle-IsPermitted_example :
    let v = assess toy lib proxy (codes "GET") (codes "http://x") in
    IsPermitted toy lib proxy net
      (codes "GET")
      (codes "http://x")
      request.headers
      (codes "c")
      (some (codes "t"))
      v
      v.decision
      world
      (handle toy lib proxy net request world)
unfolding starts
handle-IsPermitted_example = handle-IsPermitted toy lib proxy net request world refl
