-- ===== src/Payments/Gate/Tests.antt =====
-- A gate with two pending challenges and proofs that answer them, and the theorems on payments at it.
use intermesh.Prelude.{Text, codes, ◌≡◌, ◌≢◌, refl, none, some, [], ◌∷◌, ◌++◌, text_eq, text_beq}
use intermesh.Prelude.Int.{pos, ◌+ℤ◌, ◌-ℤ◌}
use intermesh.Prelude.Dict.{lookup, insert, erase}
use intermesh.Prelude.Exec.{ok}
use intermesh.Prelude.Results.{get}
use intermesh.Audit
use intermesh.Payments.Price.{
  Raw, quantize, parse_price, parse_text, match_price, announced, round_half_up,
}
use intermesh.Payments.Ledger.{
  charge, require_currency, account, available, write_charge, audit_log,
}
use intermesh.Payments.Challenge.{PaymentChallenge}
use intermesh.Payments.Proof.{
  Crypto, payload, split_dot, verify_proof, answers, read_proof, open_header, fits, is_version,
  members, is_expired,
}
use intermesh.Payments.Keyring.{Keyring, public_key, public_pem}
use intermesh.Payments.Ledger.Samples.{env, start, proof}
use intermesh.Payments.Gate.{PaymentGate, Settled, Source, admit, check_header, peek, key_of}
use intermesh.Payments.Gate.Admission.{IsAdmitted, admit-IsAdmitted, refused_unchanged}
use intermesh.Payments.Gate.Replay.{Request, answer, serve, settled_once}

-- A header is the nonce, a dot and the word `sig`; the body says what a proof with this nonce says.
abbrev lib : Crypto Text
lib = record {
  load_public_pem = λ pem. some pem;
  verify = λ key signature body. text_beq signature (codes "sig");
  sign = λ secret body. codes "sig";
  fingerprint = λ pem. pem;
  b64 = λ t. t;
  unb64 = λ t. some t;
  read_json = λ body. some (payload (record proof { nonce = body }));
  canonical = λ j. [];
  str_json = λ j. [];
  int_json = λ j. none;
}

abbrev challenge : Text → PaymentChallenge
challenge n = record {
  amount = codes "2.5";
  currency = codes "USD";
  pay_to = codes "b";
  resource = codes "/r";
  nonce = n;
  expires_at = pos 9;
  ledger = none;
}

abbrev ring : Keyring Text
ring = record { lookup_fn = none; keys = (codes "a", codes "pem") ∷ []; parsed = [] }

abbrev gate : PaymentGate Text
gate = record {
  ledger = start;
  keyring = ring;
  payee = codes "b";
  ledger_url = none;
  ttl_ms = 100;
  pending = (codes "n", challenge (codes "n")) ∷ (codes "m", challenge (codes "m")) ∷ [];
}

abbrev src : Source
src = record { env = env; ms = 7; time = 6; fresh = codes "f" }

abbrev request : Text → Request
request n = record {
  src = src;
  resource = codes "/r";
  asked = Raw.text (codes "2.5");
  header = some (n ++ codes ".sig");
  now = none;
}

abbrev settled : Text → Settled
settled n = record {
  proof = record proof { nonce = n };
  amount = record { amount = pos 250000000; currency = codes "USD" };
}

-- The gate after the first request.
later : PaymentGate Text
later = (answer lib (request (codes "n")) gate).1

runs : answer lib (request (codes "n")) gate ≡ (ok (settled (codes "n")), later)
unfolding admit later check_header peek split_dot payload get text_beq key_of public_key lookup
    public_pem verify_proof answers read_proof open_header fits is_version members is_expired charge
    require_currency account available quantize parse_price parse_text match_price announced
    round_half_up write_charge audit_log ◌+ℤ◌ ◌-ℤ◌ insert erase Audit.log
runs = refl

runs_again : (answer lib (request (codes "m")) later).0 ≡ ok (settled (codes "m"))
unfolding admit later check_header peek split_dot payload get text_beq key_of public_key lookup
    public_pem verify_proof answers read_proof open_header fits is_version members is_expired charge
    require_currency account available quantize parse_price parse_text match_price announced
    round_half_up write_charge audit_log ◌+ℤ◌ ◌-ℤ◌ insert erase Audit.log
runs_again = refl

admit-IsAdmitted_example :
    (h : Text) × (some (codes "n.sig") ≡ some h)
    × IsAdmitted lib src h none gate later (settled (codes "n"))
admit-IsAdmitted_example =
    admit-IsAdmitted lib src (codes "/r") (Raw.text (codes "2.5")) (some (codes "n.sig")) none gate
      later (settled (codes "n")) runs

settled_once_example : codes "m" ≢ codes "n"
unfolding serve
settled_once_example =
    settled_once lib (request (codes "n")) (request (codes "m")) [] gate later
      (answer lib (request (codes "m")) later).1 (settled (codes "n")) (settled (codes "m")) runs
      (λ i. (runs_again i, (answer lib (request (codes "m")) later).1))

refused_unchanged_example :
    (admit lib src (codes "/r") (Raw.text (codes "2.5")) (some (codes "n")) none gate).1.ledger
    ≡ start
unfolding admit check_header peek split_dot
refused_unchanged_example =
    refused_unchanged lib src none (codes "/r") (Raw.text (codes "2.5")) (some (codes "n")) gate
      refl
