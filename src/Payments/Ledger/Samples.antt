-- ===== src/Payments/Ledger/Samples.antt =====
-- A small ledger and a charge on it, for the tests of the payments.
use intermesh.Prelude.{codes, ◌≡◌, refl, none, [], ◌∷◌, text_beq, text_eq}
use intermesh.Prelude.Int.{pos, ◌+ℤ◌, ◌-ℤ◌}
use intermesh.Prelude.Dict.{lookup, insert}
use intermesh.Prelude.Exec.{ok}
use intermesh.Prelude.Json.{obj, end}
use intermesh.Audit
use intermesh.Audit.{AuditEntry, AuditLog}
use intermesh.Payments.Price.{
  quantize, parse_price, parse_text, match_price, announced, round_half_up,
}
use intermesh.Payments.Proof.{PaymentProof}
use intermesh.Payments.Ledger.{
  Account, Charge, Ledger, Env, available, account, require_currency, write_charge, charge,
  audit_log,
}

abbrev pub env : Env
env = record { digest = λ p. p.index ∷ []; str_decimal = λ x. [] }

abbrev pub acc_a : Account
acc_a = record {
  agent_id = codes "a";
  currency = codes "USD";
  credit_limit = pos 1000000000;
  balance = pos 0;
}

abbrev pub acc_b : Account
acc_b = record {
  agent_id = codes "b";
  currency = codes "USD";
  credit_limit = pos 0;
  balance = pos 0;
}

abbrev pub first : AuditEntry
first = record {
  payload = record {
    index = 0;
    timestamp = 5;
    event_type = codes "G";
    sender = [];
    target = none;
    metadata = obj end;
    prev_hash = codes "0";
  };
  hash = 0 ∷ [];
}

abbrev pub start : Ledger
start = record {
  currency = codes "USD";
  accounts = (codes "a", acc_a) ∷ (codes "b", acc_b) ∷ [];
  charges = [];
  seen_nonces = [];
  audit = record { chain = first ∷ []; sink = none };
  changes = 0;
}

abbrev pub proof : PaymentProof
proof = record {
  payer = codes "a";
  amount = codes "2.5";
  currency = codes "USD";
  pay_to = codes "b";
  resource = codes "/r";
  nonce = codes "n";
  issued_at = pos 0;
  expires_at = pos 9;
}

abbrev pub made : Charge
made = record {
  payer = codes "a";
  payee = codes "b";
  amount = pos 250000000;
  currency = codes "USD";
  resource = codes "/r";
  nonce = codes "n";
  at = 7;
}

-- The ledger after that charge.
unfoldable pub after : Ledger
after = (charge env 6 7 proof none start).1

pub charge_runs : charge env 6 7 proof none start ≡ (ok made, after)
unfolding charge require_currency account available quantize parse_price parse_text match_price
    announced round_half_up write_charge audit_log text_beq ◌+ℤ◌ ◌-ℤ◌ lookup insert Audit.log after
charge_runs = refl
