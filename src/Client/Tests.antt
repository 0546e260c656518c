-- ===== src/Client/Tests.antt =====
-- A wallet with a cap and a budget, a server that asks once, and the theorems on clients at them.
use intermesh.Prelude.{
  true, arith, zero, suc, ℕ, Text, codes, ◌≡◌, ◌⊎◌, none, some, List, [], ◌∷◌, All,
}
use intermesh.Prelude.Int.{pos, ◌+ℤ◌, ◌≤ℤ◌}
use intermesh.Prelude.Json.{obj}
use intermesh.Payments.Price.{Price}
use intermesh.Payments.Challenge.{PaymentChallenge, to_dict}
use intermesh.Payments.Proof.{Crypto}
use intermesh.Client.{Wallet, Transport, value, pay_and_retry}
use intermesh.Client.Budget.{IsWithin, ArePrices, session, total, session-IsWithin}
use intermesh.Client.Retry.{IsUnpaid, IsPaid, pay_and_retry_lem}

abbrev lib : Crypto Text
lib = record {
  load_public_pem = λ pem. some pem;
  verify = λ key signature body. true;
  sign = λ secret body. codes "sig";
  fingerprint = λ pem. pem;
  b64 = λ t. t;
  unb64 = λ t. some t;
  read_json = λ body. none;
  canonical = λ j. codes "{}";
  str_json = λ j. [];
  int_json = λ j. none;
}

abbrev fee : PaymentChallenge
fee = record {
  amount = codes "2.5";
  currency = codes "USD";
  pay_to = codes "b";
  resource = codes "/r";
  nonce = codes "n";
  expires_at = pos 9;
  ledger = none;
}

abbrev wallet : Wallet
wallet = record {
  agent_id = codes "a";
  key = codes "k";
  currency = codes "USD";
  max_price = record { amount = pos 300000000; currency = codes "USD" };
  budget = some (record { amount = pos 400000000; currency = codes "USD" });
  spent = pos 0;
}

-- The server asks for a payment at the first call and answers 200 at the next.
abbrev server : Transport ℕ
server = record {
  send = λ n header. elim n [ zero ↦ 402 | suc m ↦ 200 ];
  status_of = λ r. r;
  body_of = λ r. value (obj (to_dict fee));
  read_json = λ t. none;
  reason_of = λ b. codes "no";
}

session-IsWithin_example :
    let r = session lib ((1, fee) ∷ (2, fee) ∷ []) wallet in
    (ps : List Price) × ArePrices lib r.1 ps
    × (r.0.spent ≡ wallet.spent +ℤ total lib ps)
    × All (λ p. p.amount ≤ℤ wallet.max_price.amount) ps
    × IsWithin wallet.budget r.0.spent
session-IsWithin_example = session-IsWithin lib ((1, fee) ∷ (2, fee) ∷ []) wallet (ground arith)

pay_and_retry_lem_example :
    let r = pay_and_retry lib server 1 wallet in
    IsUnpaid lib server wallet r ⊎ IsPaid lib server 1 wallet r
pay_and_retry_lem_example = pay_and_retry_lem lib server 1 wallet
