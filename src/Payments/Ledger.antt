-- ===== src/Payments/Ledger.antt =====
-- sdk-python/intermesh/payments/ledger.py: who owes how much to whom. The methods are actions on
-- the ledger; `time` is `time.time()` as the audit entry reads it, `ms` what `now_ms()` returns.
pub mod Outcome
pub mod Conservation
pub mod Limits
pub mod Atomicity
pub mod History
pub mod Snapshot
pub mod Samples
mod Tests
use intermesh.Prelude.{
  ℕ, zero, suc, ◌+◌, Text, codes, Bool, true, false, ◌&&◌, ◌||◌, not, Option, none, some, List, [],
  ◌∷◌, ◌++◌, map, contains, ltb, leb, ◌==◌, text_eq, if◌then◌else◌,
}
use intermesh.Prelude.Int.{ℤ, pos, ◌+ℤ◌, ◌-ℤ◌, ltb_ℤ, leb_ℤ}
use intermesh.Prelude.Dict.{Dict, lookup, insert}
use intermesh.Prelude.Json.{Json, Fields, obj, end, field, str, int}
use intermesh.Prelude.Exec.{
  Result, ok, err, Exec, pure, raise, lift, read, need, ◌>>=◌, ◌>>◌, raise_if, modify,
}
use intermesh.Audit
use intermesh.Audit.{Payload, AuditEntry, AuditLog}
use intermesh.Payments.Errors.{
  Error, wrong_currency, not_positive, unknown_account, credit_limit_exceeded, duplicate_nonce,
  index_error,
}
use intermesh.Payments.Price.{Price, Raw, quantize, parse_price}
use intermesh.Payments.Proof.{PaymentProof}

-- A negative balance is what the agent owes.
pub record Account : Type 0 where
  pub agent_id : Text
  pub currency : Text
  pub credit_limit : ℤ
  pub balance : ℤ

pub record Charge : Type 0 where
  pub payer : Text
  pub payee : Text
  pub amount : ℤ
  pub currency : Text
  pub resource : Text
  pub nonce : Text
  pub at : ℕ

-- `changes` counts the calls of `on_change`.
pub record Ledger : Type 0 where
  pub currency : Text
  pub accounts : Dict Text Account
  pub charges : List Charge
  pub seen_nonces : List Text
  pub audit : AuditLog
  pub changes : ℕ

abbrev pub Action : Type 0 → Type 0
Action = Exec Ledger Error

-- What the module takes from elsewhere: the audit digest, and `str` of a Decimal.
pub record Env : Type 0 where
  pub digest : Payload → Text
  pub str_decimal : ℤ → Text

-- `Account.available`
unfoldable pub available : Account → Result Error ℤ
available a = quantize (a.balance +ℤ a.credit_limit)

-- `_require_currency`
unfoldable pub require_currency : Text → Action (Unit {0})
require_currency c s = (if c == s.currency then ok tt else err wrong_currency, s)

unfoldable pub account : Text → Action Account
account agent s = need unknown_account (lookup agent s.accounts) s

pub balance : Text → Action Price
unfolding account
balance agent = do
  a ← account agent
  c ← read (λ s. s.currency)
  pure (record { amount = a.balance; currency = c })

put_account : Account → Action (Unit {0})
put_account a = modify (λ s. record s { accounts = insert a.agent_id a s.accounts })

add_charge : Charge → Action (Unit {0})
add_charge c = modify (λ s. record s { charges = s.charges ++ c ∷ [] })

-- `self._seen_nonces.add(nonce)`
add_nonce : Text → Action (Unit {0})
add_nonce n = modify λ s. record s {
  seen_nonces = if contains n s.seen_nonces then s.seen_nonces else s.seen_nonces ++ n ∷ [];
}

-- `_changed`
changed : Action (Unit {0})
changed = modify (λ s. record s { changes = suc s.changes })

pub charge_json : Env → Charge → Json
charge_json env c = obj (
    field (codes "payer") (str c.payer) (
      field (codes "payee") (str c.payee) (
        field (codes "amount") (str (env.str_decimal c.amount)) (
          field (codes "currency") (str c.currency) (
            field (codes "resource") (str c.resource)
              (field (codes "nonce") (str c.nonce) (field (codes "at") (int (pos c.at)) end)))))))

-- `self.audit.log(...)`
unfoldable pub audit_log : Env → ℕ → Text → Text → Option Text → Json → Action (Unit {0})
audit_log env time kind who whom meta s =
    elim (Audit.log env.digest time kind who whom (some meta) s.audit) [
      | none ↦ (err index_error, s)
      | some (log, _) ↦ (ok tt, record s { audit = log })
    ]

open_new : Env → ℕ → Text → Raw → Action Account
unfolding require_currency put_account changed
open_new env time agent limit = do
  currency ← read (λ s. s.currency)
  l ← lift (parse_price limit currency)
  require_currency l.currency
  let a : Account = record {
    agent_id = agent;
    currency = currency;
    credit_limit = l.amount;
    balance = pos 0;
  }
  put_account a
  audit_log env time (codes "ACCOUNT_OPENED") agent none (
      obj (
        field (codes "credit_limit") (str (env.str_decimal l.amount))
          (field (codes "currency") (str currency) end)))
  changed
  pure a

-- `open_account`
pub open_account : Env → ℕ → Text → Raw → Action Account
unfolding open_new
open_account env time agent limit s = elim (lookup agent s.accounts) [
  | some a ↦ (ok a, s)
  | none ↦ open_new env time agent limit s
]

-- The part of `charge` that writes: it begins once nothing but the precision can refuse.
unfoldable pub write_charge : Env → ℕ → PaymentProof → ℤ → ℕ → Account → Account → Action Charge
unfolding put_account add_charge add_nonce changed
write_charge env time proof amount at payer payee = do
  debited ← lift (quantize (payer.balance -ℤ amount))
  put_account (record payer { balance = debited })
  credited ← lift (quantize (payee.balance +ℤ amount))
  put_account (record payee { balance = credited })
  currency ← read (λ s. s.currency)
  let c : Charge = record {
    payer = proof.payer;
    payee = proof.pay_to;
    amount = amount;
    currency = currency;
    resource = proof.resource;
    nonce = proof.nonce;
    at = at;
  }
  add_charge c
  add_nonce proof.nonce
  audit_log env time (codes "CHARGE") proof.payer (some proof.pay_to) (charge_json env c)
  changed
  pure c

-- `now if now is not None else now_ms()`
abbrev pub moment : ℕ → Option ℕ → ℕ
moment ms none = ms
moment ms (some now) = now

-- `charge`
unfoldable pub charge : Env → ℕ → ℕ → PaymentProof → Option ℕ → Action Charge
unfolding require_currency account
charge env time ms proof now = do
  seen ← read (λ s. contains proof.nonce s.seen_nonces)
  raise_if seen duplicate_nonce
  amount ← lift (parse_price (Raw.text (proof.amount ++ 32 ∷ proof.currency)) (codes "USD"))
  require_currency amount.currency
  raise_if (leb_ℤ amount.amount (pos 0)) not_positive
  payer ← account proof.payer
  payee ← account proof.pay_to
  left ← lift (available payer)
  raise_if (ltb_ℤ left amount.amount) credit_limit_exceeded
  write_charge env time proof amount.amount (moment ms now) payer payee

-- `settle`
pub settle : Env → ℕ → Text → Raw → Action Account
unfolding require_currency account put_account changed
settle env time agent amount = do
  currency ← read (λ s. s.currency)
  received ← lift (parse_price amount currency)
  require_currency received.currency
  raise_if (leb_ℤ received.amount (pos 0)) not_positive
  a ← account agent
  b ← lift (quantize (a.balance +ℤ received.amount))
  let updated : Account = record a { balance = b }
  modify (λ s. record s { accounts = insert agent updated s.accounts })
  audit_log env time (codes "SETTLEMENT") agent none (
      obj (
        field (codes "amount") (str (env.str_decimal received.amount)) (
          field (codes "currency") (str currency)
            (field (codes "balance") (str (env.str_decimal b)) end))))
  changed
  pure updated

-- `since is None or c.at >= since`, `until is None or c.at < until`
pub in_period : Option ℕ → Option ℕ → ℕ → Bool
in_period since until at =
    (elim since [ none ↦ true | some t ↦ leb t at ])
    && (elim until [ none ↦ true | some t ↦ ltb at t ])

pub statement : Text → Option ℕ → Option ℕ → List Charge → List Charge
unfolding in_period
statement agent since until [] = []
statement agent since until (c ∷ cs) =
    let rest = statement agent since until cs in
    if (c.payer == agent || c.payee == agent) && in_period since until c.at then c ∷ rest else rest

paid_by : Text → List Charge → ℤ
paid_by agent [] = pos 0
paid_by agent (c ∷ cs) = if c.payer == agent then c.amount +ℤ paid_by agent cs else paid_by agent cs

-- `total_owed`
pub total_owed : Text → Option ℕ → Option ℕ → Action Price
unfolding paid_by
total_owed agent since until = do
  charges ← read (λ s. s.charges)
  total ← lift (quantize (paid_by agent (statement agent since until charges)))
  currency ← read (λ s. s.currency)
  pure (record { amount = total; currency = currency })

pub verify_integrity : Env → Ledger → Bool
verify_integrity env s = Audit.verify_integrity env.digest s.audit.chain
