-- ===== src/Payments/Ledger/Atomicity.antt =====
-- Where `charge` of sdk-python/intermesh/payments/ledger.py stops between the debit and the credit.
use intermesh.Prelude.{
  ℕ, ◌+◌, ◌≤◌, ◌<◌, codes, ◌≡◌, false, Option, some, arith, contains, text_eq, text_beq_iff,
}
use intermesh.Prelude.Int.{ℤ, pos, pos_part, neg_part, ◌+ℤ◌, ◌-ℤ◌, ◌≤ℤ◌}
use intermesh.Prelude.Dict.{lookup, insert}
use intermesh.Prelude.Exec.{ok, err}
use intermesh.Payments.Errors.{invalid_operation}
use intermesh.Payments.Price.{Price, quantize, parse_price, max_units}
use intermesh.Payments.Price.Laws.{quantize-fits}
use intermesh.Payments.Proof.{PaymentProof}
use intermesh.Payments.Ledger.{Account, Ledger, Env, available, write_charge, charge}
use intermesh.Payments.Ledger.Limits.{debit}
use intermesh.Payments.Ledger.Outcome.{proof_price}

quantize_overflows :
    (x : ℤ) → max_units ≤ pos_part x + neg_part x → quantize x ≡ err invalid_operation
unfolding quantize
quantize_overflows x h = ground arith

module _ (env : Env) (time ms : ℕ) (p : PaymentProof) (now : Option ℕ) (s : Ledger) where
  -- A charge that passes every check, for a payee whose balance would need more than 28 digits,
  -- raises InvalidOperation after the payer's account has been debited: the payee is not
  -- credited, no charge is recorded, and the nonce stays usable.
  pub charge_torn :
      (amount : Price) (from to : Account)
      → contains p.nonce s.seen_nonces ≡ false
      → parse_price (proof_price p) (codes "USD") ≡ ok amount
      → amount.currency ≡ s.currency
      → pos 1 ≤ℤ amount.amount
      → lookup p.payer s.accounts ≡ some from
      → lookup p.pay_to s.accounts ≡ some to
      → available from ≡ ok (from.balance +ℤ from.credit_limit)
      → amount.amount ≤ℤ from.balance +ℤ from.credit_limit
      → pos_part (from.balance -ℤ amount.amount) + neg_part (from.balance -ℤ amount.amount)
        < max_units
      → max_units ≤ pos_part (to.balance +ℤ amount.amount) + neg_part (to.balance +ℤ amount.amount)
      → charge env time ms p now s ≡ (
        err invalid_operation,
        record s { accounts = insert from.agent_id (debit from amount.amount) s.accounts },
      )
  unfolding charge write_charge
  charge_torn amount from to fresh read cur positive pays paid room covered fits over = ground (
    arith,
    text_beq_iff amount.currency s.currency,
    quantize-fits (from.balance -ℤ amount.amount),
    quantize_overflows (to.balance +ℤ amount.amount),
  )
