-- ===== src/Payments/Ledger/Outcome.antt =====
-- What a successful `charge`, `settle` or `open_account` has done, read off the code once.
use intermesh.Prelude.{
  ℕ, codes, ◌≡◌, false, Option, some, [], ◌∷◌, ◌++◌, arith, contains, text_eq, inl, inr,
  if◌then◌else◌, Option-cases,
}
use intermesh.Prelude.Int.{ℤ, pos, ◌+ℤ◌, ◌-ℤ◌, ◌≤ℤ◌}
use intermesh.Prelude.Dict.{lookup, insert}
use intermesh.Prelude.Exec.{ok, Result-cases}
use intermesh.Payments.Price.{Price, Raw, parse_price}
use intermesh.Payments.Price.Laws.{quantize-cases}
use intermesh.Payments.Proof.{PaymentProof}
use intermesh.Payments.Ledger.{
  Account, Charge, Ledger, Env, available, write_charge, charge, audit_log, moment,
}

-- What has changed between `s` and `s'` when `charge` has returned `c` for the proof `p`.
pub record IsCharged (p : PaymentProof) (c : Charge) (s s' : Ledger) : Type 0 where
  pub from : Account
  pub to : Account
  pub fresh : contains p.nonce s.seen_nonces ≡ false
  pub positive : pos 1 ≤ℤ c.amount
  pub payer_known : lookup p.payer s.accounts ≡ some from
  pub payee_known : lookup p.pay_to s.accounts ≡ some to
  pub covered : c.amount ≤ℤ from.balance +ℤ from.credit_limit
  pub accounts :
      s'.accounts
      ≡ insert to.agent_id
          (record to { balance = to.balance +ℤ c.amount })
          (insert from.agent_id (record from { balance = from.balance -ℤ c.amount }) s.accounts)
  pub charges : s'.charges ≡ s.charges ++ c ∷ []
  pub nonces : s'.seen_nonces ≡ s.seen_nonces ++ p.nonce ∷ []
  pub currency : s'.currency ≡ s.currency
  pub payer : c.payer ≡ p.payer
  pub payee : c.payee ≡ p.pay_to
  pub nonce : c.nonce ≡ p.nonce

-- The part of that record which `write_charge` answers for.
record IsWritten (p : PaymentProof) (amount : ℤ) (from to : Account) (c : Charge) (s s' : Ledger)
    : Type 0 where
  accounts :
      s'.accounts
      ≡ insert to.agent_id
          (record to { balance = to.balance +ℤ amount })
          (insert from.agent_id (record from { balance = from.balance -ℤ amount }) s.accounts)
  charges : s'.charges ≡ s.charges ++ c ∷ []
  nonces :
      s'.seen_nonces
      ≡ (if contains p.nonce s.seen_nonces then s.seen_nonces else s.seen_nonces ++ p.nonce ∷ [])
  currency : s'.currency ≡ s.currency
  amount_is : c.amount ≡ amount
  payer : c.payer ≡ p.payer
  payee : c.payee ≡ p.pay_to
  nonce : c.nonce ≡ p.nonce

-- The text that `charge` parses: the amount, a space, the currency.
abbrev pub proof_price : PaymentProof → Raw
proof_price p = Raw.text (p.amount ++ 32 ∷ p.currency)

module _ (env : Env) (time : ℕ) where
  write_charge-IsWritten :
      (p : PaymentProof) (amount : ℤ) (at : ℕ) (from to : Account) (s s' : Ledger) (c : Charge)
      → write_charge env time p amount at from to s ≡ (ok c, s')
      → IsWritten p amount from to c s s'
  unfolding write_charge audit_log
  write_charge-IsWritten p amount at from to s s' c h =
      ground (arith, quantize-cases (from.balance -ℤ amount), quantize-cases (to.balance +ℤ amount))

  -- The last step, with the price and both accounts at hand.
  accepted_with :
      (amount : Price) (from to : Account) (ms : ℕ) (p : PaymentProof) (now : Option ℕ)
      (s s' : Ledger) (c : Charge)
      → parse_price (proof_price p) (codes "USD") ≡ ok amount
      → lookup p.payer s.accounts ≡ some from
      → lookup p.pay_to s.accounts ≡ some to
      → charge env time ms p now s ≡ (ok c, s')
      → IsCharged p c s s'
  unfolding charge available
  accepted_with amount from to ms p now s s' c read pays paid h =
      let w : IsWritten p amount.amount from to c s s' =
        write_charge-IsWritten p amount.amount (moment ms now) from to s s' c
          (ground (arith, quantize-cases (from.balance +ℤ from.credit_limit))) in
      let q = quantize-cases (from.balance +ℤ from.credit_limit) in
      record {
        from = from;
        to = to;
        fresh = ground arith;
        positive = ground arith;
        payer_known = pays;
        payee_known = paid;
        covered = ground (arith, w.amount_is);
        accounts = ground arith;
        charges = w.charges;
        nonces = ground arith;
        currency = w.currency;
        payer = w.payer;
        payee = w.payee;
        nonce = w.nonce;
      }

  pub charge-IsCharged :
      (ms : ℕ) (p : PaymentProof) (now : Option ℕ) (s s' : Ledger) (c : Charge)
      → charge env time ms p now s ≡ (ok c, s')
      → IsCharged p c s s'
  unfolding charge
  charge-IsCharged ms p now s s' c h =
      elim (Result-cases (parse_price (proof_price p) (codes "USD"))) [
        | inr (e, bad) ↦ absurd (ground arith)
        | inl (amount, read) ↦ elim (Option-cases (lookup p.payer s.accounts)) [
          | inl missing ↦ absurd (ground arith)
          | inr (from, pays) ↦ elim (Option-cases (lookup p.pay_to s.accounts)) [
            | inl missing ↦ absurd (ground arith)
            | inr (to, paid) ↦ accepted_with amount from to ms p now s s' c read pays paid h
          ]
        ]
      ]
