-- ===== src/Payments/Ledger/Limits.antt =====
-- The credit limit of sdk-python/intermesh/payments/ledger.py, on every outcome of every call, and
-- what a refused charge leaves behind.
use intermesh.Prelude.{
  ℕ, Text, codes, ◌≡◌, ◌⊎◌, inl, inr, true, false, Option, some, arith, text_eq, text_beq_iff, sym,
  refl, ap, ◌∙◌, Option-cases, contains,
}
use intermesh.Prelude.Int.{ℤ, pos, ◌+ℤ◌, ◌-ℤ◌, ◌≤ℤ◌, int_laws}
use intermesh.Prelude.Dict.{Dict, lookup, insert, lookup-insert}
use intermesh.Prelude.Exec.{Result, ok, err, Result-cases, is_err}
use intermesh.Payments.Errors.{Error, is_ledger_error}
use intermesh.Payments.Price.{Price, parse_price}
use intermesh.Payments.Price.Laws.{quantize-cases}
use intermesh.Payments.Proof.{PaymentProof}
use intermesh.Payments.Ledger.{
  Account, Charge, Ledger, Env, available, write_charge, charge, audit_log, moment,
}
use intermesh.Payments.Ledger.Outcome.{proof_price}

-- Each account is filed under its own identifier and owes no more than its limit.
pub record IsWithin (d : Dict Text Account) : Type 0 where
  pub keyed : (k : Text) (a : Account) → lookup k d ≡ some a → a.agent_id ≡ k
  pub limited :
      (k : Text) (a : Account) → lookup k d ≡ some a → pos 0 ≤ℤ a.balance +ℤ a.credit_limit

pub insert-IsWithin :
    (d : Dict Text Account) (k : Text) (a : Account)
    → IsWithin d
    → a.agent_id ≡ k
    → pos 0 ≤ℤ a.balance +ℤ a.credit_limit
    → IsWithin (insert k a d)
insert-IsWithin d k a w e l = record {
  keyed = λ j b f. ground (arith, lookup-insert k j a d, text_beq_iff k j, w.keyed j b);
  limited = λ j b f. ground (arith, lookup-insert k j a d, text_beq_iff k j, w.limited j b);
}

-- The account as `charge` rewrites it.
abbrev pub debit : Account → ℤ → Account
debit a x = record a { balance = a.balance -ℤ x }

abbrev pub credit : Account → ℤ → Account
credit a x = record a { balance = a.balance +ℤ x }

module _ (env : Env) (time : ℕ) where
  -- However the writing ends, it has written nothing, the debit, or both sides.
  write_charge_stages :
      (p : PaymentProof) (amount : ℤ) (at : ℕ) (from to : Account) (s : Ledger)
      → let d = (write_charge env time p amount at from to s).1.accounts in
        let half = insert from.agent_id (debit from amount) s.accounts in
        (d ≡ s.accounts) ⊎ (d ≡ half) ⊎ (d ≡ insert to.agent_id (credit to amount) half)
  unfolding write_charge audit_log
  write_charge_stages p amount at from to s =
      ground (arith, quantize-cases (from.balance -ℤ amount), quantize-cases (to.balance +ℤ amount))

  write_charge-IsWithin :
      (p : PaymentProof) (amount : ℤ) (at : ℕ) (from to : Account) (s : Ledger)
      → IsWithin s.accounts
      → lookup p.pay_to s.accounts ≡ some to
      → pos 1 ≤ℤ amount
      → amount ≤ℤ from.balance +ℤ from.credit_limit
      → IsWithin (write_charge env time p amount at from to s).1.accounts
  write_charge-IsWithin p amount at from to s w ht positive covered =
      let half = insert from.agent_id (debit from amount) s.accounts in
      let one : IsWithin half =
        insert-IsWithin s.accounts from.agent_id (debit from amount) w refl (omega int_laws) in
      let two : IsWithin (insert to.agent_id (credit to amount) half) =
        insert-IsWithin half to.agent_id (credit to amount) one refl
          (omega (int_laws, w.limited p.pay_to to ht)) in
      elim (write_charge_stages p amount at from to s) [
        | inl e ↦ rw e w
        | inr (inl e) ↦ rw e one
        | inr (inr e) ↦ rw e two
      ]

  -- `charge` got as far as the writing, for known accounts and a covered amount above 0.
  record IsReached (ms : ℕ) (p : PaymentProof) (now : Option ℕ) (s : Ledger) : Type 0 where
    amount : ℤ
    from : Account
    to : Account
    fresh : contains p.nonce s.seen_nonces ≡ false
    pays : lookup p.payer s.accounts ≡ some from
    paid : lookup p.pay_to s.accounts ≡ some to
    positive : pos 1 ≤ℤ amount
    covered : amount ≤ℤ from.balance +ℤ from.credit_limit
    writes : charge env time ms p now s ≡ write_charge env time p amount (moment ms now) from to s

  charge_reaches :
      (ms : ℕ) (p : PaymentProof) (now : Option ℕ) (s : Ledger) (amount : Price) (from to : Account)
      → parse_price (proof_price p) (codes "USD") ≡ ok amount
      → lookup p.payer s.accounts ≡ some from
      → lookup p.pay_to s.accounts ≡ some to
      → ((is_err (charge env time ms p now s).0 ≡ true) × ((charge env time ms p now s).1 ≡ s))
        ⊎ ((charge env time ms p now s
              ≡ write_charge env time p amount.amount (moment ms now) from to s)
            × (contains p.nonce s.seen_nonces ≡ false)
            × (pos 1 ≤ℤ amount.amount)
            × (amount.amount ≤ℤ from.balance +ℤ from.credit_limit))
  unfolding charge available
  charge_reaches ms p now s amount from to read pays paid =
      ground (arith, quantize-cases (from.balance +ℤ from.credit_limit))

  charge-cases :
      (ms : ℕ) (p : PaymentProof) (now : Option ℕ) (s : Ledger)
      → ((is_err (charge env time ms p now s).0 ≡ true) × ((charge env time ms p now s).1 ≡ s))
        ⊎ IsReached ms p now s
  unfolding charge
  charge-cases ms p now s = elim (Result-cases (parse_price (proof_price p) (codes "USD"))) [
    | inr (e, bad) ↦ inl (ground arith, ground arith)
    | inl (amount, read) ↦ elim (Option-cases (lookup p.payer s.accounts)) [
      | inl missing ↦ inl (ground arith, ground arith)
      | inr (from, pays) ↦ elim (Option-cases (lookup p.pay_to s.accounts)) [
        | inl missing ↦ inl (ground arith, ground arith)
        | inr (to, paid) ↦ elim (charge_reaches ms p now s amount from to read pays paid) [
          | inl refused ↦ inl refused
          | inr (writes, fresh, positive, covered) ↦ inr (record {
            amount = amount.amount;
            from = from;
            to = to;
            fresh = fresh;
            pays = pays;
            paid = paid;
            positive = positive;
            covered = covered;
            writes = writes;
          })
        ]
      ]
    ]
  ]

  -- Whatever `charge` returns or raises, afterwards every account still owes no more than its
  -- limit, if that was so before.
  pub charge-IsWithin :
      (ms : ℕ) (p : PaymentProof) (now : Option ℕ) (s : Ledger)
      → IsWithin s.accounts
      → IsWithin (charge env time ms p now s).1.accounts
  charge-IsWithin ms p now s w = elim (charge-cases ms p now s) [
    | inl refused ↦ rw (refused.1) w
    | inr r ↦ rw (r.writes) (
        write_charge-IsWithin p r.amount (moment ms now) r.from r.to s w r.paid r.positive
          r.covered)
  ]

  write_charge_raises :
      (p : PaymentProof) (amount : ℤ) (at : ℕ) (from to : Account) (s : Ledger) (e : Error)
      → (write_charge env time p amount at from to s).0 ≡ err e
      → is_ledger_error e ≡ false
  unfolding write_charge audit_log is_ledger_error
  write_charge_raises p amount at from to s e h =
      ground (arith, quantize-cases (from.balance -ℤ amount), quantize-cases (to.balance +ℤ amount))

  -- A charge that raises a `LedgerError` (a replayed nonce, a wrong currency, an amount that is
  -- not positive, an unknown account, too little credit) leaves the whole ledger as it was.
  pub charge_refused :
      (ms : ℕ) (p : PaymentProof) (now : Option ℕ) (s : Ledger) (e : Error)
      → (charge env time ms p now s).0 ≡ err e
      → is_ledger_error e ≡ true
      → (charge env time ms p now s).1 ≡ s
  charge_refused ms p now s e h l = elim (charge-cases ms p now s) [
    | inl refused ↦ refused.1
    | inr r ↦ cc (
      l,
      write_charge_raises p r.amount (moment ms now) r.from r.to s e
          (ap (λ (x : Result Error Charge × Ledger). x.0) (sym r.writes) ∙ h),
    )
  ]
