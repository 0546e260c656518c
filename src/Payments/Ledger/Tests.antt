-- ===== src/Payments/Ledger/Tests.antt =====
-- A small ledger, runs of its methods, and the theorems of this component at it.
use intermesh.Prelude.{
  Text, codes, ◌≡◌, refl, ◌≢◌, none, some, List, [], ◌∷◌, arith, text_beq, text_beq_iff, text_ne,
  text_eq,
}
use intermesh.Prelude.Int.{pos, ◌+ℤ◌, ◌-ℤ◌, ◌≤ℤ◌}
use intermesh.Prelude.Dict.{lookup, insert}
use intermesh.Prelude.Exec.{ok, err}
use intermesh.Audit
use intermesh.Audit.{AuditEntry, AuditLog}
use intermesh.Payments.Errors.{duplicate_nonce, credit_limit_exceeded}
use intermesh.Payments.Price.{
  Raw, quantize, parse_price, parse_text, match_price, announced, round_half_up,
}
use intermesh.Payments.Proof.{PaymentProof}
use intermesh.Payments.Ledger.{
  Account, Charge, Ledger, available, account, require_currency, write_charge, charge, audit_log,
}
use intermesh.Payments.Ledger.Samples.{env, acc_a, acc_b, start, proof, made, after, charge_runs}
use intermesh.Payments.Ledger.Conservation.{IsKeyed, total, charge_moves}
use intermesh.Payments.Ledger.Limits.{IsWithin, charge-IsWithin}
use intermesh.Payments.Ledger.History.{Call, opens, charges, settles, run, no_replay}

-- The account pays itself: the debit is lost, and 2.5 has appeared.
abbrev to_self : PaymentProof
to_self = record proof { pay_to = codes "a" }

abbrev made_self : Charge
made_self = record made { payee = codes "a" }

after_self : Ledger
after_self = (charge env 6 7 to_self none start).1

charge_self_runs : charge env 6 7 to_self none start ≡ (ok made_self, after_self)
unfolding charge require_currency account available quantize parse_price parse_text match_price
    announced round_half_up write_charge audit_log text_beq ◌+ℤ◌ ◌-ℤ◌ lookup insert Audit.log
    after_self
charge_self_runs = refl

self_total : total after_self.accounts ≡ pos 250000000
unfolding charge require_currency account available quantize parse_price parse_text match_price
    announced round_half_up write_charge audit_log text_beq ◌+ℤ◌ ◌-ℤ◌ lookup insert Audit.log
    after_self
self_total = refl

too_much : PaymentProof
too_much = record proof { amount = codes "10.00000001" }

overdraft_refused : (charge env 6 7 too_much none start).0 ≡ err credit_limit_exceeded
unfolding charge require_currency account available quantize parse_price parse_text match_price
    announced round_half_up write_charge audit_log text_beq ◌+ℤ◌ ◌-ℤ◌ lookup insert Audit.log
    too_much
overdraft_refused = refl

start-IsKeyed : IsKeyed start
unfolding lookup
start-IsKeyed = record {
  at = λ k a h. ground (arith, text_beq_iff (codes "a") k, text_beq_iff (codes "b") k);
}

start-IsWithin : IsWithin start.accounts
unfolding lookup ◌+ℤ◌
start-IsWithin = record {
  keyed = λ k a h. start-IsKeyed.at k a h;
  limited = λ k a h. ground (arith, text_beq_iff (codes "a") k, text_beq_iff (codes "b") k);
}

charge_moves_example :
    (from : Account) × (to : Account) × (lookup (codes "a") start.accounts ≡ some from)
    × (lookup (codes "b") start.accounts ≡ some to)
    × (pos 1 ≤ℤ pos 250000000)
    × (pos 250000000 ≤ℤ from.balance +ℤ from.credit_limit)
    × (lookup (codes "a") after.accounts
        ≡ some (record from { balance = from.balance -ℤ pos 250000000 }))
    × (lookup (codes "b") after.accounts
        ≡ some (record to { balance = to.balance +ℤ pos 250000000 }))
    × ((j : Text)
        → codes "a" ≢ j
        → codes "b" ≢ j
        → lookup j after.accounts ≡ lookup j start.accounts)
    × (total after.accounts ≡ total start.accounts)
unfolding text_beq
charge_moves_example =
    charge_moves env 6 7 proof none start after made start-IsKeyed
      (text_ne (codes "a") (codes "b") refl) charge_runs

charge-IsWithin_example : IsWithin (charge env 6 7 proof none start).1.accounts
charge-IsWithin_example = charge-IsWithin env 6 7 proof none start start-IsWithin

no_replay_example :
    charge env 8 9 proof none (
      run env after
        (opens 7 (codes "c") (Raw.price (record { amount = pos 1; currency = codes "USD" })) ∷ []))
    ≡ (
      err duplicate_nonce,
      run env after (
          opens 7 (codes "c") (Raw.price (record { amount = pos 1; currency = codes "USD" })) ∷ []),
    )
no_replay_example =
    no_replay env 6 7 8 9 proof proof none none start after made
      (opens 7 (codes "c") (Raw.price (record { amount = pos 1; currency = codes "USD" })) ∷ [])
      charge_runs refl

abbrev calls : List Call
calls =
    opens 6 (codes "c") (Raw.price (record { amount = pos 1; currency = codes "USD" }))
    ∷ charges 7 7 proof none
    ∷ settles 8 (codes "a") (Raw.text (codes "$1"))
    ∷ []

-- The payee holds all that 28 digits can hold.
abbrev full_b : Account
full_b = record acc_b { balance = pos 9999999999999999999999999999 }

abbrev full : Ledger
full = record start { accounts = (codes "a", acc_a) ∷ (codes "b", full_b) ∷ [] }
