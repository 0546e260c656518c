-- ===== src/Payments/Ledger/Conservation.antt =====
-- What `charge` of sdk-python/intermesh/payments/ledger.py moves, and what it leaves alone.
use intermesh.Prelude.{ℕ, Text, ◌≡◌, ◌≢◌, Option, some, [], ◌∷◌, text_eq, sym, ◌∙◌}
use intermesh.Prelude.Int.{ℤ, pos, ◌+ℤ◌, ◌-ℤ◌, ◌≤ℤ◌, int_laws}
use intermesh.Prelude.Dict.{Dict, lookup, insert, lookup-insert_self, lookup-insert_ne}
use intermesh.Prelude.Exec.{ok}
use intermesh.Payments.Proof.{PaymentProof}
use intermesh.Payments.Ledger.{Account, Charge, Ledger, Env, charge}
use intermesh.Payments.Ledger.Outcome.{IsCharged, charge-IsCharged}

-- The sum of all balances.
abbrev pub total : Dict Text Account → ℤ
total [] = pos 0
total ((_, a) ∷ d) = a.balance +ℤ total d

-- Each account is filed under its own identifier.
pub record IsKeyed (s : Ledger) : Type 0 where
  pub at : (k : Text) (a : Account) → lookup k s.accounts ≡ some a → a.agent_id ≡ k

pub total-insert :
    (k : Text) (v old : Account) (d : Dict Text Account)
    → lookup k d ≡ some old
    → total (insert k v d) +ℤ old.balance ≡ total d +ℤ v.balance
unfolding lookup insert
total-insert k v old [] h = cc
total-insert k v old ((j, w) ∷ d) h = grind (int_laws, total-insert k v old d)

module _ (p : PaymentProof) (c : Charge) (s s' : Ledger) (k : IsKeyed s)
    (h : IsCharged p c s s') where
  abbrev debited : Account
  debited = record h.from { balance = h.from.balance -ℤ c.amount }

  abbrev credited : Account
  credited = record h.to { balance = h.to.balance +ℤ c.amount }

  accounts_after : s'.accounts ≡ insert p.pay_to credited (insert p.payer debited s.accounts)
  accounts_after =
      cc (h.accounts, k.at p.payer h.from h.payer_known, k.at p.pay_to h.to h.payee_known)

  lowered_sum : total (insert p.payer debited s.accounts) +ℤ c.amount ≡ total s.accounts
  lowered_sum = grind (int_laws, total-insert p.payer debited h.from s.accounts h.payer_known)

  total_kept : p.payer ≢ p.pay_to → total s'.accounts ≡ total s.accounts
  total_kept ne =
      let known : lookup p.pay_to (insert p.payer debited s.accounts) ≡ some h.to =
        lookup-insert_ne p.payer p.pay_to debited s.accounts ne ∙ h.payee_known in
      let t = total-insert p.pay_to credited h.to (insert p.payer debited s.accounts) known in
      rw accounts_after (grind (int_laws, lowered_sum, t))

  total_self : p.payer ≡ p.pay_to → total s'.accounts ≡ total s.accounts +ℤ c.amount
  total_self same =
      let known : lookup p.pay_to (insert p.payer debited s.accounts) ≡ some debited =
        rw (← same) (lookup-insert_self p.payer debited s.accounts) in
      let t = total-insert p.pay_to credited debited (insert p.payer debited s.accounts) known in
      let one : h.from.balance ≡ h.to.balance = cc (h.payer_known, h.payee_known, same) in
      rw accounts_after (grind (int_laws, lowered_sum, t, one))

  balances_moved :
      p.payer ≢ p.pay_to
      → (lookup p.payer s'.accounts ≡ some debited) × (lookup p.pay_to s'.accounts ≡ some credited)
  balances_moved ne = (
    rw accounts_after (
        lookup-insert_ne p.pay_to p.payer credited _ (λ e. ne (sym e))
        ∙ lookup-insert_self p.payer debited s.accounts),
    rw accounts_after (lookup-insert_self p.pay_to credited _),
  )

  others_kept : (j : Text) → p.payer ≢ j → p.pay_to ≢ j → lookup j s'.accounts ≡ lookup j s.accounts
  others_kept j n m =
      rw accounts_after
        (lookup-insert_ne p.pay_to j credited _ m ∙ lookup-insert_ne p.payer j debited s.accounts n)

-- A charge between two different agents that returns has moved its amount, more than 0 and within
-- the payer's credit, from the payer's balance to the payee's: no other account has changed, nor
-- has the sum of all balances. The accounts are filed under their own identifiers.
pub charge_moves :
    (env : Env) (time ms : ℕ) (p : PaymentProof) (now : Option ℕ) (s s' : Ledger) (c : Charge)
    → IsKeyed s
    → p.payer ≢ p.pay_to
    → charge env time ms p now s ≡ (ok c, s')
    → (from : Account) × (to : Account) × (lookup p.payer s.accounts ≡ some from)
      × (lookup p.pay_to s.accounts ≡ some to)
      × (pos 1 ≤ℤ c.amount)
      × (c.amount ≤ℤ from.balance +ℤ from.credit_limit)
      × (lookup p.payer s'.accounts ≡ some (record from { balance = from.balance -ℤ c.amount }))
      × (lookup p.pay_to s'.accounts ≡ some (record to { balance = to.balance +ℤ c.amount }))
      × ((j : Text) → p.payer ≢ j → p.pay_to ≢ j → lookup j s'.accounts ≡ lookup j s.accounts)
      × (total s'.accounts ≡ total s.accounts)
charge_moves env time ms p now s s' c k ne e =
    let h : IsCharged p c s s' = charge-IsCharged env time ms p now s s' c e in
    (
      h.from,
      h.to,
      h.payer_known,
      h.payee_known,
      h.positive,
      h.covered,
      (balances_moved p c s s' k h ne).0,
      (balances_moved p c s s' k h ne).1,
      others_kept p c s s' k h,
      total_kept p c s s' k h ne,
    )

-- A charge that an agent makes to itself, if it returns, adds its amount, which is more than 0, to
-- the sum of all balances: the debit is overwritten by the credit.
pub charge_self :
    (env : Env) (time ms : ℕ) (p : PaymentProof) (now : Option ℕ) (s s' : Ledger) (c : Charge)
    → IsKeyed s
    → p.payer ≡ p.pay_to
    → charge env time ms p now s ≡ (ok c, s')
    → (total s'.accounts ≡ total s.accounts +ℤ c.amount) × (pos 1 ≤ℤ c.amount)
charge_self env time ms p now s s' c k same e =
    let h : IsCharged p c s s' = charge-IsCharged env time ms p now s s' c e in
    (total_self p c s s' k h same, h.positive)
