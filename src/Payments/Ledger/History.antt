-- ===== src/Payments/Ledger/History.antt =====
-- Sequences of calls on the ledger of sdk-python/intermesh/payments/ledger.py, failed ones included.
use intermesh.Prelude.{
  ℕ, Text, ◌≡◌, refl, ◌⊎◌, inl, inr, true, Option, none, some, List, [], ◌∷◌, arith, contains,
  contains-append, text_eq, text_beq_iff, All, ◌==◌, Bool-cases, Option-cases,
}
use intermesh.Prelude.Int.{pos, ◌+ℤ◌, ◌≤ℤ◌, int_laws}
use intermesh.Prelude.Dict.{lookup, insert}
use intermesh.Prelude.Exec.{Result, ok, err, Result-cases}
use intermesh.Payments.Errors.{Error, duplicate_nonce}
use intermesh.Payments.Price.{Price, Raw, parse_price}
use intermesh.Payments.Price.Laws.{quantize-cases, parse_text_bounds}
use intermesh.Payments.Proof.{PaymentProof}
use intermesh.Payments.Ledger.{
  Account, Charge, Ledger, Env, write_charge, charge, settle, open_account, audit_log,
}
use intermesh.Payments.Ledger.Outcome.{IsCharged, charge-IsCharged}
use intermesh.Payments.Ledger.Limits.{IsWithin, charge-IsWithin, insert-IsWithin}

-- One call of a method that writes, with the times that it reads.
pub data Call : Type 0 where
  opens : ℕ → Text → Raw → Call
  charges : ℕ → ℕ → PaymentProof → Option ℕ → Call
  settles : ℕ → Text → Raw → Call

-- A credit limit handed over as a `Price` is not negative. (A text never reads as one.)
abbrev pub IsFair : Raw → Type 0
IsFair (Raw.price p) = pos 0 ≤ℤ p.amount
IsFair _ = Unit

abbrev pub Fair : Call → Type 0
Fair (opens time agent limit) = IsFair limit
Fair _ = Unit

module _ (env : Env) where
  pub step : Ledger → Call → Ledger
  step s (opens time agent limit) = (open_account env time agent limit s).1
  step s (charges time ms p now) = (charge env time ms p now s).1
  step s (settles time agent amount) = (settle env time agent amount s).1

  pub run : Ledger → List Call → Ledger
  run s [] = s
  run s (c ∷ cs) = run (step s c) cs

  -- A nonce that has been seen stays seen, whatever the call and however it ends.
  open_account-nonces :
      (time : ℕ) (agent : Text) (limit : Raw) (s : Ledger)
      → (open_account env time agent limit s).1.seen_nonces ≡ s.seen_nonces
  unfolding open_account audit_log
  open_account-nonces time agent limit s = ground arith

  settle-nonces :
      (time : ℕ) (agent : Text) (amount : Raw) (s : Ledger)
      → (settle env time agent amount s).1.seen_nonces ≡ s.seen_nonces
  unfolding settle audit_log
  settle-nonces time agent amount s = ground arith

  pub charge-nonces :
      (time ms : ℕ) (p : PaymentProof) (now : Option ℕ) (s : Ledger) (n : Text)
      → contains n s.seen_nonces ≡ true
      → contains n (charge env time ms p now s).1.seen_nonces ≡ true
  unfolding charge write_charge audit_log
  charge-nonces time ms p now s n h = ground (arith, contains-append n s.seen_nonces (p.nonce ∷ []))

  run-nonces :
      (calls : List Call) (s : Ledger) (n : Text)
      → contains n s.seen_nonces ≡ true
      → contains n (run s calls).seen_nonces ≡ true
  unfolding run step
  run-nonces [] s n h = h
  run-nonces (opens time agent limit ∷ cs) s n h =
      run-nonces cs _ n (rw (open_account-nonces time agent limit s) h)
  run-nonces (charges time ms p now ∷ cs) s n h =
      run-nonces cs _ n (charge-nonces time ms p now s n h)
  run-nonces (settles time agent amount ∷ cs) s n h =
      run-nonces cs _ n (rw (settle-nonces time agent amount s) h)

  pub charge_seen :
      (time ms : ℕ) (p : PaymentProof) (now : Option ℕ) (s : Ledger)
      → contains p.nonce s.seen_nonces ≡ true
      → charge env time ms p now s ≡ (err duplicate_nonce, s)
  unfolding charge
  charge_seen time ms p now s h = ground arith

  -- Once a charge has been accepted, no proof with the same nonce is ever accepted again: after any
  -- calls, at any time, such a charge is refused as a duplicate and changes nothing.
  pub no_replay :
      (time ms time' ms' : ℕ) (p q : PaymentProof) (now now' : Option ℕ) (s s' : Ledger)
      (c : Charge) (calls : List Call)
      → charge env time ms p now s ≡ (ok c, s')
      → q.nonce ≡ p.nonce
      → charge env time' ms' q now' (run s' calls) ≡ (err duplicate_nonce, run s' calls)
  no_replay time ms time' ms' p q now now' s s' c calls e same =
      let h : IsCharged p c s s' = charge-IsCharged env time ms p now s s' c e in
      let kept : contains p.nonce s'.seen_nonces ≡ true = rw (h.nonces) (
        ground (
          arith,
          contains-append p.nonce s.seen_nonces (p.nonce ∷ []),
          text_beq_iff p.nonce p.nonce,
        )) in
      charge_seen time' ms' q now' (run s' calls) (rw same (run-nonces calls s' p.nonce kept))

  settle_accounts :
      (time : ℕ) (agent : Text) (amount : Raw) (s : Ledger) (a : Account) (x : Price)
      → lookup agent s.accounts ≡ some a
      → parse_price amount s.currency ≡ ok x
      → let d = (settle env time agent amount s).1.accounts in
        (d ≡ s.accounts)
        ⊎ ((pos 1 ≤ℤ x.amount)
            × (d ≡ insert agent (record a { balance = a.balance +ℤ x.amount }) s.accounts))
  unfolding settle audit_log
  settle_accounts time agent amount s a x known read =
      ground (arith, quantize-cases (a.balance +ℤ x.amount))

  settle-IsWithin :
      (time : ℕ) (agent : Text) (amount : Raw) (s : Ledger)
      → IsWithin s.accounts
      → IsWithin (settle env time agent amount s).1.accounts
  unfolding settle
  settle-IsWithin time agent amount s w = elim (Result-cases (parse_price amount s.currency)) [
    | inr (e, bad) ↦ rw (unread e bad) w
    | inl (x, read) ↦ elim (Option-cases (lookup agent s.accounts)) [
      | inl missing ↦ rw (unknown missing) w
      | inr (a, known) ↦ elim (settle_accounts time agent amount s a x known read) [
        | inl e ↦ rw e w
        | inr (positive, e) ↦ rw e (
            insert-IsWithin s.accounts agent (record a { balance = a.balance +ℤ x.amount }) w
              (w.keyed agent a known) (omega (int_laws, w.limited agent a known)))
      ]
    ]
  ]
    where
      unread :
          (e : Error)
          → parse_price amount s.currency ≡ err e
          → (settle env time agent amount s).1.accounts ≡ s.accounts
      unread e bad = ground arith

      unknown :
          lookup agent s.accounts ≡ none → (settle env time agent amount s).1.accounts ≡ s.accounts
      unknown missing = ground arith

  open_account_accounts :
      (time : ℕ) (agent : Text) (limit : Raw) (s : Ledger)
      → (r : Result Error Price) → parse_price limit s.currency ≡ r
      → let d = (open_account env time agent limit s).1.accounts in
        (d ≡ s.accounts)
        ⊎ ((x : Price) × (r ≡ ok x)
            × (d
                ≡ insert agent
                    (record {
                      agent_id = agent;
                      currency = s.currency;
                      credit_limit = x.amount;
                      balance = pos 0;
                    })
                    s.accounts))
  unfolding open_account audit_log
  open_account_accounts time agent limit s (err e) read = inl (ground arith)
  open_account_accounts time agent limit s (ok x) read =
      elim (Bool-cases (x.currency == s.currency)) [
        | inl same ↦ elim (Option-cases (lookup agent s.accounts)) [
          | inl new ↦ inr (x, refl, ground arith)
          | inr (a, old) ↦ inl (ground arith)
        ]
        | inr differ ↦ inl (ground arith)
      ]

  parse_price_fair :
      (limit : Raw) (cur : Text) (x : Price)
      → IsFair limit
      → parse_price limit cur ≡ ok x
      → pos 0 ≤ℤ x.amount
  unfolding parse_price
  parse_price_fair (Raw.text t) cur x f e = (parse_text_bounds t cur x e).0
  parse_price_fair (Raw.price p) cur x f e = ground arith
  parse_price_fair Raw.other cur x f e = cc

  open_account-IsWithin :
      (time : ℕ) (agent : Text) (limit : Raw) (s : Ledger)
      → IsFair limit
      → IsWithin s.accounts
      → IsWithin (open_account env time agent limit s).1.accounts
  open_account-IsWithin time agent limit s f w =
      elim (open_account_accounts time agent limit s _ refl) [
        | inl e ↦ rw e w
        | inr (x, read, e) ↦ rw e (
            insert-IsWithin s.accounts agent _ w refl
              (omega (int_laws, parse_price_fair limit s.currency x f read)))
      ]

  -- If no credit limit is given as a negative `Price`, then after any calls, failed ones included,
  -- every account is filed under its own identifier and owes no more than its limit.
  pub run-IsWithin :
      (calls : List Call) (s : Ledger)
      → All Fair calls
      → IsWithin s.accounts
      → IsWithin (run s calls).accounts
  unfolding run step
  run-IsWithin [] s f w = w
  run-IsWithin (opens time agent limit ∷ cs) s f w =
      run-IsWithin cs _ f.1 (open_account-IsWithin time agent limit s f.0 w)
  run-IsWithin (charges time ms p now ∷ cs) s f w =
      run-IsWithin cs _ f.1 (charge-IsWithin env time ms p now s w)
  run-IsWithin (settles time agent amount ∷ cs) s f w =
      run-IsWithin cs _ f.1 (settle-IsWithin time agent amount s w)
