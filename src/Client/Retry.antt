-- ===== src/Client/Retry.antt =====
-- How often `pay_and_retry` of sdk-python/intermesh/client/http.py sends, and what it pays.
use intermesh.Prelude.{
  arith, ap, ℕ, Text, ◌≡◌, ◌≢◌, refl, ◌⊎◌, inl, inr, Option, none, some, List, [], ◌∷◌, nat_beq,
  Bool-cases,
}
use intermesh.Prelude.Int.{◌+ℤ◌}
use intermesh.Prelude.Exec.{Result, ok, err, Result-cases}
use intermesh.Payments.Price.{Price}
use intermesh.Payments.Challenge.{PaymentChallenge}
use intermesh.Payments.Proof.{Crypto, sign_proof}
use intermesh.Client.{
  Wallet, ClientError, not_served, Transport, challenge_from_response, resend, pay, pay_and_retry,
}
use intermesh.Client.Budget.{IsPayable, authorize_lem}

module _ {Key R : Type 0} (lib : Crypto Key) (net : Transport R) where
  -- Nothing is signed and the request was sent once, without a payment.
  abbrev pub IsUnpaid : Wallet → Result ClientError R × Wallet × List (Option Text) → Type 0
  IsUnpaid w r = (r.1 ≡ w) × (r.2 ≡ none ∷ [])

  -- What the second answer comes to: itself, unless it asks for a payment again.
  abbrev pub IsAnswered : R → Result ClientError R → Type 0
  IsAnswered retried r =
      ((net.status_of retried ≡ 402) × (r ≡ err (not_served (net.reason_of (net.body_of retried)))))
      ⊎ ((net.status_of retried ≢ 402) × (r ≡ ok retried))

  -- The challenge of the first answer is signed once, within the limits, and the request was sent a
  -- second time with that signature; its answer is returned unless it asks for a payment again.
  abbrev pub IsPaid : ℕ → Wallet → Result ClientError R × Wallet × List (Option Text) → Type 0
  IsPaid ms w r =
      (c : PaymentChallenge) × (p : Price) × (challenge_from_response lib net ms
          (net.body_of (net.send 0 none))
        ≡ ok c)
      × IsPayable ms c w p
      × (r.1 ≡ record w { spent = w.spent +ℤ p.amount })
      × (let header = sign_proof lib ms c w.agent_id w.key in
          (r.2 ≡ none ∷ some header ∷ []) × IsAnswered (net.send 1 (some header)) r.0)

  resend_lem :
      (header : Text)
      → let r = resend lib net header (none ∷ []) in
        (r.1 ≡ none ∷ some header ∷ []) × IsAnswered (net.send 1 (some header)) r.0
  unfolding resend
  resend_lem header = elim (Bool-cases (nat_beq (net.status_of (net.send 1 (some header))) 402)) [
    | inl again ↦ rw (resend, again) (refl, inl (ground arith, refl))
    | inr served ↦ rw (resend, served) (refl, inr (ground arith, refl))
  ]

  -- The calls of `send` are at most two, and at most one of them pays: either nothing is signed,
  -- the wallet is left alone and there was one call; or the challenge received is within the wallet's
  -- limits, counted once, and answered by one signature in a second and last call.
  pub pay_and_retry_lem :
      (ms : ℕ) (w : Wallet) → let r = pay_and_retry lib net ms w in IsUnpaid w r ⊎ IsPaid ms w r
  unfolding pay_and_retry pay
  pay_and_retry_lem ms w = elim (Bool-cases (nat_beq (net.status_of (net.send 0 none)) 402)) [
    | inr served ↦ rw (pay_and_retry, served) (inl (refl, refl))
    | inl asked ↦
        elim (Result-cases (challenge_from_response lib net ms (net.body_of (net.send 0 none)))) [
          | inr (e, bad) ↦ rw (pay_and_retry, asked, bad) (inl (refl, refl))
          | inl (c, read) ↦ elim (authorize_lem lib ms c w) [
            | inl (e, unsigned) ↦
                rw (pay_and_retry, asked, read, pay, unsigned) (inl (ap (λ x. x.1) unsigned, refl))
            | inr (p, payable, signed) ↦
                rw (pay_and_retry, asked, read, pay, signed)
                  (inr (
                    c,
                    p,
                    refl,
                    payable,
                    ap (λ x. x.1) signed,
                    resend_lem (sign_proof lib ms c w.agent_id w.key),
                  ))
          ]
        ]
  ]
