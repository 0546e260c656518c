-- ===== src/Payments/Gate/Admission.antt =====
-- What a request that sdk-python/intermesh/server/gate.py lets pass has shown.
use intermesh.Prelude.{
  ℕ, Text, codes, ◌≡◌, refl, sym, ap, ◌∙◌, ◌⊎◌, inl, inr, Bool, true, false, Option, none, some, [],
  ◌∷◌, arith, text_eq, text_beq_iff, Bool-cases, Option-cases,
}
use mathlib.Core.Path.{subst}
use intermesh.Prelude.Dict.{lookup, erase}
use intermesh.Prelude.Exec.{Result, ok, err, Result-cases}
use intermesh.Payments.Errors.{Error, is_ledger_error}
use intermesh.Payments.Price.{Raw}
use intermesh.Payments.Challenge.{PaymentChallenge}
use intermesh.Payments.Proof.{PaymentProof, Crypto, fits, verify_proof}
use intermesh.Payments.Proof.Laws.{Answers, answers-Answers, IsVerified, verify_proof-IsVerified}
use intermesh.Payments.Keyring.{public_key}
use intermesh.Payments.Ledger.Limits.{charge_refused}
use intermesh.Payments.Ledger.Outcome.{IsCharged, charge-IsCharged}
use intermesh.Payments.Ledger.{Ledger, Charge, charge, moment}
use intermesh.Payments.Gate.{
  PaymentGate, Settled, GateError, payment_required, payment_rejected, Source, challenge_for,
  check_header, peek, key_of, admit, admit_header,
}

module _ {Key : Type 0} (lib : Crypto Key) where
  -- The payer that the header names has a key, a challenge is pending under the nonce that it names,
  -- and the proof is verified against both and pays this server. So far only the keyring's cache
  -- may have changed.
  pub record IsChecked (src : Source) (header : Text) (now : Option ℕ) (g g₁ : PaymentGate Key)
      (challenge : PaymentChallenge) (p : PaymentProof) : Type 0 where
    pub payer : Text
    pub nonce : Text
    pub key : Key
    pub payer_read : peek lib header (codes "payer") ≡ ok payer
    pub key_found : (public_key lib payer g.keyring).0 ≡ ok key
    pub nonce_read : peek lib header (codes "nonce") ≡ ok nonce
    pub pending : lookup nonce g.pending ≡ some challenge
    pub verified : IsVerified lib header key (some challenge) (moment src.ms now) p
    pub agrees : Answers p challenge
    pub payee : p.pay_to ≡ g.payee
    pub same_ledger : g₁.ledger ≡ g.ledger
    pub same_pending : g₁.pending ≡ g.pending

  module _ (src : Source) (header : Text) (now : Option ℕ) (g : PaymentGate Key) where
    checked_header :
        (ch : PaymentChallenge) (p : PaymentProof) (g₁ : PaymentGate Key)
        → check_header lib src header now g ≡ (ok (ch, p), g₁)
        → IsChecked src header now g g₁ ch p
    unfolding check_header key_of fits
    checked_header ch p g₁ h = elim (Result-cases (peek lib header (codes "payer"))) [
      | inr (e, a) ↦ absurd (ground arith)
      | inl (payer, a) ↦ elim (Result-cases (public_key lib payer g.keyring).0) [
        | inr (e, b) ↦ absurd (ground arith)
        | inl (key, b) ↦ elim (Result-cases (peek lib header (codes "nonce"))) [
          | inr (e, c) ↦ absurd (ground arith)
          | inl (nonce, c) ↦ elim (Option-cases (lookup nonce g.pending)) [
            | inl d ↦ absurd (ground arith)
            | inr (ch', d) ↦
                elim (Result-cases (verify_proof lib header key (some ch') (moment src.ms now))) [
                  | inr (e, v) ↦ absurd (ground arith)
                  | inl (p', v) ↦
                      let accepted : verify_proof lib header key (some ch) (moment src.ms now)
                          ≡ ok p =
                        ground arith in
                      let sound =
                        verify_proof-IsVerified lib header key (some ch) (moment src.ms now) p
                          accepted in
                      record {
                        payer = payer;
                        nonce = nonce;
                        key = key;
                        payer_read = a;
                        key_found = b;
                        nonce_read = c;
                        pending = ground arith;
                        verified = sound;
                        agrees = answers-Answers p ch sound.fit;
                        payee = ground (arith, text_beq_iff p'.pay_to g.payee);
                        same_ledger = ground arith;
                        same_pending = ground arith;
                      }
                ]
          ]
        ]
      ]
    ]

    check_header-ledger : (check_header lib src header now g).1.ledger ≡ g.ledger
    unfolding check_header key_of
    check_header-ledger = ground arith

  -- The proof was checked, the ledger has entered it, and the challenge is gone.
  pub record IsAdmitted (src : Source) (header : Text) (now : Option ℕ) (g g' : PaymentGate Key)
      (s : Settled) : Type 0 where
    pub between : PaymentGate Key
    pub challenge : PaymentChallenge
    pub entry : Charge
    pub checked : IsChecked src header now g between challenge s.proof
    pub entered : charge src.env src.time src.ms s.proof now g.ledger ≡ (ok entry, g'.ledger)
    pub charged : IsCharged s.proof entry g.ledger g'.ledger
    pub amount : s.amount ≡ record { amount = entry.amount; currency = entry.currency }
    pub after : g'.pending ≡ erase challenge.nonce g.pending

  admit_header-IsAdmitted :
      (src : Source) (header : Text) (now : Option ℕ) (g g' : PaymentGate Key) (s : Settled)
      → admit_header lib src header now g ≡ (ok s, g')
      → IsAdmitted src header now g g' s
  unfolding admit_header
  admit_header-IsAdmitted src header now g g' s h =
      let g₁ = (check_header lib src header now g).1 in
      elim (Result-cases (check_header lib src header now g).0) [
        | inr (e, a) ↦ absurd (ground arith)
        | inl ((c, p), a) ↦
            let found : IsChecked src header now g g₁ c p =
              checked_header src header now g c p g₁ (ground arith) in
            elim (Result-cases (charge src.env src.time src.ms p now g₁.ledger).0) [
              | inr (e, f) ↦ absurd (elim (Bool-cases (is_ledger_error e)) [
                | inl _ ↦ ground arith
                | inr _ ↦ ground arith
              ])
              | inl (entry, f) ↦
                  let proved : s.proof ≡ p = ground arith in
                  let ledger = found.same_ledger in
                  let pending = found.same_pending in
                  let written : (charge src.env src.time src.ms p now g₁.ledger).1 ≡ g'.ledger =
                    ground arith in
                  let erased : g'.pending ≡ erase c.nonce g₁.pending = ground arith in
                  let charged : charge src.env src.time src.ms s.proof now g.ledger
                      ≡ (ok entry, g'.ledger) =
                    rw proved (rw (sym ledger) (λ i. (f i, written i))) in
                  record {
                    between = g₁;
                    challenge = c;
                    entry = entry;
                    checked = rw proved found;
                    entered = charged;
                    charged =
                        charge-IsCharged src.env src.time src.ms s.proof now g.ledger g'.ledger
                          entry charged;
                    amount = ground arith;
                    after = erased ∙ ap (λ d. erase c.nonce d) pending;
                  }
            ]
      ]

  -- Whether `admit` raised one of its two exceptions.
  abbrev pub is_refusal : Result GateError Settled → Bool
  is_refusal (err (payment_required c)) = true
  is_refusal (err (payment_rejected r)) = true
  is_refusal _ = false

  -- What `admit` does to a ledger: nothing, or a charge; if the charge was refused and the caller
  -- is told so, the ledger raised a LedgerError.
  abbrev pub IsLedgerStep :
      Source → Option ℕ → Ledger → Result GateError Settled × PaymentGate Key → Type 0
  IsLedgerStep src now l r =
      (r.1.ledger ≡ l)
      ⊎ ((p : PaymentProof) × (r.1.ledger ≡ (charge src.env src.time src.ms p now l).1)
          × (is_refusal r.0 ≡ true
              → (e : Error) × ((charge src.env src.time src.ms p now l).0 ≡ err e)
                × (is_ledger_error e ≡ true)))

  module _ (src : Source) (now : Option ℕ) where
    admit_header-IsLedgerStep :
        (header : Text) (g : PaymentGate Key)
        → IsLedgerStep src now
            (check_header lib src header now g).1.ledger
            (admit_header lib src header now g)
    unfolding admit_header
    admit_header-IsLedgerStep header g =
        let l = (check_header lib src header now g).1.ledger in
        elim (Result-cases (check_header lib src header now g).0) [
          | inr (e, a) ↦ inl (ground arith)
          | inl ((c, p), a) ↦ elim (Result-cases (charge src.env src.time src.ms p now l).0) [
            | inl (entry, f) ↦ inr (p, ground arith, λ told. absurd (ground arith))
            | inr (e, f) ↦ elim (Bool-cases (is_ledger_error e)) [
              | inl k ↦ inr (p, ground arith, λ told. (e, f, k))
              | inr k ↦ inr (p, ground arith, λ told. absurd (ground arith))
            ]
          ]
        ]

    challenge_for-ledger :
        (resource : Text) (asked : Raw) (g : PaymentGate Key)
        → (challenge_for lib src resource asked g).1.ledger ≡ g.ledger
    unfolding challenge_for
    challenge_for-ledger resource asked g = ground arith

    pub admit-IsLedgerStep :
        (resource : Text) (asked : Raw) (header : Option Text) (g : PaymentGate Key)
        → IsLedgerStep src now g.ledger (admit lib src resource asked header now g)
    unfolding admit
    admit-IsLedgerStep resource asked none g =
        inl (ground (arith, challenge_for-ledger resource asked g))
    admit-IsLedgerStep resource asked (some []) g =
        inl (ground (arith, challenge_for-ledger resource asked g))
    admit-IsLedgerStep resource asked (some (x ∷ header)) g =
        subst (λ l. IsLedgerStep src now l (admit_header lib src (x ∷ header) now g))
          (check_header-ledger src (x ∷ header) now g) (admit_header-IsLedgerStep (x ∷ header) g)

    -- Where `admit` answers that the request must be paid or that the proof is rejected, the ledger
    -- is the one it was: no account, no entry, no nonce.
    pub refused_unchanged :
        (resource : Text) (asked : Raw) (header : Option Text) (g : PaymentGate Key)
        → let r = admit lib src resource asked header now g in
          is_refusal r.0 ≡ true → r.1.ledger ≡ g.ledger
    refused_unchanged resource asked header g told =
        elim (admit-IsLedgerStep resource asked header g) [
          | inl e ↦ e
          | inr (p, e, why) ↦
              let (x, raised, l) = why told in
              e ∙ charge_refused src.env src.time src.ms p now g.ledger x raised l
        ]

  -- A request that is let through carries a proof that the key of its payer has signed, that has not
  -- expired, that pays this server, and that agrees in amount, currency, payee, resource and nonce with
  -- a pending challenge, be it one for another resource than this request's. The ledger has charged
  -- the payer, whom balance and credit cover, under a nonce that was fresh, and the challenge is no
  -- longer pending.
  pub admit-IsAdmitted :
      (src : Source) (resource : Text) (asked : Raw) (header : Option Text) (now : Option ℕ)
      (g g' : PaymentGate Key) (s : Settled)
      → admit lib src resource asked header now g ≡ (ok s, g')
      → (h : Text) × (header ≡ some h) × IsAdmitted src h now g g' s
  unfolding admit
  admit-IsAdmitted src resource asked none now g g' s h = absurd (ground arith)
  admit-IsAdmitted src resource asked (some []) now g g' s h = absurd (ground arith)
  admit-IsAdmitted src resource asked (some (x ∷ header)) now g g' s h =
      (x ∷ header, refl, admit_header-IsAdmitted src (x ∷ header) now g g' s h)

  -- Once a proof is presented, neither the resource that is asked for nor its price matters.
  pub admit_any_resource :
      (src : Source) (resource other : Text) (asked asked' : Raw) (x : ℕ) (header : Text)
      (now : Option ℕ) (g : PaymentGate Key)
      → admit lib src resource asked (some (x ∷ header)) now g
        ≡ admit lib src other asked' (some (x ∷ header)) now g
  unfolding admit
  admit_any_resource src resource other asked asked' x header now g = refl
