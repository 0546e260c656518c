-- ===== src/Payments/Proof/Laws.antt =====
-- What a proof that sdk-python/intermesh/payments/proof.py accepts has passed.
use intermesh.Prelude.{
  ℕ, Text, codes, ◌≡◌, inl, inr, true, false, Option, arith, text_eq, text_beq_iff,
}
use intermesh.Prelude.Json.{Fields, obj}
use intermesh.Prelude.Exec.{ok, Result-cases}
use intermesh.Prelude.Results.{get}
use intermesh.Payments.Challenge.{PaymentChallenge}
use intermesh.Payments.Proof.{
  PaymentProof, Crypto, is_expired, answers, fits, read_proof, members, open_header, verify_proof,
  is_version,
}

-- The five fields in which a proof must agree with the challenge.
pub record Answers (p : PaymentProof) (c : PaymentChallenge) : Type 0 where
  pub amount : p.amount ≡ c.amount
  pub currency : p.currency ≡ c.currency
  pub pay_to : p.pay_to ≡ c.pay_to
  pub resource : p.resource ≡ c.resource
  pub nonce : p.nonce ≡ c.nonce

pub answers-Answers : (p : PaymentProof) (c : PaymentChallenge) → answers p c ≡ true → Answers p c
unfolding answers
answers-Answers p c h = record {
  amount = ground (arith, text_beq_iff p.amount c.amount);
  currency = ground (arith, text_beq_iff p.currency c.currency);
  pay_to = ground (arith, text_beq_iff p.pay_to c.pay_to);
  resource = ground (arith, text_beq_iff p.resource c.resource);
  nonce = ground (arith, text_beq_iff p.nonce c.nonce);
}

module _ {Key : Type 0} (lib : Crypto Key) where
  -- The header carries an object of this version whose body the key has signed, and the proof is
  -- what the object says; it has not expired, and it fits the challenge.
  pub record IsVerified (header : Text) (key : Key) (challenge : Option PaymentChallenge) (now : ℕ)
      (p : PaymentProof) : Type 0 where
    pub body : Text
    pub signature : Text
    pub fields : Fields
    pub opened : open_header lib header ≡ ok (body, signature, obj fields)
    pub version : is_version (get (codes "v") fields) ≡ true
    pub signed : lib.verify key signature body ≡ true
    pub says : read_proof lib fields ≡ ok p
    pub alive : is_expired p now ≡ false
    pub fit : fits p challenge ≡ true

  verify_proof_stages :
      (header : Text) (key : Key) (challenge : Option PaymentChallenge) (now : ℕ) (p : PaymentProof)
      (body signature : Text) (d : Fields)
      → open_header lib header ≡ ok (body, signature, obj d)
      → verify_proof lib header key challenge now ≡ ok p
      → (is_version (get (codes "v") d) ≡ true)
        × (lib.verify key signature body ≡ true)
        × (read_proof lib d ≡ ok p)
        × (is_expired p now ≡ false)
        × (fits p challenge ≡ true)
  unfolding verify_proof members
  verify_proof_stages header key challenge now p body signature d e h =
      elim (Result-cases (read_proof lib d)) [
        | inl (q, f) ↦ ground arith
        | inr (x, f) ↦ absurd (ground arith)
      ]

  pub verify_proof-IsVerified :
      (header : Text) (key : Key) (challenge : Option PaymentChallenge) (now : ℕ) (p : PaymentProof)
      → verify_proof lib header key challenge now ≡ ok p
      → IsVerified header key challenge now p
  unfolding verify_proof members
  verify_proof-IsVerified header key challenge now p h =
      elim (Result-cases (open_header lib header)) [
        | inr (x, e) ↦ absurd (ground arith)
        | inl ((body, signature, obj d), e) ↦
            let (version, signed, says, alive, fit) =
              verify_proof_stages header key challenge now p body signature d e h in
            record {
              body = body;
              signature = signature;
              fields = d;
              opened = e;
              version = version;
              signed = signed;
              says = says;
              alive = alive;
              fit = fit;
            }
        | inl ((body, signature, j), e) ↦ absurd (ground arith)
      ]
