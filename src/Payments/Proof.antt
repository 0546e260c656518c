-- ===== src/Payments/Proof.antt =====
-- sdk-python/intermesh/payments/proof.py: the signed acknowledgement of a debt. The codecs and the
-- signature scheme are parameters; a header is a text, and bytes are texts too.
pub mod Laws
use intermesh.Prelude.{
  ℕ, Text, codes, Bool, true, false, ◌||◌, not, Option, none, some, List, [], ◌∷◌, ◌++◌, nat_beq,
  ◌==◌, text_eq, if◌then◌else◌,
}
use intermesh.Prelude.Int.{ℤ, pos, ltb_ℤ}
use intermesh.Prelude.Json.{Json, Fields, str, int, obj, field, end}
use intermesh.Prelude.Exec.{Result, ok, err}
use intermesh.Prelude.Results.{◌>>=◌, ◌>>◌, require, refuse_if, get}
use intermesh.Payments.Challenge.{PaymentChallenge}

pub record PaymentProof : Type 0 where
  pub payer : Text
  pub amount : Text
  pub currency : Text
  pub pay_to : Text
  pub resource : Text
  pub nonce : Text
  pub issued_at : ℤ
  pub expires_at : ℤ

-- `ProofError` by its cause; the last is the AttributeError of a payload that is no object.
pub data ProofError : Type 0 where
  malformed unreadable unknown_version bad_signature incomplete stale other_challenge : ProofError
  not_an_object : ProofError

-- What the module takes from elsewhere: Ed25519, base64, `json`, and `str` and `int` of a JSON value
-- that is no string or no integer.
pub record Crypto (Key : Type 0) : Type 0 where
  pub load_public_pem : Text → Option Key
  pub verify : Key → Text → Text → Bool
  pub sign : Text → Text → Text
  pub fingerprint : Text → Text
  pub b64 : Text → Text
  pub unb64 : Text → Option Text
  pub read_json : Text → Option Json
  pub canonical : Json → Text
  pub str_json : Json → Text
  pub int_json : Json → Option ℤ

-- `is_expired`, at a given time in milliseconds
unfoldable pub is_expired : PaymentProof → ℕ → Bool
is_expired p now = ltb_ℤ p.expires_at (pos now)

-- `payload`
unfoldable pub payload : PaymentProof → Json
payload p = obj (
    field (codes "v") (str (codes "im1")) (
      field (codes "payer") (str p.payer) (
        field (codes "amount") (str p.amount) (
          field (codes "currency") (str p.currency) (
            field (codes "pay_to") (str p.pay_to) (
              field (codes "resource") (str p.resource) (
                field (codes "nonce") (str p.nonce) (
                  field (codes "issued_at") (int p.issued_at)
                    (field (codes "expires_at") (int p.expires_at) end)))))))))

-- `split(".", 1)`, where there is a dot.
unfoldable pub split_dot : Text → Option (Text × Text)
split_dot [] = none
split_dot (c ∷ s) = elim (nat_beq c 46) [
  | true ↦ some ([], s)
  | false ↦ elim (split_dot s) [ none ↦ none | some (l, r) ↦ some (c ∷ l, r) ]
]

-- `payload.get("v") != VERSION`
unfoldable pub is_version : Option Json → Bool
is_version (some (str v)) = v == codes "im1"
is_version _ = false

-- The comparison of the five fields with the challenge.
unfoldable pub answers : PaymentProof → PaymentChallenge → Bool
answers p c =
    if not (p.amount == c.amount)
    then false
    else if not (p.currency == c.currency)
    then false
    else if not (p.pay_to == c.pay_to)
    then false
    else if not (p.resource == c.resource)
    then false
    else p.nonce == c.nonce

unfoldable pub fits : PaymentProof → Option PaymentChallenge → Bool
unfolding answers
fits p none = true
fits p (some c) = answers p c

module _ {Key : Type 0} (lib : Crypto Key) where
  -- `str(...)`
  unfoldable pub to_text : Json → Text
  to_text (str t) = t
  to_text j = lib.str_json j

  -- `int(...)`
  unfoldable pub to_int : Json → Option ℤ
  to_int (int z) = some z
  to_int j = lib.int_json j

  text_at : Text → Fields → Result ProofError Text
  unfolding to_text
  text_at k d = do j ← require incomplete (get k d); ok (to_text j)

  int_at : Text → Fields → Result ProofError ℤ
  unfolding to_int
  int_at k d = do j ← require incomplete (get k d); require incomplete (to_int j)

  -- The proof that the members of the payload make.
  unfoldable pub read_proof : Fields → Result ProofError PaymentProof
  unfolding text_at int_at
  read_proof d = do
    payer ← text_at (codes "payer") d
    amount ← text_at (codes "amount") d
    currency ← text_at (codes "currency") d
    pay_to ← text_at (codes "pay_to") d
    resource ← text_at (codes "resource") d
    nonce ← text_at (codes "nonce") d
    issued_at ← int_at (codes "issued_at") d
    expires_at ← int_at (codes "expires_at") d
    ok (record {
      payer = payer;
      amount = amount;
      currency = currency;
      pay_to = pay_to;
      resource = resource;
      nonce = nonce;
      issued_at = issued_at;
      expires_at = expires_at;
    })

  unfoldable pub members : Json → Result ProofError Fields
  members (obj d) = ok d
  members _ = err not_an_object

  -- The header's body, its signature and the object that the body holds.
  unfoldable pub open_header : Text → Result ProofError (Text × Text × Json)
  unfolding split_dot
  open_header header = do
    (encoded_body, encoded_sig) ← require malformed (split_dot header)
    body ← require unreadable (lib.unb64 encoded_body)
    signature ← require unreadable (lib.unb64 encoded_sig)
    j ← require unreadable (lib.read_json body)
    ok (body, signature, j)

  -- `verify_proof`; `now` is the time given or that of the clock.
  unfoldable pub verify_proof :
      Text → Key → Option PaymentChallenge → ℕ → Result ProofError PaymentProof
  unfolding open_header members is_version read_proof is_expired fits
  verify_proof header key challenge now = do
    (body, signature, j) ← open_header header
    d ← members j
    refuse_if (not (is_version (get (codes "v") d))) unknown_version
    refuse_if (not (lib.verify key signature body)) bad_signature
    p ← read_proof d
    refuse_if (is_expired p now) stale
    refuse_if (not (fits p challenge)) other_challenge
    ok p

  -- `sign_proof` with the private key of a secret.
  unfoldable pub sign_proof : ℕ → PaymentChallenge → Text → Text → Text
  unfolding payload
  sign_proof ms challenge payer private_key =
      let p : PaymentProof = record {
        payer = payer;
        amount = challenge.amount;
        currency = challenge.currency;
        pay_to = challenge.pay_to;
        resource = challenge.resource;
        nonce = challenge.nonce;
        issued_at = pos ms;
        expires_at = challenge.expires_at;
      } in
      let body = lib.canonical (payload p) in
      lib.b64 body ++ 46 ∷ lib.b64 (lib.sign private_key body)
