-- ===== src/Payments/Challenge.antt =====
-- sdk-python/intermesh/payments/challenge.py: what a server asks to be paid. Times are integer
-- milliseconds; a lifetime is given in milliseconds. `ledger` is a
-- text or nothing.
pub mod RoundTrip
use intermesh.Prelude.{
  ℕ, ◌+◌, Text, codes, ◌≡◌, refl, Bool, true, false, Option, none, some, List, [], ◌∷◌, ◌++◌,
  text_eq, ◌==◌, if◌then◌else◌, Option-cases,
}
use intermesh.Prelude.Int.{ℤ, pos, ltb_ℤ}
use intermesh.Prelude.Json.{Json, Fields, str, int, obj, field, end}
use intermesh.Prelude.Exec.{Result, ok, err}
use intermesh.Prelude.Results.{◌>>=◌, ◌>>◌, require, get}
use intermesh.Payments.Errors.{Error}
use intermesh.Payments.Price.{Price, Raw, parse_price}

pub record PaymentChallenge : Type 0 where
  pub amount : Text
  pub currency : Text
  pub pay_to : Text
  pub resource : Text
  pub nonce : Text
  pub expires_at : ℤ
  pub ledger : Option Text

-- `create`, at the time `ms` with a fresh nonce.
unfoldable pub create :
    (ℤ → Text) → ℕ → Text → Raw → Text → Text → Option Text → ℕ → Result Error PaymentChallenge
create str_decimal ms fresh asked pay_to resource ledger ttl_ms = do
  parsed ← parse_price asked (codes "USD")
  ok (record {
    amount = str_decimal parsed.amount;
    currency = parsed.currency;
    pay_to = pay_to;
    resource = resource;
    nonce = fresh;
    expires_at = pos (ms + ttl_ms);
    ledger = ledger;
  })

-- The property `price`
unfoldable pub challenge_price : PaymentChallenge → Result Error Price
challenge_price c = parse_price (Raw.text (c.amount ++ 32 ∷ c.currency)) (codes "USD")

-- `is_expired`, at a given time
unfoldable pub has_lapsed : PaymentChallenge → ℕ → Bool
has_lapsed c now = ltb_ℤ c.expires_at (pos now)

ledger_member : Option Text → Fields
ledger_member none = end
ledger_member (some []) = end
ledger_member (some (c ∷ s)) = field (codes "ledger") (str (c ∷ s)) end

unfoldable pub to_dict : PaymentChallenge → Fields
unfolding ledger_member
to_dict c = field (codes "amount") (str c.amount) (
    field (codes "currency") (str c.currency) (
      field (codes "pay_to") (str c.pay_to) (
        field (codes "resource") (str c.resource) (
          field (codes "nonce") (str c.nonce)
            (field (codes "expires_at") (int c.expires_at) (ledger_member c.ledger))))))

-- Why `from_dict` raises.
pub data ChallengeError : Type 0 where
  missing_field bad_expiry : ChallengeError

module _ (str_json : Json → Text) (int_json : Json → Option ℤ) where
  as_text : Json → Text
  as_text (str t) = t
  as_text j = str_json j

  as_int : Json → Option ℤ
  as_int (int z) = some z
  as_int j = int_json j

  -- `expires_at` where it is missing
  expiry : ℕ → Option Json → Result ChallengeError ℤ
  unfolding as_int
  expiry ms none = ok (pos (ms + 120000))
  expiry ms (some j) = require bad_expiry (as_int j)

  -- `data.get("ledger")`
  ledger_of : Option Json → Option Text
  unfolding as_text
  ledger_of none = none
  ledger_of (some Json.null) = none
  ledger_of (some j) = some (as_text j)

  unfoldable pub from_dict : ℕ → Fields → Result ChallengeError PaymentChallenge
  unfolding as_text expiry ledger_of
  from_dict ms d = do
    amount ← require missing_field (get (codes "amount") d)
    currency ← require missing_field (get (codes "currency") d)
    pay_to ← require missing_field (get (codes "pay_to") d)
    resource ← require missing_field (get (codes "resource") d)
    nonce ← require missing_field (get (codes "nonce") d)
    expires_at ← expiry ms (get (codes "expires_at") d)
    ok (record {
      amount = as_text amount;
      currency = as_text currency;
      pay_to = as_text pay_to;
      resource = as_text resource;
      nonce = as_text nonce;
      expires_at = expires_at;
      ledger = ledger_of (get (codes "ledger") d);
    })
