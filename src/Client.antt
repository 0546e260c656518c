-- ===== src/Client.antt =====
-- sdk-python/intermesh/client/wallet.py and client/http.py: what an agent pays, and how a 402 is
-- answered. Amounts are whole units of the price module; sums before `quantize` are exact.
pub mod Budget
pub mod Retry
mod Tests
use intermesh.Prelude.{
  ℕ, Text, codes, Bool, true, false, not, Option, none, some, List, [], ◌∷◌, ◌++◌, length, nat_beq,
  text_eq, ◌==◌, if◌then◌else◌,
}
use intermesh.Prelude.Int.{ℤ, pos, ◌+ℤ◌, ◌-ℤ◌, ltb_ℤ}
use intermesh.Prelude.Json.{Json, obj}
use intermesh.Prelude.Exec.{Result, ok, err}
use intermesh.Prelude.Results.{◌>>=◌, ◌>>◌, refuse_if}
use intermesh.Payments.Errors.{Error}
use intermesh.Payments.Price.{Price, Raw, parse_price, quantize}
use intermesh.Payments.Challenge.{
  PaymentChallenge, ChallengeError, challenge_price, has_lapsed, from_dict,
}
use intermesh.Payments.Proof.{Crypto, sign_proof}

-- `key` is the private key.
pub record Wallet : Type 0 where
  pub agent_id : Text
  pub key : Text
  pub currency : Text
  pub max_price : Price
  pub budget : Option Price
  pub spent : ℤ

-- `PaymentRefused` by its cause, and the errors of prices.
pub data WalletError : Type 0 where
  unreadable : Error → WalletError
  other_currency lapsed price_too_high budget_exceeded : WalletError

-- `parse_price(budget, ...) if budget else None`
unfoldable pub read_budget : Option Raw → Text → Result Error (Option Price)
read_budget none currency = ok none
read_budget (some (Raw.text [])) currency = ok none
read_budget (some raw) currency = parse_price raw currency >>= λ p. ok (some p)

-- `Wallet(...)`
unfoldable pub make_wallet : Text → Text → Raw → Option Raw → Text → Result Error Wallet
unfolding read_budget
make_wallet agent_id key max_price budget currency = do
  most ← parse_price max_price currency
  total ← read_budget budget currency
  ok (record {
    agent_id = agent_id;
    key = key;
    currency = currency;
    max_price = most;
    budget = total;
    spent = pos 0;
  })

-- The property `remaining`
unfoldable pub remaining : Wallet → Result Error (Option Price)
remaining w = elim w.budget [
  | none ↦ ok none
  | some b ↦ quantize (b.amount -ℤ w.spent) >>= λ x.
      ok (some (record { amount = x; currency = w.currency }))
]

unfoldable pub as_refusal : {A : Type 0} → Result Error A → Result WalletError A
as_refusal (ok a) = ok a
as_refusal (err e) = err (unreadable e)

-- `self.budget is not None and self._spent + price.amount > self.budget.amount`
unfoldable pub is_over : Option Price → ℤ → ℤ → Bool
is_over none spent amount = false
is_over (some b) spent amount = ltb_ℤ b.amount (spent +ℤ amount)

module _ {Key : Type 0} (lib : Crypto Key) where
  -- The checks of `authorize`, with the price and what will have been spent.
  unfoldable pub check_limits : ℕ → PaymentChallenge → Wallet → Result WalletError (Price × ℤ)
  unfolding is_over as_refusal
  check_limits ms c w = do
    price ← as_refusal (challenge_price c)
    refuse_if (not (price.currency == w.currency)) other_currency
    refuse_if (has_lapsed c ms) lapsed
    refuse_if (ltb_ℤ w.max_price.amount price.amount) price_too_high
    refuse_if (is_over w.budget w.spent price.amount) budget_exceeded
    spent ← as_refusal (quantize (w.spent +ℤ price.amount))
    ok (price, spent)

  -- `authorize`; a refusal leaves the wallet as it was.
  unfoldable pub authorize : ℕ → PaymentChallenge → Wallet → Result WalletError Text × Wallet
  unfolding check_limits
  authorize ms c w = elim (check_limits ms c w) [
    | err e ↦ (err e, w)
    | ok p ↦ (ok (sign_proof lib ms c w.agent_id w.key), record w { spent = p.1 })
  ]

-- A body is a text to read as JSON, or a value that is no text.
pub data Body : Type 0 where
  raw : Text → Body
  value : Json → Body

pub data ClientError : Type 0 where
  no_challenge : ClientError
  bad_challenge : ChallengeError → ClientError
  refused : WalletError → ClientError
  not_served : Text → ClientError

-- What the client takes from elsewhere: a caller's `send` at its n-th call and the accessors of its
-- responses, `json.loads`, and `_reason`.
pub record Transport (R : Type 0) : Type 0 where
  pub send : ℕ → Option Text → R
  pub status_of : R → ℕ
  pub body_of : R → Body
  pub read_json : Text → Option Json
  pub reason_of : Body → Text

unfoldable pub as_object : {K : Type 0} → Crypto K → ℕ → Json → Result ClientError PaymentChallenge
as_object lib ms (obj d) = elim (from_dict lib.str_json lib.int_json ms d) [
  | err e ↦ err (bad_challenge e)
  | ok c ↦ ok c
]
as_object lib ms j = err no_challenge

module _ {Key R : Type 0} (lib : Crypto Key) (net : Transport R) where
  -- `challenge_from_response`
  unfoldable pub challenge_from_response : ℕ → Body → Result ClientError PaymentChallenge
  unfolding as_object
  challenge_from_response ms (value j) = as_object lib ms j
  challenge_from_response ms (raw t) = elim (net.read_json t) [
    | none ↦ err no_challenge
    | some j ↦ as_object lib ms j
  ]

  -- A call of `send`, with the headers of the calls before it.
  unfoldable pub send_on : Option Text → List (Option Text) → R × List (Option Text)
  send_on header sent = (net.send (length sent) header, sent ++ header ∷ [])

  -- The second call of `send` and what follows it.
  unfoldable pub resend : Text → List (Option Text) → Result ClientError R × List (Option Text)
  unfolding send_on
  resend header sent =
      let (retried, sent') = send_on (some header) sent in
      (
        if nat_beq (net.status_of retried) 402
            then err (not_served (net.reason_of (net.body_of retried)))
            else ok retried,
        sent',
      )

  -- From the challenge on: the outcome, the wallet and the headers of all calls of `send`.
  unfoldable pub pay :
      ℕ
      → PaymentChallenge
      → Wallet
      → List (Option Text)
      → Result ClientError R × Wallet × List (Option Text)
  unfolding authorize resend
  pay ms c w sent = elim (authorize lib ms c w).0 [
    | err e ↦ (err (refused e), (authorize lib ms c w).1, sent)
    | ok header ↦
        let (outcome, sent') = resend header sent in (outcome, (authorize lib ms c w).1, sent')
  ]

  -- `pay_and_retry`
  unfoldable pub pay_and_retry : ℕ → Wallet → Result ClientError R × Wallet × List (Option Text)
  unfolding send_on challenge_from_response pay
  pay_and_retry ms w =
      let (response, sent) = send_on none [] in
      if nat_beq (net.status_of response) 402
      then (elim (challenge_from_response ms (net.body_of response)) [
        | err e ↦ (err e, w, sent)
        | ok c ↦ pay ms c w sent
      ])
      else (ok response, w, sent)
