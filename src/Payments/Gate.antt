-- ===== src/Payments/Gate.antt =====
-- sdk-python/intermesh/server/gate.py: the decision on a request that has to be paid. `Source` is
-- what the gate reads from outside: the clock, a fresh nonce, and the ledger's digest and decimals.
pub mod Admission
pub mod Replay
mod Tests
use intermesh.Prelude.{
  ℕ, ◌+◌, Text, codes, Bool, true, false, Option, none, some, List, [], ◌∷◌, length, ltb, text_eq,
  ◌==◌, if◌then◌else◌,
}
use intermesh.Prelude.Int.{ℤ, pos, ◌+ℤ◌, ltb_ℤ}
use intermesh.Prelude.Dict.{Dict, lookup, insert, erase}
use intermesh.Prelude.Json.{Json, Fields, obj}
use intermesh.Prelude.Exec.{
  Result, ok, err, Exec, pure, raise, lift, read, ◌>>=◌, ◌>>◌, raise_if, modify,
}
use intermesh.Prelude.Results.{require, get}
use intermesh.Payments.Errors.{Error, is_ledger_error}
use intermesh.Payments.Price.{Price, Raw}
use intermesh.Payments.Challenge.{PaymentChallenge, create}
use intermesh.Payments.Proof.{
  PaymentProof, ProofError, Crypto, malformed, unreadable, incomplete, not_an_object, split_dot,
  to_text, verify_proof,
}
use intermesh.Payments.Keyring.{Keyring, KeyError, unknown_payer, bad_key, public_key}
use intermesh.Payments.Ledger.{Ledger, Env, Charge, charge, moment}

pub record PaymentGate (Key : Type 0) : Type 0 where
  pub ledger : Ledger
  pub keyring : Keyring Key
  pub payee : Text
  pub ledger_url : Option Text
  pub ttl_ms : ℕ
  pub pending : Dict Text PaymentChallenge

pub record Settled : Type 0 where
  pub proof : PaymentProof
  pub amount : Price

-- Why a proof is not accepted.
pub data Reason : Type 0 where
  no_key unknown_nonce wrong_payee : Reason
  bad_proof : ProofError → Reason
  refused : Error → Reason

-- `PaymentRequired`, `PaymentRejected`, and the exceptions that pass through: those of the price, of
-- the key text, of a payload that is no object, of the ledger beside `LedgerError`, and the
-- ProofError of the nonce, which is read outside the `try`.
pub data GateError : Type 0 where
  payment_required : PaymentChallenge → GateError
  payment_rejected : Reason → GateError
  price_error ledger_failed : Error → GateError
  proof_escapes : ProofError → GateError
  key_error not_dict : GateError

pub record Source : Type 0 where
  pub env : Env
  pub ms : ℕ
  pub time : ℕ
  pub fresh : Text

-- `except ProofError`
proof_failed : ProofError → GateError
proof_failed not_an_object = not_dict
proof_failed e = payment_rejected (bad_proof e)

key_failed : KeyError → GateError
key_failed unknown_payer = payment_rejected no_key
key_failed bad_key = key_error

-- `_evict`, over the dict: what expired more than a minute ago goes.
unfoldable pub kept : ℕ → Dict Text PaymentChallenge → Dict Text PaymentChallenge
kept now [] = []
kept now ((n, c) ∷ d) =
    let rest = kept now d in
    if ltb_ℤ (c.expires_at +ℤ pos 60000) (pos now) then rest else (n, c) ∷ rest

module _ {Key : Type 0} (lib : Crypto Key) where
  abbrev pub Action : Type 0 → Type 0
  Action = Exec (PaymentGate Key) GateError

  unfoldable pub evict : ℕ → Action (Unit {0})
  unfolding kept
  evict now = modify (λ g. record g { pending = kept now g.pending })

  -- `challenge_for`
  unfoldable pub challenge_for : Source → Text → Raw → Action PaymentChallenge
  unfolding evict
  challenge_for src resource asked = do
    evict src.ms
    g ← read (λ g. g)
    c ← λ s.
        elim (create src.env.str_decimal src.ms src.fresh asked g.payee resource g.ledger_url
          g.ttl_ms) [ ok c ↦ (ok c, s) | err e ↦ (err (price_error e), s) ]
    modify (λ g. record g { pending = insert c.nonce c g.pending })
    pure c

  member_text : Text → Option Json → Result ProofError Text
  unfolding to_text
  member_text k (some (obj d)) = elim (get k d) [
    | none ↦ err unreadable
    | some j ↦ ok (to_text lib j)
  ]
  member_text k _ = err unreadable

  -- `_peek`, where every failure to decode is a ProofError.
  unfoldable pub peek : Text → Text → Result ProofError Text
  unfolding member_text
  peek header k = elim (split_dot header) [
    | none ↦ err malformed
    | some (encoded, _) ↦ elim (lib.unb64 encoded) [
      | none ↦ err unreadable
      | some body ↦ member_text k (lib.read_json body)
    ]
  ]

  -- `public_key` on the gate's keyring
  unfoldable pub key_of : Text → Action Key
  unfolding key_failed
  key_of payer g =
      let (found, r) = public_key lib payer g.keyring in
      elim found [
        | ok key ↦ (ok key, record g { keyring = r })
        | err e ↦ (err (key_failed e), record g { keyring = r })
      ]

  peeked : (ProofError → GateError) → Text → Text → Action Text
  peeked wrap header k g = elim (peek header k) [ ok t ↦ (ok t, g) | err e ↦ (err (wrap e), g) ]

  checked : Text → Key → PaymentChallenge → ℕ → Action PaymentProof
  unfolding proof_failed
  checked header key c now g = elim (verify_proof lib header key (some c) now) [
    | ok p ↦ (ok p, g)
    | err e ↦ (err (proof_failed e), g)
  ]

  -- The entry in the ledger: a LedgerError takes the challenge away too, another exception leaves it.
  settle_charge : Source → PaymentProof → Option ℕ → PaymentChallenge → Action Charge
  settle_charge src p now c g =
      let (entry, s) = charge src.env src.time src.ms p now g.ledger in
      elim entry [
        | ok e ↦ (ok e, record g { ledger = s; pending = erase c.nonce g.pending })
        | err e ↦
            if is_ledger_error e
            then (
              err (payment_rejected (refused e)),
              record g { ledger = s; pending = erase c.nonce g.pending },
            )
            else (err (ledger_failed e), record g { ledger = s })
      ]

  -- `admit` of a request with a header, as far as the proof is checked.
  unfoldable pub check_header : Source → Text → Option ℕ → Action (PaymentChallenge × PaymentProof)
  unfolding peeked checked proof_failed
  check_header src header now = do
    payer ← peeked proof_failed header (codes "payer")
    key ← key_of payer
    nonce ← peeked proof_escapes header (codes "nonce")
    g ← read (λ g. g)
    c ← λ s. elim (lookup nonce s.pending) [
      | none ↦ (err (payment_rejected unknown_nonce), s)
      | some c ↦ (ok c, s)
    ]
    p ← checked header key c (moment src.ms now)
    raise_if (if p.pay_to == g.payee then false else true) (payment_rejected wrong_payee)
    pure (c, p)

  unfoldable pub admit_header : Source → Text → Option ℕ → Action Settled
  unfolding settle_charge
  admit_header src header now = do
    (c, p) ← check_header src header now
    e ← settle_charge src p now c
    pure (record { proof = p; amount = record { amount = e.amount; currency = e.currency } })

  -- `admit`
  unfoldable pub admit : Source → Text → Raw → Option Text → Option ℕ → Action Settled
  unfolding admit_header
  admit src resource asked none now = do
    c ← challenge_for src resource asked
    raise (payment_required c)
  admit src resource asked (some []) now = do
    c ← challenge_for src resource asked
    raise (payment_required c)
  admit src resource asked (some (x ∷ header)) now = admit_header src (x ∷ header) now

  -- `pending_count`
  unfoldable pub pending_count : PaymentGate Key → ℕ
  pending_count g = length g.pending
