-- ===== src/Payments/Challenge/RoundTrip.antt =====
-- What sdk-python/intermesh/payments/challenge.py writes into a 402 response reads back.
use intermesh.Prelude.{ℕ, Text, ◌≡◌, refl, Option, none, some, [], ◌∷◌, text_eq, text_beq}
use intermesh.Prelude.Int.{ℤ}
use intermesh.Prelude.Json.{Json}
use intermesh.Prelude.Exec.{ok}
use intermesh.Prelude.Results.{get}
use intermesh.Payments.Challenge.{PaymentChallenge, to_dict, from_dict, ledger_of, ledger_member}

-- The `ledger` that survives the way through JSON: an empty text is left out.
abbrev pub kept_ledger : Option Text → Option Text
kept_ledger none = none
kept_ledger (some []) = none
kept_ledger (some (c ∷ s)) = some (c ∷ s)

module _ (str_json : Json → Text) (int_json : Json → Option ℤ) where
  -- The challenge that a client reads from what the server wrote is the server's in every field,
  -- but for an empty `ledger`, which comes back as none.
  pub from_dict-to_dict :
      (ms : ℕ) (c : PaymentChallenge)
      → from_dict str_json int_json ms (to_dict c) ≡ ok (record c { ledger = kept_ledger c.ledger })
  unfolding from_dict to_dict get ledger_member ledger_of text_beq
  from_dict-to_dict ms c = go c.ledger
    where
      go :
          (l : Option Text)
          → from_dict str_json int_json ms (to_dict (record c { ledger = l }))
            ≡ ok (record c { ledger = kept_ledger l })
      go none = refl
      go (some []) = refl
      go (some (x ∷ s)) = refl
