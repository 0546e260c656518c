-- ===== src/Payments/Keyring.antt =====
-- sdk-python/intermesh/payments/keyring.py: whose public key is whose. The source is a dict, a
-- function, or nothing; `load` and `save` only touch a file.
pub mod Cache
use intermesh.Prelude.{
  ℕ, Text, Bool, true, false, Option, none, some, List, [], ◌∷◌, length, text_eq, ◌==◌,
  if◌then◌else◌,
}
use intermesh.Prelude.Dict.{Dict, lookup, insert, erase}
use intermesh.Prelude.Exec.{Result, ok, err, Exec, pure, read, need, ◌>>=◌, ◌>>◌, raise_if, modify}
use intermesh.Payments.Proof.{Crypto}

pub record Keyring (Key : Type 0) : Type 0 where
  pub lookup_fn : Option (Text → Option Text)
  pub keys : Dict Text Text
  pub parsed : Dict Text Key

-- `UnknownPayer`, and the ValueError of `load_public_pem`.
pub data KeyError : Type 0 where
  unknown_payer bad_key : KeyError

-- The argument of the constructor
pub data Source : Type 0 where
  absent : Source
  dict : Dict Text Text → Source
  function : (Text → Option Text) → Source

-- `not pem`
unfoldable pub no_pem : Option Text → Bool
no_pem none = true
no_pem (some []) = true
no_pem (some (c ∷ s)) = false

module _ {Key : Type 0} (lib : Crypto Key) where
  unfoldable pub keyring : Source → Keyring Key
  keyring Source.absent = record { lookup_fn = none; keys = []; parsed = [] }
  keyring (Source.dict d) = record { lookup_fn = none; keys = d; parsed = [] }
  keyring (Source.function f) = record { lookup_fn = some f; keys = []; parsed = [] }

  -- `public_pem`
  unfoldable pub public_pem : Text → Keyring Key → Option Text
  public_pem agent r = elim (lookup agent r.keys) [
    | some pem ↦ some pem
    | none ↦ elim r.lookup_fn [ none ↦ none | some f ↦ f agent ]
  ]

  -- `add`
  unfoldable pub add_key : Text → Text → Exec (Keyring Key) KeyError Text
  add_key agent pem = do
    need bad_key (lib.load_public_pem pem)
    modify (λ r. record r { keys = insert agent pem r.keys; parsed = erase agent r.parsed })
    pure (lib.fingerprint pem)

  parse_key : Text → Text → Exec (Keyring Key) KeyError Key
  parse_key agent pem = do
    key ← need bad_key (lib.load_public_pem pem)
    modify (λ r. record r { parsed = insert agent key r.parsed })
    pure key

  find_key : Text → Option Text → Exec (Keyring Key) KeyError Key
  unfolding parse_key
  find_key agent none r = (err unknown_payer, r)
  find_key agent (some []) r = (err unknown_payer, r)
  find_key agent (some (c ∷ pem)) r = parse_key agent (c ∷ pem) r

  -- `public_key`
  unfoldable pub public_key : Text → Exec (Keyring Key) KeyError Key
  unfolding find_key
  public_key agent r = elim (lookup agent r.parsed) [
    | some key ↦ (ok key, r)
    | none ↦ find_key agent (public_pem agent r) r
  ]

  -- `agent_id in keyring`
  unfoldable pub knows : Text → Keyring Key → Bool
  knows agent r = elim (public_pem agent r) [ none ↦ false | some pem ↦ true ]
