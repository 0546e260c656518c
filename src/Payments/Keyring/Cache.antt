-- ===== src/Payments/Keyring/Cache.antt =====
-- The cache of parsed keys in sdk-python/intermesh/payments/keyring.py.
use intermesh.Prelude.{
  Text, ◌≡◌, ◌⊎◌, inl, inr, some, [], ◌∷◌, arith, text_eq, text_beq_iff, Option-cases, Bool-cases,
  ◌==◌,
}
use intermesh.Prelude.Dict.{lookup, insert, erase, lookup-insert, lookup-erase}
use intermesh.Prelude.Exec.{ok, err}
use intermesh.Payments.Proof.{Crypto}
use intermesh.Payments.Keyring.{
  Keyring, KeyError, unknown_payer, bad_key, find_key, parse_key, public_pem, add_key, public_key,
}

module _ {Key : Type 0} (lib : Crypto Key) where
  -- Each key in the cache is that of the text on which the keyring says the agent's key is.
  pub record IsFresh (r : Keyring Key) : Type 0 where
    pub fresh :
        (agent : Text) (key : Key)
        → lookup agent r.parsed ≡ some key
        → (pem : Text) × (public_pem lib agent r ≡ some pem) × (lib.load_public_pem pem ≡ some key)

  add_key_outcome :
      (agent pem : Text) (r : Keyring Key)
      → ((add_key lib agent pem r).1 ≡ r)
        ⊎ ((add_key lib agent pem r).1
            ≡ record r { keys = insert agent pem r.keys; parsed = erase agent r.parsed })
  unfolding add_key
  add_key_outcome agent pem r = ground arith

  -- `public_key` raises and changes nothing, or it returns a key: the cached one, or the one that
  -- it parses and files in the cache.
  pub public_key_outcome :
      (agent : Text) (r : Keyring Key)
      → ((e : KeyError) × (public_key lib agent r ≡ (err e, r)))
        ⊎ ((key : Key) × (lookup agent r.parsed ≡ some key)
            × (public_key lib agent r ≡ (ok key, r)))
        ⊎ ((pem : Text) × (key : Key) × (public_pem lib agent r ≡ some pem)
            × (lib.load_public_pem pem ≡ some key)
            × (public_key lib agent r ≡ (ok key, record r { parsed = insert agent key r.parsed })))
  unfolding public_key find_key parse_key
  public_key_outcome agent r = elim (Option-cases (lookup agent r.parsed)) [
    | inr (key, cached) ↦ inr (inl (key, cached, rw (cached, public_key)))
    | inl missing ↦ elim (Option-cases (public_pem lib agent r)) [
      | inl absent ↦ inl (unknown_payer, ground arith)
      | inr ([], e) ↦ inl (unknown_payer, ground arith)
      | inr ((c ∷ pem), e) ↦ elim (Option-cases (lib.load_public_pem (c ∷ pem))) [
        | inl bad ↦ inl (bad_key, ground arith)
        | inr (key, good) ↦ inr (inr (c ∷ pem, key, e, good, ground arith))
      ]
    ]
  ]

  module _ (agent : Text) (r : Keyring Key) (h : IsFresh r) where
    filed-IsFresh :
        (pem : Text) (key : Key)
        → public_pem lib agent r ≡ some pem
        → lib.load_public_pem pem ≡ some key
        → IsFresh (record r { parsed = insert agent key r.parsed })
    unfolding public_pem
    filed-IsFresh pem key known good = record {
      fresh = λ a k found. elim (Bool-cases (agent == a)) [
        | inl same ↦
            let e : agent ≡ a = (text_beq_iff agent a).0 same in
            let f : key ≡ k = ground (arith, lookup-insert agent a key r.parsed) in
            (pem, rw (← e) known, rw (← f) good)
        | inr other ↦ h.fresh a k (ground (arith, lookup-insert agent a key r.parsed))
      ];
    }

    added-IsFresh :
        (pem : Text)
        → IsFresh (record r { keys = insert agent pem r.keys; parsed = erase agent r.parsed })
    unfolding public_pem
    added-IsFresh pem = record {
      fresh = λ a k found. elim (Bool-cases (agent == a)) [
        | inl same ↦ absurd (ground (arith, lookup-erase agent a r.parsed))
        | inr other ↦
            let (p, known, good) = h.fresh a k (ground (arith, lookup-erase agent a r.parsed)) in
            (p, ground (arith, lookup-insert agent a pem r.keys), good)
      ];
    }

    -- As long as `lookup_fn` answers as it did, neither a new key for an agent nor the look-up of one
    -- leaves another key in the cache than that of the text on file.
    pub keyring-IsFresh :
        (pem : Text) → IsFresh (add_key lib agent pem r).1 × IsFresh (public_key lib agent r).1
    keyring-IsFresh pem = (
      elim (add_key_outcome agent pem r) [ inl e ↦ rw e h | inr e ↦ rw e (added-IsFresh pem) ],
      elim (public_key_outcome agent r) [
        | inl (_, e) ↦ rw e h
        | inr (inl (_, _, e)) ↦ rw e h
        | inr (inr (p, key, known, good, e)) ↦ rw e (filed-IsFresh p key known good)
      ],
    )
