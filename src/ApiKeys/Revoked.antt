-- ===== src/ApiKeys/Revoked.antt =====
-- What `revoke` of sdk-python/intermesh/apikeys.py takes away.
use intermesh.Prelude.{
  Text, ◌≡◌, refl, inl, inr, true, Option, none, [], ◌∷◌, text_eq, ◌==◌, Bool-cases, if◌then◌else◌,
}
use intermesh.Prelude.Dict.{Dict, erase}
use intermesh.Prelude.Exec.{ok, err}
use intermesh.ApiKeys.{
  KeyInfo, ApiKeyStore, read_only, matching, revoke, find_hash, lookup_key, persist,
}

find_hash-erase :
    (c : Text) (d : Dict Text KeyInfo) (matched : Option KeyInfo)
    → find_hash c (erase c d) matched ≡ matched
unfolding find_hash erase
find_hash-erase c [] matched = refl
find_hash-erase c ((h, i) ∷ d) matched = elim (Bool-cases (h == c)) [
  | inl same ↦ rw (erase, same) (find_hash-erase c d matched)
  | inr other ↦ rw (erase, other, find_hash, other) (find_hash-erase c d matched)
]

unknown :
    (hash_key : Text → Text) (raw h : Text) (s : ApiKeyStore)
    → hash_key raw ≡ h
    → lookup_key hash_key raw (record s { by_hash = erase h s.by_hash }) ≡ none
unfolding lookup_key
unknown hash_key [] h s same = refl
unknown hash_key (c ∷ raw) h s same = rw same (find_hash-erase h s.by_hash none)

-- One hash has the prefix, and no other.
abbrev pub IsOnly : Text → ApiKeyStore → Text → Type 0
IsOnly prefix s h = matching prefix s.by_hash ≡ h ∷ []

-- If one hash alone has the prefix, its entry goes and no key with this hash is known any more. The
-- call returns true on a store with a file; on one without it raises, though the entry is gone too.
pub revoke-lookup_key :
    (hash_key : Text → Text) (prefix h : Text) (s : ApiKeyStore)
    → IsOnly prefix s h
    → let r = revoke prefix s in
      (r.0 ≡ (if s.has_file then ok true else err read_only))
      × (r.1 ≡ record s { by_hash = erase h s.by_hash })
      × ((raw : Text) → hash_key raw ≡ h → lookup_key hash_key raw r.1 ≡ none)
unfolding revoke persist
revoke-lookup_key hash_key prefix h s only =
    rw (revoke, only) (refl, refl, λ raw same. unknown hash_key raw h s same)
