-- ===== src/ApiKeys.antt =====
-- sdk-python/intermesh/apikeys.py: the keys of service accounts, held by their hashes. The hash and a
-- fresh key are parameters; the file is not modelled, only whether there is one.
pub mod Revoked
use intermesh.Prelude.{
  ℕ, zero, suc, Text, Bool, true, false, Option, none, some, List, [], ◌∷◌, text_eq, ◌==◌,
  if◌then◌else◌,
}
use intermesh.Prelude.Dict.{Dict, insert, erase}
use intermesh.Prelude.Exec.{Result, ok, err}
use intermesh.Assurance.Policy.{starts}

-- The members that `_normalize` keeps; `label` and `created_at` may be missing.
pub record KeyInfo : Type 0 where
  pub org_id : Text
  pub roles : List Text
  pub permissions : List Text
  pub label : Option Text
  pub created_at : Option ℕ

-- What `_normalize` is given.
pub record RawInfo : Type 0 where
  pub org_id : Option Text
  pub roles : Option (List Text)
  pub permissions : Option (List Text)
  pub label : Option Text
  pub created_at : Option ℕ

-- `ApiKeyStore`; `has_file` is `path is not None`.
pub record ApiKeyStore : Type 0 where
  pub by_hash : Dict Text KeyInfo
  pub has_file : Bool

-- The PermissionError of a store without a file, and the KeyError of a missing `org_id`.
pub data KeysError : Type 0 where
  read_only missing_org : KeysError

-- `label or info.get("label")`, kept if it is not empty.
unfoldable pub label_or : Text → Option Text → Option Text
label_or (c ∷ s) given = some (c ∷ s)
label_or [] none = none
label_or [] (some []) = none
label_or [] (some (c ∷ s)) = some (c ∷ s)

-- A time that is absent or zero is not kept.
unfoldable pub kept_time : Option ℕ → Option ℕ
kept_time none = none
kept_time (some zero) = none
kept_time (some (suc t)) = some (suc t)

unfoldable pub list_or_empty : Option (List Text) → List Text
list_or_empty none = []
list_or_empty (some xs) = xs

-- `_normalize`
unfoldable pub normalize : RawInfo → Text → Result KeysError KeyInfo
unfolding label_or kept_time list_or_empty
normalize raw label = elim raw.org_id [
  | none ↦ err missing_org
  | some org ↦ ok (record {
    org_id = org;
    roles = list_or_empty raw.roles;
    permissions = list_or_empty raw.permissions;
    label = label_or label raw.label;
    created_at = kept_time raw.created_at;
  })
]

-- `_persist`, as far as it raises.
unfoldable pub persist : {A : Type 0} → A → ApiKeyStore → Result KeysError A × ApiKeyStore
persist a s = (if s.has_file then ok a else err read_only, s)

-- The hashes that begin with a prefix.
unfoldable pub matching : Text → Dict Text KeyInfo → List Text
matching prefix [] = []
matching prefix ((h, i) ∷ d) =
    let rest = matching prefix d in if starts prefix h then h ∷ rest else rest

-- `revoke`
unfoldable pub revoke : Text → ApiKeyStore → Result KeysError Bool × ApiKeyStore
unfolding matching persist
revoke prefix s = elim (matching prefix s.by_hash) [
  | [] ↦ (ok false, s)
  | h ∷ more ↦ elim more [
    | [] ↦ persist true (record s { by_hash = erase h s.by_hash })
    | k ∷ rest ↦ (ok false, s)
  ]
]

-- The loop of `lookup`: the last entry with this hash.
unfoldable pub find_hash : Text → Dict Text KeyInfo → Option KeyInfo → Option KeyInfo
find_hash c [] matched = matched
find_hash c ((h, i) ∷ d) matched = find_hash c d (if h == c then some i else matched)

-- The dict comprehension of `import_hashed`
unfoldable pub normalize_all :
    List (Text × RawInfo) → Dict Text KeyInfo → Result KeysError (Dict Text KeyInfo)
unfolding normalize
normalize_all [] d = ok d
normalize_all ((h, raw) ∷ keys) d = elim (normalize raw []) [
  | err e ↦ err e
  | ok i ↦ normalize_all keys (insert h i d)
]

-- `import_hashed`
unfoldable pub import_hashed :
    List (Text × RawInfo) → ApiKeyStore → Result KeysError (Unit {0}) × ApiKeyStore
unfolding normalize_all persist
import_hashed keys s =
    if s.has_file
    then (elim (normalize_all keys []) [
      | err e ↦ (err e, s)
      | ok d ↦ persist tt (record s { by_hash = d })
    ])
    else (err read_only, s)

module _ (hash_key : Text → Text) where
  -- `create`, with the key that `generate_key` returns and the time.
  unfoldable pub create :
      Text
      → ℕ
      → Text
      → List Text
      → List Text
      → Text
      → ApiKeyStore
      → Result KeysError Text × ApiKeyStore
  unfolding persist kept_time label_or
  create raw now org roles permissions label s =
      let info : KeyInfo = record {
        org_id = org;
        roles = roles;
        permissions = permissions;
        label = label_or label none;
        created_at = kept_time (some now);
      } in
      persist raw (record s { by_hash = insert (hash_key raw) info s.by_hash })

  -- `lookup`
  unfoldable pub lookup_key : Text → ApiKeyStore → Option KeyInfo
  unfolding find_hash
  lookup_key [] s = none
  lookup_key (c ∷ raw) s = find_hash (hash_key (c ∷ raw)) s.by_hash none
