-- ===== src/Canonical.antt =====
-- sdk-python/intermesh/canonical.py: the bytes that are signed. `dumps` stands for `json.dumps` with
-- sorted keys and fixed separators, `sha256_hex` for SHA-256; both are parameters.
use intermesh.Prelude.{Text, Bool, true, false, ◌||◌, Option, none, some, if◌then◌else◌}
use intermesh.Prelude.Json.{
  Json, Items, Fields, null, bool, int, float, str, arr, obj, nil, cons, end, field,
}

unfoldable mutual
  -- `_assert_no_floats` raises.
  pub has_float : Json → Bool
  has_float null = false
  has_float (bool b) = false
  has_float (int i) = false
  has_float (float t) = true
  has_float (str s) = false
  has_float (arr xs) = items_float xs
  has_float (obj f) = fields_float f

  pub items_float : Items → Bool
  items_float nil = false
  items_float (cons x xs) = has_float x || items_float xs

  pub fields_float : Fields → Bool
  fields_float end = false
  fields_float (field k x f) = has_float x || fields_float f

-- `canonical_bytes`; `none` is its CanonicalError.
unfoldable pub canonical_bytes : (Json → Text) → Json → Bool → Option Text
canonical_bytes dumps j true = if has_float j then none else some (dumps j)
canonical_bytes dumps j false = some (dumps j)

-- `canonical_hash`
unfoldable pub canonical_hash : (Json → Text) → (Text → Text) → Json → Option Text
unfolding canonical_bytes
canonical_hash dumps sha256_hex j = elim (canonical_bytes dumps j true) [
  | none ↦ none
  | some raw ↦ some (sha256_hex raw)
]
