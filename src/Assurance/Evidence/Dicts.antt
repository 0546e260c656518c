-- ===== src/Assurance/Evidence/Dicts.antt =====
-- JSON objects as the Python dicts that sdk-python/intermesh/assurance/evidence.py builds.
use intermesh.Prelude.{Text, Option, none, some, ◌==◌, text_eq, if◌then◌else◌}
use intermesh.Prelude.Json.{Json, Fields, null, bool, int, float, str, arr, obj, end, field}

-- `d[k] = v`
unfoldable pub set_field : Text → Json → Fields → Fields
set_field k v end = field k v end
set_field k v (field j w d) = if j == k then field j v d else field j w (set_field k v d)

-- `{**d, **extra}`
unfoldable pub update : Fields → Fields → Fields
unfolding set_field
update end d = d
update (field k v extra) d = update extra (set_field k v d)

-- `d.pop(k, None)`, what is left
unfoldable pub drop_field : Text → Fields → Fields
drop_field k end = end
drop_field k (field j w d) = let rest = drop_field k d in if j == k then rest else field j w rest

-- `_clean`
unfoldable pub clean : Fields → Fields
clean end = end
clean (field k null d) = clean d
clean (field k (bool b) d) = field k (bool b) (clean d)
clean (field k (int i) d) = field k (int i) (clean d)
clean (field k (float t) d) = field k (float t) (clean d)
clean (field k (str s) d) = field k (str s) (clean d)
clean (field k (arr xs) d) = field k (arr xs) (clean d)
clean (field k (obj f) d) = field k (obj f) (clean d)

unfoldable pub or_null : {A : Type 0} → (A → Json) → Option A → Json
or_null make none = null
or_null make (some a) = make a
