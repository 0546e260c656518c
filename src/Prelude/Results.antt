-- ===== src/Prelude/Results.antt =====
-- Chains of pure calls that may raise, over the results of `Exec`, and reading JSON objects.
use mathlib.Core.Bool.{Bool}
use mathlib.Core.Option.{Option, none, some}
use intermesh.Prelude.Tests.{Text, text_eq, ◌==◌, if◌then◌else◌}
use intermesh.Prelude.Json.{Json, Fields, end, field}
use intermesh.Prelude.Exec.{Result, ok, err}

infixl 5 ◌>>=◌ ◌>>◌
abbrev pub ◌>>=◌ : {E A B : Type 0} → Result E A → (A → Result E B) → Result E B
ok a >>= f = f a
err e >>= f = err e

abbrev pub ◌>>◌ : {E B : Type 0} → Result E (Unit {0}) → Result E B → Result E B
m >> k = m >>= λ _. k

abbrev pub require : {E A : Type 0} → E → Option A → Result E A
require e none = err e
require e (some a) = ok a

abbrev pub refuse_if : {E : Type 0} → Bool → E → Result E (Unit {0})
refuse_if b e = if b then err e else ok tt

-- The member of a JSON object under a name.
unfoldable pub get : Text → Fields → Option Json
get k end = none
get k (field j v d) = if j == k then some v else get k d
