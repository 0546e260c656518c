-- ===== src/Prelude/Exec.antt =====
-- Methods of an object that may raise: what a call wrote before it raised stays written, so the
-- state comes back beside the exception.
use mathlib.Core.Path.{◌≡◌, refl}
use mathlib.Core.Logic.{◌⊎◌, inl, inr}
use mathlib.Core.Bool.{Bool, true, false}
use mathlib.Core.Option.{Option, none, some}
use intermesh.Prelude.Tests.{if◌then◌else◌}

pub data Result (E A : Type 0) : Type 0 where
  ok : A → Result E A
  err : E → Result E A

abbrev pub Exec : Type 0 → Type 0 → Type 0 → Type 0
Exec S E A = S → Result E A × S

module _ {S E A : Type 0} where
  abbrev pub pure : A → Exec S E A
  pure a s = (ok a, s)

  abbrev pub raise : E → Exec S E A
  raise e s = (err e, s)

  -- A pure call that may raise.
  abbrev pub lift : Result E A → Exec S E A
  lift r s = (r, s)

  abbrev pub read : (S → A) → Exec S E A
  read f s = (ok (f s), s)

  abbrev pub need : E → Option A → Exec S E A
  need e none s = (err e, s)
  need e (some a) s = (ok a, s)

abbrev pub bind_result : {S E A B : Type 0} → Result E A → S → (A → Exec S E B) → Result E B × S
bind_result (ok a) s f = f a s
bind_result (err e) s f = (err e, s)

infixl 5 ◌>>=◌ ◌>>◌
abbrev pub ◌>>=◌ : {S E A B : Type 0} → Exec S E A → (A → Exec S E B) → Exec S E B
◌>>=◌ m f s = let (r, s') = m s in bind_result r s' f

abbrev pub ◌>>◌ : {S E A B : Type 0} → Exec S E A → Exec S E B → Exec S E B
m >> k = m >>= λ _. k

module _ {S E : Type 0} where
  abbrev pub raise_if : Bool → E → Exec S E (Unit {0})
  raise_if b e s = (if b then err e else ok tt, s)

  abbrev pub modify : (S → S) → Exec S E (Unit {0})
  modify f s = (ok tt, f s)

pub Result-cases :
    {E A : Type 0} (r : Result E A) → ((a : A) × (r ≡ ok a)) ⊎ ((e : E) × (r ≡ err e))
Result-cases (ok a) = inl (a, refl)
Result-cases (err e) = inr (e, refl)

abbrev pub is_err : {E A : Type 0} → Result E A → Bool
is_err (ok a) = false
is_err (err e) = true
