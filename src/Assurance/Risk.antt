-- ===== src/Assurance/Risk.antt =====
-- sdk-python/intermesh/assurance/risk.py. Of the digits that `isdigit` accepts only 0 to 9 are read,
-- and `upper` changes the ASCII letters.
use intermesh.Prelude.{
  ℕ, zero, suc, ◌+◌, ◌*◌, ◌-◌, Text, ◌≡◌, refl, Option, none, some, [], ◌∷◌, ◌++◌, map, nat_beq,
  if◌then◌else◌,
}
use mathlib.Core.List.{reverse}
use intermesh.Payments.Price.{is_digit, to_upper, skip_spaces}

pub data RiskLevel : Type 0 where
  r0 r1 r2 r3 r4 r5 : RiskLevel

unfoldable pub value : RiskLevel → ℕ
value r0 = 0
value r1 = 1
value r2 = 2
value r3 = 3
value r4 = 4
value r5 = 5

unfoldable pub of_value : ℕ → Option RiskLevel
of_value zero = some r0
of_value (suc zero) = some r1
of_value (suc (suc zero)) = some r2
of_value (suc (suc (suc zero))) = some r3
of_value (suc (suc (suc (suc zero)))) = some r4
of_value (suc (suc (suc (suc (suc zero))))) = some r5
of_value (suc (suc (suc (suc (suc (suc n)))))) = none

-- `str(level)`
unfoldable pub show : RiskLevel → Text
unfolding value
show l = 82 ∷ (48 + value l) ∷ []

-- `str.strip`
unfoldable pub strip : Text → Text
unfolding skip_spaces
strip s = reverse (skip_spaces (reverse (skip_spaces s)))

-- `int` of a text of digits alone; `none` if it has another character.
unfoldable pub read_number : ℕ → Text → Option ℕ
unfolding is_digit
read_number v [] = some v
read_number v (c ∷ s) =
    let rest = read_number (v * 10 + (c - 48)) s in if is_digit c then rest else none

drop_r : Text → Text
drop_r [] = []
drop_r (c ∷ s) = if nat_beq c 82 then s else c ∷ s

parse_digits : Text → Option RiskLevel
unfolding read_number of_value
parse_digits [] = none
parse_digits (c ∷ s) = elim (read_number 0 (c ∷ s)) [ none ↦ none | some n ↦ of_value n ]

-- What `RiskLevel.parse` is given: a level, or anything else by its `str`.
pub data RawRisk : Type 0 where
  level : RiskLevel → RawRisk
  text : Text → RawRisk

-- `RiskLevel.parse`; `none` is its ValueError.
unfoldable pub parse : RawRisk → Option RiskLevel
unfolding strip to_upper drop_r parse_digits
parse (RawRisk.level l) = some l
parse (RawRisk.text s) = parse_digits (drop_r (map to_upper (strip s)))

-- What a level prints as reads as that level, also with a space before it and a line end behind.
pub parse-show :
    (l : RiskLevel)
    → (parse (RawRisk.text (show l)) ≡ some l)
      × (parse (RawRisk.text (32 ∷ (show l ++ 10 ∷ []))) ≡ some l)
unfolding parse show
parse-show r0 = (refl, refl)
parse-show r1 = (refl, refl)
parse-show r2 = (refl, refl)
parse-show r3 = (refl, refl)
parse-show r4 = (refl, refl)
parse-show r5 = (refl, refl)
