-- ===== src/Payments/Price/Laws.antt =====
-- `parse_price`, `quantize` and the arithmetic of sdk-python/intermesh/payments/price.py.
use intermesh.Prelude.{
  ℕ, ◌+◌, ◌-◌, ◌*◌, ◌/◌, ◌%◌, ◌^◌, ◌≤◌, ◌<◌, Text, ◌≡◌, ◌⊎◌, inl, inr, arith, leb, if◌then◌else◌,
  zero, suc, text_beq_iff, text_eq, Option-cases, Bool-cases,
}
use native.Mathlib.Nat.{div-add-mod', mod-lt, pow-suc}
use intermesh.Prelude.Int.{ℤ, pos, pos_part, neg_part, ◌+ℤ◌, ◌-ℤ◌, ◌≤ℤ◌, int_laws}
use intermesh.Prelude.Exec.{ok, err}
use intermesh.Payments.Errors.{invalid_operation}
use intermesh.Payments.Price.{
  Price, max_units, quantize, round_half_up, add, sub, match_price, announced, parse_text,
}

-- `quantize` returns its argument or raises.
pub quantize-cases :
    (x : ℤ)
    → ((quantize x ≡ ok x) × (pos_part x + neg_part x < max_units))
      ⊎ (quantize x ≡ err invalid_operation)
unfolding quantize
quantize-cases x = ground arith

pub quantize-fits : (x : ℤ) → pos_part x + neg_part x < max_units → quantize x ≡ ok x
unfolding quantize
quantize-fits x h = ground arith

-- A price that was read is not negative and has 28 digits at most.
pub parse_text_bounds :
    (s default : Text) (p : Price)
    → parse_text s default ≡ ok p
    → (pos 0 ≤ℤ p.amount) × (pos_part p.amount < max_units)
unfolding parse_text
parse_text_bounds s default p h = elim (Option-cases (match_price s)) [
  | inl unmatched ↦ absurd (ground arith)
  | inr (m, e) ↦
      ground (arith, announced m default, quantize-cases (pos (round_half_up m.digits m.places)))
]

add_cancel : (a b : ℤ) → a +ℤ b -ℤ b ≡ a
add_cancel a b = omega int_laws

-- A sum that `Price.__add__` returns is undone by `Price.__sub__`.
pub sub-add :
    (a b c : Price)
    → pos_part a.amount + neg_part a.amount < max_units
    → add a b ≡ ok c
    → sub c b ≡ ok a
unfolding add sub
sub-add a b c h e = ground (
  arith,
  text_beq_iff a.currency b.currency,
  add_cancel a.amount b.amount,
  quantize-cases (a.amount +ℤ b.amount),
  quantize-fits a.amount,
)

pow-pos : (k : ℕ) → 0 < 10 ^ k
pow-pos zero = omega arith
pow-pos (suc k) = grind (arith, pow-suc 10 k, pow-pos k)

half_up :
    (d u q r : ℕ)
    → q * u + r ≡ d
    → r < u
    → let k = if leb u (2 * r) then q + 1 else q in
      (2 * (k * u) ≤ 2 * d + u) × (2 * d < 2 * (k * u) + u)
half_up d u q r e h = elim (Bool-cases (leb u (2 * r))) [
  | inl up ↦ rw up (ground arith)
  | inr down ↦ rw down (ground arith)
]

-- The quotient rounded half up, times the unit, lies within half a unit.
nearest :
    (d u : ℕ)
    → 0 < u
    → let q = if leb u (2 * (d % u)) then d / u + 1 else d / u in
      (2 * (q * u) ≤ 2 * d + u) × (2 * d < 2 * (q * u) + u)
nearest d u h = half_up d u (d / u) (d % u) (div-add-mod' d u) (mod-lt d h)

-- Of a decimal with more than 8 places, `quantize` keeps the nearest number of units, the upper
-- one of two that are equally near.
pub round_half_up_nearest :
    (digits places : ℕ)
    → 8 < places
    → let unit = 10 ^ (places - 8) in
      (2 * (round_half_up digits places * unit) ≤ 2 * digits + unit)
      × (2 * digits < 2 * (round_half_up digits places * unit) + unit)
unfolding round_half_up
round_half_up_nearest digits places h =
    ground (arith, nearest digits (10 ^ (places - 8)) (pow-pos (places - 8)))
