-- ===== src/Payments/Price.antt =====
-- sdk-python/intermesh/payments/price.py. An amount is a whole number of units of `SCALE`
-- (0.00000001): every amount that the module makes has passed `quantize`. Texts hold code points;
-- of the digits that `\d` matches only 0 to 9 are read.
pub mod Laws
mod Tests
use intermesh.Prelude.{
  ℕ, zero, suc, ◌+◌, ◌-◌, ◌*◌, ◌/◌, ◌%◌, ◌^◌, Text, codes, Bool, true, false, ◌&&◌, ◌||◌, not,
  Option, none, some, List, [], ◌∷◌, map, ltb, leb, nat_beq, ◌==◌, text_eq, if◌then◌else◌,
}
use intermesh.Prelude.Int.{ℤ, pos, pos_part, neg_part, ◌+ℤ◌, ◌-ℤ◌, ltb_ℤ}
use intermesh.Prelude.Exec.{Result, ok, err}
use intermesh.Payments.Errors.{
  Error, unreadable_price, two_currencies, mixed_currencies, negative_price, invalid_operation,
}

pub record Price : Type 0 where
  pub amount : ℤ
  pub currency : Text

-- What `parse_price` accepts: a text, a `Price`, or anything else.
pub data Raw : Type 0 where
  text : Text → Raw
  price : Price → Raw
  other : Raw

-- The context's precision is 28 digits: `Decimal.quantize` raises on a longer result.
abbrev pub max_units : ℕ
max_units = 10 ^ 28

-- `quantize` of a value that is a whole number of units already.
unfoldable pub quantize : ℤ → Result Error ℤ
quantize x = if ltb (pos_part x + neg_part x) max_units then ok x else err invalid_operation

-- `quantize` of the decimal `digits` / 10 ^ `places`, to 8 places, half up.
unfoldable pub round_half_up : ℕ → ℕ → ℕ
round_half_up digits places =
    if leb places 8
    then digits * 10 ^ (8 - places)
    else (let unit = 10 ^ (places - 8) in
        if leb unit (2 * (digits % unit)) then digits / unit + 1 else digits / unit)

unfoldable pub same_currency : Price → Price → Result Error (Unit {0})
same_currency a b = if a.currency == b.currency then ok tt else err mixed_currencies

-- `Price.__add__`
unfoldable pub add : Price → Price → Result Error Price
unfolding same_currency
add a b = elim (same_currency a b) [
  | err e ↦ err e
  | ok _ ↦ elim (quantize (a.amount +ℤ b.amount)) [
    | err e ↦ err e
    | ok x ↦ ok (record { amount = x; currency = a.currency })
  ]
]

-- `Price.__sub__`
unfoldable pub sub : Price → Price → Result Error Price
unfolding same_currency
sub a b = elim (same_currency a b) [
  | err e ↦ err e
  | ok _ ↦ elim (quantize (a.amount -ℤ b.amount)) [
    | err e ↦ err e
    | ok x ↦ ok (record { amount = x; currency = a.currency })
  ]
]

-- `\s` on a `str`
unfoldable pub is_space : ℕ → Bool
is_space c =
    (leb 9 c && leb c 13)
    || (leb 28 c && leb c 32)
    || nat_beq c 133
    || nat_beq c 160
    || nat_beq c 5760
    || (leb 8192 c && leb c 8202)
    || nat_beq c 8232
    || nat_beq c 8233
    || nat_beq c 8239
    || nat_beq c 8287
    || nat_beq c 12288

unfoldable pub is_digit : ℕ → Bool
is_digit c = leb 48 c && leb c 57

unfoldable pub is_letter : ℕ → Bool
is_letter c = (leb 65 c && leb c 90) || (leb 97 c && leb c 122)

unfoldable pub to_upper : ℕ → ℕ
to_upper c = if leb 97 c && leb c 122 then c - 32 else c

unfoldable pub skip_spaces : Text → Text
unfolding is_space
skip_spaces [] = []
skip_spaces (c ∷ s) = if is_space c then skip_spaces s else c ∷ s

-- A run of digits: the value read so far, how many digits, and the rest.
unfoldable pub read_digits : ℕ → ℕ → Text → ℕ × ℕ × Text
unfolding is_digit
read_digits v n [] = (v, n, [])
read_digits v n (c ∷ s) =
    if is_digit c then read_digits (v * 10 + (c - 48)) (suc n) s else (v, n, c ∷ s)

-- `(?:\.\d+)?`; a dot with no digit behind it matches nothing that may follow.
unfoldable pub read_fraction : ℕ → Text → Option (ℕ × ℕ × Text)
unfolding read_digits
read_fraction v [] = some (v, 0, [])
read_fraction v (c ∷ s) =
    if nat_beq c 46
    then (let (w, places, rest) = read_digits v 0 s in
        if nat_beq places 0 then none else some (w, places, rest))
    else some (v, 0, c ∷ s)

unfoldable pub read_amount : Text → Option (ℕ × ℕ × Text)
unfolding read_digits read_fraction
read_amount s =
    let (v, n, rest) = read_digits 0 0 s in if nat_beq n 0 then none else read_fraction v rest

-- `(?:\s*(?P<code>[A-Za-z]{3}))?\s*$`
unfoldable pub read_code : Text → Option (Option Text)
unfolding is_letter skip_spaces
read_code [] = some none
read_code (a ∷ b ∷ c ∷ s) =
    if is_letter a && is_letter b && is_letter c
    then (elim (skip_spaces s) [ [] ↦ some (some (a ∷ b ∷ c ∷ [])) | _ ∷ _ ↦ none ])
    else none
read_code _ = none

-- `_SYMBOLS`
unfoldable pub symbol_currency : ℕ → Option Text
symbol_currency c =
    if nat_beq c 36
    then some (codes "USD")
    else if nat_beq c 8364
    then some (codes "EUR")
    else if nat_beq c 163
    then some (codes "GBP")
    else none

-- What `_PRICE` finds: the symbol's currency, the amount's digits and places, the code.
pub record Match : Type 0 where
  pub symbol : Option Text
  pub digits : ℕ
  pub places : ℕ
  pub code : Option Text

match_amount : Option Text → Text → Option Match
unfolding read_amount read_code
match_amount symbol s = elim (read_amount (skip_spaces s)) [
  | none ↦ none
  | some (v, places, rest) ↦ elim (read_code (skip_spaces rest)) [
    | none ↦ none
    | some code ↦ some (record { symbol = symbol; digits = v; places = places; code = code })
  ]
]

match_symbol : Text → Option Match
unfolding match_amount symbol_currency
match_symbol [] = match_amount none []
match_symbol (c ∷ s) = elim (symbol_currency c) [
  | none ↦ match_amount none (c ∷ s)
  | some cur ↦ match_amount (some cur) s
]

unfoldable pub match_price : Text → Option Match
unfolding match_symbol
match_price s = match_symbol (skip_spaces s)

-- The currency that a match announces, if it announces one only.
unfoldable pub announced : Match → Text → Result Error Text
unfolding to_upper
announced m default = elim m.symbol [
  | none ↦ elim m.code [ none ↦ ok default | some c ↦ ok (map to_upper c) ]
  | some cur ↦ elim m.code [
    | none ↦ ok cur
    | some c ↦ if cur == map to_upper c then ok cur else err two_currencies
  ]
]

unfoldable pub parse_text : Text → Text → Result Error Price
parse_text s default = elim (match_price s) [
  | none ↦ err unreadable_price
  | some m ↦ elim (announced m default) [
    | err e ↦ err e
    | ok currency ↦ elim (quantize (pos (round_half_up m.digits m.places))) [
      | err e ↦ err unreadable_price
      | ok amount ↦
          if ltb_ℤ amount (pos 0)
          then err negative_price
          else ok (record { amount = amount; currency = currency })
    ]
  ]
]

unfoldable pub parse_price : Raw → Text → Result Error Price
parse_price (Raw.price p) default = ok p
parse_price (Raw.text s) default = parse_text s default
parse_price Raw.other default = err unreadable_price
