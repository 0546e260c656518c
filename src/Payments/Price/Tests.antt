-- ===== src/Payments/Price/Tests.antt =====
-- Prices read by `parse_price`.
use intermesh.Prelude.{codes, ◌≡◌, refl, text_beq}
use intermesh.Prelude.Int.{pos}
use intermesh.Prelude.Exec.{ok, err}
use intermesh.Payments.Errors.{two_currencies, unreadable_price}
use intermesh.Payments.Price.{Price}
use intermesh.Payments.Price.{parse_text, match_price, announced, round_half_up, quantize}

parse_dollar :
    parse_text (codes "$0.001") (codes "USD")
    ≡ ok (record { amount = pos 100000; currency = codes "USD" })
unfolding parse_text match_price announced round_half_up quantize
parse_dollar = refl

parse_code :
    parse_text (codes " 0.000000015 eur ") (codes "USD")
    ≡ ok (record { amount = pos 2; currency = codes "EUR" })
unfolding parse_text match_price announced round_half_up quantize
parse_code = refl

parse_errors :
    (parse_text (codes "$1 EUR") (codes "USD") ≡ err two_currencies)
    × (parse_text (codes "1.") (codes "USD") ≡ err unreadable_price)
unfolding parse_text match_price announced round_half_up quantize text_beq
parse_errors = (refl, refl)

abbrev one : Price
one = record { amount = pos 1; currency = codes "USD" }

abbrev two : Price
two = record { amount = pos 2; currency = codes "USD" }
