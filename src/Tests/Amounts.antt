-- ===== src/Tests/Amounts.antt =====
-- Amounts of money, rounded and as texts.
use bitcart.Base.{◌-◌, ◌*◌, ◌^◌, ◌≤◌, ◌<◌, ◌≡◌, ◌⊎◌, refl, true, some, List, [], ◌∷◌, arith}
use bitcart.Money.{
  Decimal, half_even, precision, rescaled, quantize, truncate, Piece, digit, point, separator,
  minus, currency_sign, digits_on, digits_of, fraction, comma, groups, reversed, point_of,
  whole_part, tail_of, built, moneyfmt,
}
use bitcart.Money.Nearest.{Nearest, truncate-Nearest, truncate-again}
use bitcart.Money.Text.{read_number, moneyfmt-read_number}

-- -1234.565
abbrev owed : Decimal
owed = record { negative = true; coefficient = 1234565; places = 3 }

abbrev owed_cents : Decimal
owed_cents = record { negative = true; coefficient = 123456; places = 2 }

round_owed : truncate owed 2 ≡ some owed_cents
unfolding truncate quantize rescaled half_even precision
round_owed = refl

truncate-Nearest_example :
    (owed_cents.places ≡ 2)
    × (owed_cents.negative ≡ owed.negative)
    × (((owed.places ≤ 2) × (owed_cents.coefficient ≡ owed.coefficient * 10 ^ (2 - owed.places)))
        ⊎ ((2 < owed.places)
            × Nearest owed.coefficient (10 ^ (owed.places - 2)) owed_cents.coefficient))
truncate-Nearest_example = truncate-Nearest owed owed_cents 2 (ground arith) round_owed

truncate-again_example : truncate owed_cents 2 ≡ some owed_cents
truncate-again_example = truncate-again owed owed_cents 2 (ground arith) round_owed

-- -$1,234.56, where 36 stands for the symbol
abbrev owed_text : List Piece
owed_text =
    minus
    ∷ currency_sign 36
    ∷ digit 1
    ∷ separator
    ∷ digit 2
    ∷ digit 3
    ∷ digit 4
    ∷ point
    ∷ digit 5
    ∷ digit 6
    ∷ []

print_cents : moneyfmt owed_cents 2 (some 36) true ≡ some owed_text
unfolding moneyfmt quantize rescaled precision built digits_of digits_on fraction point_of
    whole_part groups comma tail_of reversed
print_cents = refl

moneyfmt-read_number_example : quantize 2 owed_cents ≡ some (read_number owed_text)
moneyfmt-read_number_example =
    moneyfmt-read_number owed_cents 2 (some 36) true owed_text print_cents
