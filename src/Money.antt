-- ===== src/Money.antt =====
-- Amounts of money: api/ext/moneyformat/__init__.py. A number is a sign, a coefficient and how many of
-- its digits stand after the point, as in Python's `decimal`; a number with a positive exponent is
-- written out with its zeros. A text is a list of pieces, and `none` is an exception.
pub mod Nearest
pub mod Text
use bitcart.Base.{
  ℕ, zero, suc, ◌+◌, ◌-◌, ◌*◌, ◌/◌, ◌%◌, ◌^◌, Bool, true, false, Option, none, some, List, [], ◌∷◌,
  ◌++◌, ltb, leb, ◌==◌, if◌then◌else◌, ◌>>=◌, or_else, not, ◌&&◌, is_some,
}
use bitcart.Base.Dict.{Dict, lookup}

pub record Decimal : Type 0 where
  pub negative : Bool
  pub coefficient : ℕ
  pub places : ℕ

-- `c / d` to the nearest whole number, ties to the even one (`ROUND_HALF_EVEN`).
unfoldable pub half_even : ℕ → ℕ → ℕ
half_even c d =
    let q = c / d in
    let r = c % d in if ltb (2 * r) d then q else if ltb d (2 * r) then q + 1 else q + q % 2

-- The digits that a number may have in the default context of `decimal`.
unfoldable pub precision : ℕ
precision = 28

-- The coefficient of the number with another number of places.
unfoldable pub rescaled : ℕ → Decimal → ℕ
rescaled p v =
    if leb v.places p
    then v.coefficient * 10 ^ (p - v.places)
    else half_even v.coefficient (10 ^ (v.places - p))

-- `value.quantize(Decimal(10) ** -p)`
unfoldable pub quantize : ℕ → Decimal → Option Decimal
quantize p v =
    if ltb (rescaled p v) (10 ^ precision)
    then some (record { negative = v.negative; coefficient = rescaled p v; places = p })
    else none

unfoldable pub truncate : Decimal → ℕ → Option Decimal
truncate v p = if p == 0 then some v else quantize p v

pub data Piece : Type 0 where
  digit : ℕ → Piece
  point separator minus : Piece
  currency_sign : ℕ → Piece

-- The digits of the number, the last one first, on fuel; no number of `n` digits needs more than `n`.
unfoldable pub digits_on : ℕ → ℕ → List ℕ
digits_on zero c = []
digits_on (suc n) c = let rest = digits_on n (c / 10) in if c == 0 then [] else c % 10 ∷ rest

-- The digits of `as_tuple()`, the last one first.
unfoldable pub digits_of : ℕ → List ℕ
digits_of c = if c == 0 then 0 ∷ [] else digits_on c c

-- The first loop: the digits after the point, and those that are left.
unfoldable pub fraction : ℕ → List ℕ → List Piece × List ℕ
fraction zero ds = ([], ds)
fraction (suc n) [] = let (ps, left) = fraction n [] in (digit 0 ∷ ps, left)
fraction (suc n) (d ∷ ds) = let (ps, left) = fraction n ds in (digit d ∷ ps, left)

-- `sep` is a comma or empty.
unfoldable pub comma : Bool → List Piece
comma true = separator ∷ []
comma false = []

-- The second loop: the digits before the point, in groups of three; `i` is how many the group has.
unfoldable pub groups : Bool → ℕ → List ℕ → List Piece
groups sep i [] = []
groups sep i (d ∷ []) = digit d ∷ []
groups sep i (d ∷ e ∷ ds) =
    let new_group = groups sep 0 (e ∷ ds) in
    let same_group = groups sep (i + 1) (e ∷ ds) in
    if i + 1 == 3 then digit d ∷ (comma sep ++ new_group) else digit d ∷ same_group

unfoldable pub reversed : List Piece → List Piece
reversed [] = []
reversed (p ∷ ps) = reversed ps ++ p ∷ []

unfoldable pub point_of : ℕ → List Piece
point_of zero = []
point_of (suc n) = point ∷ []

unfoldable pub whole_part : Bool → List ℕ → List Piece
whole_part sep [] = digit 0 ∷ []
whole_part sep (d ∷ ds) = groups sep 0 (d ∷ ds)

-- The currency symbol and the sign.
unfoldable pub tail_of : Option ℕ → Bool → List Piece
tail_of none negative = if negative then minus ∷ [] else []
tail_of (some s) negative = currency_sign s ∷ (if negative then minus ∷ [] else [])

-- The pieces in the order of `build`.
unfoldable pub built : Decimal → Option ℕ → Bool → List Piece
built v curr sep =
    let loop = fraction v.places (digits_of v.coefficient) in
    loop.0 ++ (point_of v.places ++ (whole_part sep loop.1 ++ tail_of curr v.negative))

unfoldable pub moneyfmt : Decimal → ℕ → Option ℕ → Bool → Option (List Piece)
moneyfmt v places curr sep = quantize places v >>= λ q. some (reversed (built q curr sep))

pub record CurrencyData : Type 0 where
  pub divisibility : ℕ
  pub symbol : Option ℕ

-- `get_currency_data`, where a currency that is not in the table has the divisibility of USD.
unfoldable pub get_currency_data : ℕ → Dict CurrencyData → ℕ → Option CurrencyData
get_currency_data usd table currency = elim (lookup currency table) [
  | some c ↦ some c
  | none ↦ lookup usd table >>= λ u. some (record { divisibility = u.divisibility; symbol = none })
]

-- `divisibility or d`
unfoldable pub places_for : Option ℕ → ℕ → ℕ
places_for none d = d
places_for (some n) d = if n == 0 then d else n

unfoldable pub normalize : ℕ → Dict CurrencyData → ℕ → Decimal → Option ℕ → Option Decimal
normalize usd table currency v divisibility = get_currency_data usd table currency >>= λ c.
    truncate v (places_for divisibility c.divisibility)

-- How the currency's code follows a text.
pub data Suffix : Type 0 where
  no_code code code_in_brackets : Suffix

unfoldable pub format_currency :
    ℕ → Dict CurrencyData → ℕ → Decimal → Bool → Option ℕ → Option (List Piece × Suffix)
format_currency usd table currency v fancy divisibility =
    get_currency_data usd table currency >>= λ c.
    moneyfmt v (places_for divisibility c.divisibility) (if fancy then c.symbol else none) fancy
    >>= λ t.
        some (t, if not fancy then no_code else if is_some c.symbol then code_in_brackets else code)

unfoldable pub format_decimal :
    ℕ → Dict CurrencyData → ℕ → Decimal → Option ℕ → Option (List Piece × Suffix)
format_decimal usd table currency v divisibility =
    format_currency usd table currency v false divisibility
