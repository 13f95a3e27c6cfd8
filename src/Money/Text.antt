-- ===== src/Money/Text.antt =====
-- The text of an amount, read back: `moneyfmt` and `format_decimal` of api/ext/moneyformat/__init__.py.
use bitcart.Base.{
  ℕ, zero, suc, ◌+◌, ◌*◌, ◌/◌, ◌≤◌, ◌≡◌, refl, Bool, true, false, Option, none, some, List, [], ◌∷◌,
  ◌++◌, ◌==◌, if◌then◌else◌, arith, ap, sym, ◌∙◌, Option-cases, Bool-cases, inl, inr, append_assoc,
  not,
}
use bitcart.Money.{
  Decimal, quantize, Piece, digit, point, separator, minus, currency_sign, digits_on, digits_of,
  fraction, comma, groups, reversed, point_of, whole_part, tail_of, built, moneyfmt,
}

-- What has been read of a text.
record Reading : Type 0 where
  number : Decimal
  after_point : Bool

-- One more piece, from left to right.
unfoldable advance : Reading → Piece → Reading
advance r (digit d) = record r {
  number = record r.number {
    coefficient = 10 * r.number.coefficient + d;
    places = if r.after_point then suc r.number.places else r.number.places;
  };
}
advance r point = record r { after_point = true }
advance r separator = r
advance r minus = record r { number = record r.number { negative = true } }
advance r (currency_sign s) = r

unfoldable advances : Reading → List Piece → Reading
advances r [] = r
advances r (p ∷ ps) = advances (advance r p) ps

unfoldable nothing_read : Reading
nothing_read = record {
  number = record { negative = false; coefficient = 0; places = 0 };
  after_point = false;
}

-- The number that a text stands for.
unfoldable pub read_number : List Piece → Decimal
unfolding advance advances nothing_read
read_number ps = (advances nothing_read ps).number

advances-append :
    (r : Reading) (ps qs : List Piece) → advances r (ps ++ qs) ≡ advances (advances r ps) qs
unfolding advances
advances-append r [] qs = refl
advances-append r (p ∷ ps) qs = advances-append (advance r p) ps qs

-- Reading of pieces that are in the order of `build`.
unfoldable backwards : List Piece → Reading
backwards [] = nothing_read
backwards (p ∷ ps) = advance (backwards ps) p

backwards-reversed : (ps : List Piece) → advances nothing_read (reversed ps) ≡ backwards ps
unfolding reversed backwards advances
backwards-reversed [] = refl
backwards-reversed (p ∷ ps) =
    advances-append nothing_read (reversed ps) (p ∷ [])
    ∙ ap (λ r. advance r p) (backwards-reversed ps)

unfoldable value : List ℕ → ℕ
value [] = 0
value (d ∷ ds) = 10 * value ds + d

value-digits_on : (n c : ℕ) → c ≤ n → value (digits_on n c) ≡ c
unfolding value digits_on
value-digits_on zero c h = omega (arith, h)
value-digits_on (suc n) c h = elim (Bool-cases (c == 0)) [
  | inl e ↦ rw (digits_on, e) (ground (arith, e))
  | inr e ↦
      let rest : value (digits_on n (c / 10)) ≡ c / 10 =
        value-digits_on n (c / 10) (ground (arith, e, h)) in
      rw (digits_on, e, rest) (ground arith)
]

value-digits_of : (c : ℕ) → value (digits_of c) ≡ c
unfolding value digits_of
value-digits_of c = ground (arith, value-digits_on c c)

abbrev reading : Bool → ℕ → ℕ → Bool → Reading
reading negative c k after_point = record {
  number = record { negative = negative; coefficient = c; places = k };
  after_point = after_point;
}

backwards-tail_of :
    (curr : Option ℕ) (negative : Bool)
    → backwards (tail_of curr negative) ≡ reading negative 0 0 false
unfolding backwards tail_of advance nothing_read
backwards-tail_of none true = refl
backwards-tail_of none false = refl
backwards-tail_of (some s) true = refl
backwards-tail_of (some s) false = refl

backwards-comma : (sep : Bool) (ps : List Piece) → backwards (comma sep ++ ps) ≡ backwards ps
unfolding backwards comma advance
backwards-comma true ps = refl
backwards-comma false ps = refl

backwards-groups :
    (sep negative : Bool) (i : ℕ) (ds : List ℕ) (t : List Piece)
    → backwards t ≡ reading negative 0 0 false
    → backwards (groups sep i ds ++ t) ≡ reading negative (value ds) 0 false
unfolding backwards groups advance value
backwards-groups sep negative i [] t h = h
backwards-groups sep negative i (d ∷ []) t h = ap (λ r. advance r (digit d)) h
backwards-groups sep negative i (d ∷ e ∷ ds) t h = elim (Bool-cases (i + 1 == 3)) [
  | inl full ↦
      rw (groups, full, append_assoc, backwards-comma)
        (ap (λ r. advance r (digit d)) (backwards-groups sep negative 0 (e ∷ ds) t h))
  | inr more ↦
      rw (groups, more)
        (ap (λ r. advance r (digit d)) (backwards-groups sep negative (i + 1) (e ∷ ds) t h))
]

backwards-whole_part :
    (sep negative : Bool) (ds : List ℕ) (t : List Piece)
    → backwards t ≡ reading negative 0 0 false
    → backwards (whole_part sep ds ++ t) ≡ reading negative (value ds) 0 false
unfolding backwards whole_part advance value
backwards-whole_part sep negative [] t h = ap (λ r. advance r (digit 0)) h
backwards-whole_part sep negative (d ∷ ds) t h = backwards-groups sep negative 0 (d ∷ ds) t h

backwards-fraction :
    (negative : Bool) (n : ℕ) (ds : List ℕ) (t : List Piece)
    → backwards t ≡ reading negative (value (fraction n ds).1) 0 true
    → backwards ((fraction n ds).0 ++ t) ≡ reading negative (value ds) n true
unfolding backwards fraction advance value
backwards-fraction negative zero ds t h = h
backwards-fraction negative (suc n) [] t h =
    ap (λ r. advance r (digit 0)) (backwards-fraction negative n [] t h)
backwards-fraction negative (suc n) (d ∷ ds) t h =
    ap (λ r. advance r (digit d)) (backwards-fraction negative n ds t h)

backwards-parts :
    (negative : Bool) (places : ℕ) (ds : List ℕ) (curr : Option ℕ) (sep : Bool)
    → backwards (
        (fraction places ds).0
        ++ (point_of places ++ (whole_part sep (fraction places ds).1 ++ tail_of curr negative)))
      ≡ reading negative (value ds) places (not (places == 0))
unfolding fraction point_of backwards advance
backwards-parts negative zero ds curr sep =
    backwards-whole_part sep negative ds (tail_of curr negative) (backwards-tail_of curr negative)
backwards-parts negative (suc n) ds curr sep =
    let whole : List ℕ = (fraction (suc n) ds).1 in
    let some_places : (suc n == 0) ≡ false = ground arith in
    rw some_places (
      backwards-fraction negative (suc n) ds
        (point ∷ (whole_part sep whole ++ tail_of curr negative))
        (ap (λ r. advance r point)
          (backwards-whole_part sep negative whole (tail_of curr negative)
            (backwards-tail_of curr negative))))

read_number-built :
    (v : Decimal) (curr : Option ℕ) (sep : Bool) → read_number (reversed (built v curr sep)) ≡ v
unfolding built read_number
read_number-built v curr sep =
    ap (λ r. r.number)
      (backwards-reversed (built v curr sep)
        ∙ backwards-parts v.negative v.places (digits_of v.coefficient) curr sep)
    ∙ ap (λ c. record { negative = v.negative; coefficient = c; places = v.places })
        (value-digits_of v.coefficient)

-- The text of an amount, with or without the symbol and the groups, reads as the amount in the places
-- that are asked for: no digit is lost, whatever the number of digits.
pub moneyfmt-read_number :
    (v : Decimal) (places : ℕ) (curr : Option ℕ) (sep : Bool) (t : List Piece)
    → moneyfmt v places curr sep ≡ some t
    → quantize places v ≡ some (read_number t)
unfolding moneyfmt read_number
moneyfmt-read_number v places curr sep t h = elim (Option-cases (quantize places v)) [
  | inl e ↦ absurd (ground (arith, h, e))
  | inr (q, e) ↦
      let text : reversed (built q curr sep) ≡ t = ground (arith, h, e) in
      e ∙ ap some (sym (read_number-built q curr sep) ∙ ap read_number text)
]
