-- ===== src/WalletData/Cheap.antt =====
-- The rates of coins that are worth about the smallest unit of the currency.
use bitcart.Base.{
  ℕ, ◌+◌, ◌-◌, ◌*◌, ◌/◌, ◌%◌, ◌^◌, ◌≤◌, ◌<◌, ◌≡◌, refl, Bool, true, false, none, some, leb, ltb,
  ◌==◌, if◌then◌else◌, arith, ◌∙◌, Bool-cases, inl, inr,
}
use bitcart.Base.Dict.{Dict}
use bitcart.Money.{
  Decimal, CurrencyData, half_even, rescaled, quantize, truncate, precision, normalize,
  get_currency_data, places_for,
}
use bitcart.WalletData.{value, Sources, found_rate, normalized, get_rate}
use native.Mathlib.Nat.{div-eq_of_lt, div-eq-sub-div, mod-eq_of_lt, mod-eq-sub-mod, one-le-pow}

-- A number below one and a half is rounded to 0 or 1.
half_even-small :
    (c d : ℕ) → 0 < d → 2 * c < 3 * d → half_even c d ≡ (if leb (2 * c) d then 0 else 1)
unfolding half_even
half_even-small c d h small = elim (Bool-cases (ltb c d)) [
  | inl e ↦
      let (q, r) : (c / d ≡ 0) × (c % d ≡ c) =
        (div-eq_of_lt (ground (arith, e)), mod-eq_of_lt (ground (arith, e))) in
      rw (q, r) (ground arith)
  | inr e ↦
      let above : d ≤ c = ground (arith, e) in
      let rest : c - d < d = omega (arith, small, above) in
      let q : c / d ≡ 1 = div-eq-sub-div h above ∙ omega (arith, div-eq_of_lt rest) in
      let r : c % d ≡ c - d = mod-eq-sub-mod above ∙ mod-eq_of_lt rest in
      rw (q, r) (ground (arith, above, small))
]

-- A coin whose rate is less than one and a half of the currency's smallest unit, and written with more
-- places.
rescaled-small :
    (u p : ℕ) (v : Decimal)
    → 0 < p
    → v.places ≡ u + p
    → 2 * v.coefficient < 3 * 10 ^ p
    → rescaled u v ≡ (if leb (2 * v.coefficient) (10 ^ p) then 0 else 1)
unfolding rescaled
rescaled-small u p v h e small =
    let more : leb v.places u ≡ false = ground (arith, h, e) in
    let past : v.places - u ≡ p = omega (arith, e) in
    rw (more, past) (half_even-small v.coefficient (10 ^ p) (omega (arith, one-le-pow p 10)) small)

-- Zero or one of the smallest unit, with the sign of the rate.
abbrev pub units : ℕ → ℕ → Decimal → Decimal
units u p v = record {
  negative = v.negative;
  coefficient = if leb (2 * v.coefficient) (10 ^ p) then 0 else 1;
  places = u;
}

units_fit : (n k : ℕ) → (if leb n k then 0 else 1) < 10 ^ precision
unfolding precision
units_fit n k = elim (Bool-cases (leb n k)) [
  | inl e ↦ rw e (omega arith)
  | inr e ↦ rw e (omega arith)
]

truncate-small :
    (u p : ℕ) (v : Decimal)
    → 0 < u
    → 0 < p
    → v.places ≡ u + p
    → 2 * v.coefficient < 3 * 10 ^ p
    → truncate v u ≡ some (units u p v)
unfolding truncate quantize
truncate-small u p v pos h e small =
    let named : (u == 0) ≡ false = ground (arith, pos) in
    let coefficient = rescaled-small u p v h e small in
    let fits : ltb (if leb (2 * v.coefficient) (10 ^ p) then 0 else 1) (10 ^ precision) ≡ true =
      ground (arith, units_fit (2 * v.coefficient) (10 ^ p)) in
    rw (named, coefficient, fits) refl

normalize-small :
    (usd currency p : ℕ) (table : Dict CurrencyData) (c : CurrencyData) (v : Decimal)
    → get_currency_data usd table currency ≡ some c
    → truncate v c.divisibility ≡ some (units c.divisibility p v)
    → normalize usd table currency v none ≡ some (units c.divisibility p v)
unfolding normalize places_for
normalize-small usd currency p table c v known small = rw (known, normalize) small

-- In a currency with at least one decimal place, a rate that is written with more places and is below one
-- and a half of the currency's smallest unit is given as the unit, if it is more than a half of it, and as
-- 0 otherwise: rates that differ by a factor of almost three become the same.
pub get_rate-cheap :
    (usd currency p : ℕ) (table : Dict CurrencyData) (c : CurrencyData) (fallback : Bool)
    (s : Sources) (v : Decimal)
    → get_currency_data usd table currency ≡ some c
    → 0 < c.divisibility
    → 0 < p
    → v.places ≡ c.divisibility + p
    → 2 * v.coefficient < 3 * 10 ^ p
    → found_rate currency fallback s ≡ value (false, some v)
    → get_rate usd table currency fallback s ≡ value (some (units c.divisibility p v))
unfolding get_rate normalized
get_rate-cheap usd currency p table c fallback s v known pos h e small found =
    let unit = truncate-small c.divisibility p v pos h e small in
    rw (found, get_rate) (rw (normalize-small usd currency p table c v known unit, normalized) refl)
