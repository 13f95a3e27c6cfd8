-- ===== src/Money/Nearest.antt =====
-- Rounding: `truncate` of api/ext/moneyformat/__init__.py.
use bitcart.Base.{
  ℕ, ◌+◌, ◌-◌, ◌*◌, ◌/◌, ◌%◌, ◌^◌, ◌≤◌, ◌<◌, ◌≡◌, ◌≢◌, ◌⊎◌, refl, true, false, some, leb, ltb,
  ltb→lt, ◌==◌, arith, ap, sym, ◌∙◌, Bool-cases, inl, inr,
}
use bitcart.Money.{Decimal, half_even, precision, rescaled, quantize, truncate}
use native.Mathlib.Nat.{mod-lt, mod-add-div', add-mul, one-le-pow}

-- `q` is the nearest whole number to `c / d`, and the even one of two that are as near.
pub record Nearest (c d q : ℕ) : Type 0 where
  pub not_below : (2 * c < 2 * (q * d) + d) ⊎ ((2 * c ≡ 2 * (q * d) + d) × (q % 2 ≡ 0))
  pub not_above : (2 * (q * d) < 2 * c + d) ⊎ ((2 * (q * d) ≡ 2 * c + d) × (q % 2 ≡ 0))

mod_two : (q : ℕ) → (q % 2 ≡ 0) ⊎ (q % 2 ≡ 1)
mod_two q = omega arith

module _ (c d q r : ℕ) (positive : 0 < d) (split : r + q * d ≡ c) (small : r < d) where
  below-Nearest : 2 * r < d → Nearest c d q
  below-Nearest near = record {
    not_below = inl (omega (arith, split, near));
    not_above = inl (omega (arith, split, positive));
  }

  above-Nearest : d < 2 * r → Nearest c d (q + 1)
  above-Nearest far =
      let next : (q + 1) * d ≡ q * d + d = omega (arith, add-mul q 1 d) in
      record {
        not_below = inl (omega (arith, split, small, next));
        not_above = inl (omega (arith, split, far, next));
      }

  tie-Nearest : 2 * r ≡ d → Nearest c d (q + q % 2)
  tie-Nearest half = elim (mod_two q) [
    | inl even ↦
        let same : q + q % 2 ≡ q = omega (arith, even) in
        rw same (record {
          not_below = inr (omega (arith, split, half), even);
          not_above = inl (omega (arith, split, positive));
        })
    | inr odd ↦
        let same : q + q % 2 ≡ q + 1 = omega (arith, odd) in
        let next : (q + 1) * d ≡ q * d + d = omega (arith, add-mul q 1 d) in
        rw same (record {
          not_below = inl (omega (arith, split, half, positive, next));
          not_above = inr (omega (arith, split, half, next), omega (arith, odd));
        })
  ]

half_even-Nearest : (c d : ℕ) → 0 < d → Nearest c d (half_even c d)
unfolding half_even
half_even-Nearest c d h =
    let split = mod-add-div' c d in
    let small = mod-lt c h in
    elim (Bool-cases (ltb (2 * (c % d)) d)) [
      | inl near ↦
          rw (half_even, near)
            (below-Nearest c d (c / d) (c % d) h split small (ltb→lt (2 * (c % d)) d near))
      | inr not_near ↦ elim (Bool-cases (ltb d (2 * (c % d)))) [
        | inl far ↦
            rw (half_even, not_near, far)
              (above-Nearest c d (c / d) (c % d) h split small (ltb→lt d (2 * (c % d)) far))
        | inr not_far ↦
            rw (half_even, not_near, not_far)
              (tie-Nearest c d (c / d) (c % d) h split small (ground (arith, not_near, not_far)))
      ]
    ]

rescaled-exact :
    (p : ℕ) (v : Decimal) → v.places ≤ p → rescaled p v ≡ v.coefficient * 10 ^ (p - v.places)
unfolding rescaled
rescaled-exact p v le = let no_more : leb v.places p ≡ true = ground (arith, le) in rw no_more refl

rescaled-Nearest :
    (p : ℕ) (v : Decimal)
    → p < v.places
    → Nearest v.coefficient (10 ^ (v.places - p)) (rescaled p v)
unfolding rescaled
rescaled-Nearest p v lt =
    let more : leb v.places p ≡ false = ground (arith, lt) in
    rw (rescaled, more)
      (half_even-Nearest v.coefficient (10 ^ (v.places - p))
        (one-le-pow (v.places - p) 10 (omega arith)))

quantize-some :
    (p : ℕ) (v w : Decimal)
    → quantize p v ≡ some w
    → (w.places ≡ p)
      × (w.negative ≡ v.negative)
      × (w.coefficient ≡ rescaled p v)
      × (ltb (rescaled p v) (10 ^ precision) ≡ true)
unfolding quantize
quantize-some p v w h = elim (Bool-cases (ltb (rescaled p v) (10 ^ precision))) [
  | inl fits ↦
      let same : record { negative = v.negative; coefficient = rescaled p v; places = p } ≡ w =
        ground (arith, h, fits) in
      (
        ap (λ d. d.places) (sym same),
        ap (λ d. d.negative) (sym same),
        ap (λ d. d.coefficient) (sym same),
        fits,
      )
  | inr too_long ↦ absurd (ground (arith, h, too_long))
]

truncate-quantize : (v w : Decimal) (p : ℕ) → p ≢ 0 → truncate v p ≡ some w → quantize p v ≡ some w
unfolding truncate
truncate-quantize v w p some_places h = ground (arith, some_places, h)

le_or_lt : (a b : ℕ) → (a ≤ b) ⊎ (b < a)
le_or_lt a b = omega arith

-- An amount that is truncated to `p` places, where `p` is not 0, has `p` places and keeps its sign. It is
-- exact if it had at most `p` places, and is otherwise rounded to the nearest amount, a tie to an even
-- last digit.
pub truncate-Nearest :
    (v w : Decimal) (p : ℕ)
    → p ≢ 0
    → truncate v p ≡ some w
    → (w.places ≡ p)
      × (w.negative ≡ v.negative)
      × (((v.places ≤ p) × (w.coefficient ≡ v.coefficient * 10 ^ (p - v.places)))
          ⊎ ((p < v.places) × Nearest v.coefficient (10 ^ (v.places - p)) w.coefficient))
truncate-Nearest v w p some_places h =
    let (places, sign, amount, fits) =
      quantize-some p v w (truncate-quantize v w p some_places h) in
    (
      places,
      sign,
      elim (le_or_lt v.places p) [
        | inl le ↦ inl (le, amount ∙ rescaled-exact p v le)
        | inr lt ↦ inr (lt, rw amount (rescaled-Nearest p v lt))
      ],
    )

-- What has been truncated to some places is left as it is by truncating it to them again.
pub truncate-again : (v w : Decimal) (p : ℕ) → p ≢ 0 → truncate v p ≡ some w → truncate w p ≡ some w
unfolding truncate quantize
truncate-again v w p some_places h =
    let (places, sign, amount, fits) =
      quantize-some p v w (truncate-quantize v w p some_places h) in
    let zero_more : p - w.places ≡ 0 = omega (arith, places) in
    let same : rescaled p w ≡ w.coefficient =
      rescaled-exact p w (omega (arith, places)) ∙ rw zero_more (omega arith) in
    let fits_again : ltb w.coefficient (10 ^ precision) ≡ true = rw amount fits in
    let other_places : (p == 0) ≡ false = ground (arith, some_places) in
    rw (other_places, same, fits_again, sym places) refl
