-- ===== src/Rates/Cycles.antt =====
-- Rules that refer to each other without an end: the bound of the depth of api/ext/fxrate.py.
use bitcart.Base.{ℕ, zero, suc, Option, some, ◌≡◌, refl}
use bitcart.Rates.{
  Ident, Pair, pair_of, Rules, find_candidate, resolve, Decimals, Quotes, visit, lookup_rate,
  max_depth,
}
use bitcart.Rates.Expr.{name}
use bitcart.Rates.Calculate.{no_quotes, rules_of, calculate_rules}
use bitcart.Rates.Reads.{calculate_rules-every_quote}

-- The rule of each of the pairs is the name of one of them.
pub record IsCyclic (rs : Rules) (Among : Pair → Type 0) : Type 0 where
  pub next :
      (p : Pair)
      → Among p
      → (q : Pair) × (i : Ident) × (j : Pair) × (find_candidate rs p ≡ some (q, name i))
        × (pair_of i ≡ some j)
        × Among (resolve p j)

module _ (N : Decimals) (quotes : Quotes N) (rs : Rules) (Among : Pair → Type 0)
    (cyclic : IsCyclic rs Among) where
  lookup_rate-IsCyclic :
      (n : ℕ) (p : Pair) → Among p → lookup_rate N quotes rs n p ≡ some (Decimals.nan N)
  unfolding lookup_rate visit
  lookup_rate-IsCyclic zero p a = refl
  lookup_rate-IsCyclic (suc n) p a =
      let (q, i, j, rule, pair, b) = cyclic.next p a in
      rw (rule, pair) (lookup_rate-IsCyclic n (resolve p j) b)

  visit-IsCyclic :
      (p j : Pair) (i : Ident)
      → pair_of i ≡ some j
      → Among (resolve p j)
      → visit N quotes (lookup_rate N quotes rs max_depth) p (name i) ≡ some (Decimals.nan N)
  unfolding visit
  visit-IsCyclic p j i pair b = rw pair (lookup_rate-IsCyclic max_depth (resolve p j) b)

-- The evaluation of a rule that is the bare name of another pair, whose rule is again a bare name, and so
-- on without an end, such as in a cycle of such rules, ends, with the rate NaN.
pub calculate_rules-IsCyclic :
    (N : Decimals) (coingecko : ℕ) (defaults : Rules) (given : Option Rules) (get_rate : Quotes N)
    (Among : Pair → Type 0) (p : Pair)
    → IsCyclic (rules_of coingecko defaults given) Among
    → Among p
    → (q : Pair) × (calculate_rules N coingecko defaults get_rate given p
        ≡ some (Decimals.nan N, q))
calculate_rules-IsCyclic N coingecko defaults given get_rate Among p cyclic a =
    let rs = rules_of coingecko defaults given in
    let (q, i, j, rule, pair, b) = cyclic.next p a in
    (
      q,
      rw
          (
            calculate_rules-every_quote,
            rule,
            visit-IsCyclic N (no_quotes N) rs Among cyclic p j i pair b,
            visit-IsCyclic N get_rate rs Among cyclic p j i pair b,
          )
          refl,
    )
