-- ===== src/Rates/Inverse.antt =====
-- Rules that calculate_rules (api/ext/fxrate.py) does not evaluate as they are written.
use bitcart.Base.{ℕ, true, false, Option, none, some, [], ◌∷◌, ◌==◌, ◌>>=◌, ◌≡◌, ◌≢◌, refl, arith}
use bitcart.Rates.{
  any, Pair, same_pair, pair_of, Expr, rule_for, find_candidate, inverted, filled, Decimals, Quotes,
  visit, call_value, call_on_pair, call_on_values, lookup_rate, max_depth,
}
use bitcart.Rates.Operator.{over}
use bitcart.Rates.Expr.{name, call}
use bitcart.Rates.Args.{nil, cons}
use bitcart.Rates.Function.{median, exchange}
use bitcart.Rates.Calculate.{calculate_rules, no_quotes, rules_of}
use bitcart.Rates.Reads.{calculate_rules-every_quote}
use bitcart.Rates.Candidates.{find_candidate-order}

-- L_R = x(L_R)
abbrev pub quoted : ℕ → Pair → Expr
quoted x (l, r) = call (exchange x) (cons (name (l ∷ r ∷ [])) nil)

pub rule_for-other :
    (p q : Pair) (e : Expr) → same_pair q p ≡ false → rule_for p ((q, e) ∷ []) ≡ none
unfolding rule_for
rule_for-other p q e other = rw other refl

pub rule_for-own :
    (p q : Pair) (e : Expr) → same_pair q p ≡ true → rule_for p ((q, e) ∷ []) ≡ some e
unfolding rule_for
rule_for-own p q e own = rw own refl

find_candidate-one_sided :
    (l r : ℕ) (e : Expr)
    → l ≢ any
    → r ≢ any
    → l ≢ r
    → find_candidate (((r, any), e) ∷ []) (l, r) ≡ some ((r, any), inverted true e)
find_candidate-one_sided l r e l_named r_named l_not_r =
    rw
      (
        find_candidate-order,
        rule_for-other (l, r) (r, any) e (ground (arith, l_not_r)),
        rule_for-other (r, l) (r, any) e (ground (arith, l_named)),
        rule_for-other (l, any) (r, any) e (ground (arith, l_not_r)),
        rule_for-other (any, r) (r, any) e (ground (arith, r_named)),
        rule_for-own (r, any) (r, any) e (ground arith),
      )
      refl

find_candidate-own : (p : Pair) (e : Expr) → find_candidate ((p, e) ∷ []) p ≡ some (p, e)
find_candidate-own (l, r) e =
    rw (find_candidate-order, rule_for-own (l, r) (l, r) e (ground arith)) refl

-- A visited call of an exchange on R_X gives 1 for a pair that ends in R.
visit-quoted_inverse :
    (N : Decimals) (quotes : Quotes N) (below : Pair → Option (Decimals.D N)) (l r x : ℕ)
    → r ≢ any
    → visit N quotes below (l, r) (inverted true (quoted x (r, any)))
      ≡ Decimals.apply N over (Decimals.decimal N 1 0) (Decimals.decimal N 1 0)
unfolding visit call_value call_on_pair pair_of
visit-quoted_inverse N quotes below l r x r_named =
    let r_kept : filled l r ≡ r = ground (arith, r_named) in
    let r_filled : filled r any ≡ r = ground arith in
    let same : (r == r) ≡ true = ground arith in rw (r_kept, r_filled, same) refl

twice : {A B : Type 0} (o : Option A) (f : A → Option B) → (o >>= λ _. o >>= f) ≡ (o >>= f)
twice none f = refl
twice (some a) f = refl

-- With R_X = x(R_X) as the only rule, the rate of L_R is 1 / 1, whatever the exchange quotes: the
-- inverse of the rule is evaluated for L_R, where R_X stands for R_R.
pub calculate_rules-one_sided :
    (N : Decimals) (coingecko x l r : ℕ) (get_rate : Quotes N)
    → l ≢ any
    → r ≢ any
    → l ≢ r
    → calculate_rules N coingecko [] get_rate (some (((r, any), quoted x (r, any)) ∷ [])) (l, r) ≡ (
        Decimals.apply N over (Decimals.decimal N 1 0) (Decimals.decimal N 1 0) >>= λ one.
        some (one, (r, any)))
unfolding rules_of
calculate_rules-one_sided N coingecko x l r get_rate l_named r_named l_not_r =
    rw
      (
        calculate_rules-every_quote,
        find_candidate-one_sided l r (quoted x (r, any)) l_named r_named l_not_r,
        visit-quoted_inverse N (no_quotes N)
            (lookup_rate N (no_quotes N) (((r, any), quoted x (r, any)) ∷ []) max_depth) l r x
            r_named,
        visit-quoted_inverse N get_rate
            (lookup_rate N get_rate (((r, any), quoted x (r, any)) ∷ []) max_depth) l r x r_named,
      )
      (twice (Decimals.apply N over (Decimals.decimal N 1 0) (Decimals.decimal N 1 0))
        (λ one. some (one, (r, any))))

-- A rule that takes the median of two quotes gives no rate, whatever the exchanges quote, as the
-- median of two NaN, which the first visit asks for, is an exception.
calculate_rules-median :
    (N : Decimals) (coingecko x y l r : ℕ) (get_rate : Quotes N)
    → l ≢ r
    → Decimals.median_of N (Decimals.nan N ∷ Decimals.nan N ∷ []) ≡ none
    → calculate_rules N coingecko [] get_rate
        (some (((l, r), call median (cons (quoted x (l, r)) (cons (quoted y (l, r)) nil))) ∷ []))
        (l, r)
      ≡ none
unfolding calculate_rules rules_of visit call_value call_on_pair pair_of call_on_values
calculate_rules-median N coingecko x y l r get_rate l_not_r no_median =
    let left_kept : filled l l ≡ l = ground arith in
    let right_kept : filled r r ≡ r = ground arith in
    let other : (l == r) ≡ false = ground (arith, l_not_r) in
    rw (find_candidate-own, left_kept, right_kept, other, no_median) refl
