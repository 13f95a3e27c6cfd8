-- ===== src/Rates/Calculate.antt =====
-- The two visits of calculate_rules (api/ext/fxrate.py): one that collects the exchanges a rule asks,
-- one with their quotes.
use bitcart.Base.{
  ℕ, zero, suc, Option, none, some, List, [], ◌∷◌, ◌++◌, if◌then◌else◌, contains, ◌>>=◌,
}
use bitcart.Rates.{
  any, Ident, Pair, pair_of, Function, Expr, Args, Rules, find_candidate, resolve, Decimals, Quotes,
  visit, lookup_rate, single_name, max_depth,
}
use bitcart.Rates.Function.{exchange}
use bitcart.Rates.Expr.{name, call, binary, unary, constant}
use bitcart.Rates.Args.{nil, cons}

-- `transformer.exchanges` after a visit that ends, with those of a name in `below`.
abbrev pub exchanges_of : Function → List ℕ
exchanges_of (exchange x) = x ∷ []
exchanges_of _ = []

abbrev pub uses_pair : (Pair → List ℕ) → Pair → Option Pair → List ℕ
uses_pair below at none = []
uses_pair below at (some p) = below (resolve at p)

-- A single name as an argument is not visited.
abbrev pub uses_call : Option Ident → List ℕ → List ℕ → List ℕ
uses_call none arguments xs = arguments ++ xs
uses_call (some i) arguments xs = xs

unfoldable mutual
  pub uses : (Pair → List ℕ) → Pair → Expr → List ℕ
  uses below at (name i) = uses_pair below at (pair_of i)
  uses below at (constant c k) = []
  uses below at (unary g e) = uses below at e
  uses below at (binary op e f) = uses below at e ++ uses below at f
  uses below at (call g args) =
      uses_call (single_name args) (uses_all below at args) (exchanges_of g)

  pub uses_all : (Pair → List ℕ) → Pair → Args → List ℕ
  uses_all below at nil = []
  uses_all below at (cons e es) = uses below at e ++ uses_all below at es

abbrev pub uses_candidate : (Pair → List ℕ) → Pair → Option (Pair × Expr) → List ℕ
uses_candidate below p none = []
uses_candidate below p (some (q, e)) = uses below p e

unfoldable pub uses_rule : Rules → ℕ → Pair → List ℕ
uses_rule rs zero p = []
uses_rule rs (suc n) p = uses_candidate (uses_rule rs n) p (find_candidate rs p)

-- What `get_rate` gives for the exchanges of the first visit.
unfoldable pub restricted : (N : Decimals) → List ℕ → Quotes N → Quotes N
restricted N xs quotes x p = if contains x xs then quotes x p else none

abbrev pub no_quotes : (N : Decimals) → Quotes N
no_quotes N x p = none

-- `get_default_rules`, X_X = coingecko(X_X)
unfoldable pub default_rules_for : ℕ → Rules
default_rules_for coingecko =
    ((any, any), call (exchange coingecko) (cons (name (any ∷ any ∷ [])) nil)) ∷ []

-- The coin-specific rules and those of the text; the default ones only where the text is empty.
unfoldable pub rules_of : ℕ → Rules → Option Rules → Rules
rules_of coingecko defaults none = defaults ++ default_rules_for coingecko
rules_of coingecko defaults (some rs) = defaults ++ rs

-- `calculate_rules`: the rate and the pair of its rule.
unfoldable pub calculate_rules :
    (N : Decimals)
    → (coingecko : ℕ) → (defaults : Rules) → (get_rate : Quotes N) → Option Rules
    → Pair
    → Option (Decimals.D N × Pair)
calculate_rules N coingecko defaults get_rate given p =
    let rs = rules_of coingecko defaults given in
    find_candidate rs p >>= λ (q, e).
    visit N (no_quotes N) (lookup_rate N (no_quotes N) rs max_depth) p e >>= λ _.
    let asked = restricted N (uses (uses_rule rs max_depth) p e) get_rate in
    visit N asked (lookup_rate N asked rs max_depth) p e >>= λ rate. some (rate, q)
