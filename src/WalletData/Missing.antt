-- ===== src/WalletData/Missing.antt =====
-- The rate of a coin that the exchange of a store's rule does not quote.
use bitcart.Base.{
  ℕ, ◌≡◌, ◌≢◌, refl, Bool, true, false, Option, none, some, List, [], ◌∷◌, ◌==◌, arith, ◌∙◌, ap,
}
use bitcart.Base.Dict.{Dict}
use bitcart.Money.{CurrencyData}
use bitcart.Rates.{
  any, Pair, Rules, pair_of, find_candidate, filled, Decimals, Quotes, visit, call_value,
  call_on_pair, lookup_rate, max_depth,
}
use bitcart.Rates.Calculate.{calculate_rules, no_quotes, rules_of}
use bitcart.Rates.Reads.{calculate_rules-every_quote}
use bitcart.Rates.Candidates.{find_candidate-order}
use bitcart.Rates.Inverse.{quoted, rule_for-other, rule_for-own}
use bitcart.Quotes
use bitcart.Quotes.{Exchange}
use bitcart.Quotes.Tickers.{Answers, refresh, Life, get_rate-never}
use bitcart.WalletData.{
  Outcome, value, Rate, one, Sources, contract_added, fall_back, found_rate, normalized, get_rate,
  by_rules,
}

-- X_X = x(X_X)
abbrev pub only : ℕ → Rules
only x = ((any, any), quoted x (any, any)) ∷ []

module _ (x l r : ℕ) (l_named : l ≢ any) (r_named : r ≢ any) (l_not_r : l ≢ r) where
  find_candidate-only : find_candidate (only x) (l, r) ≡ some ((any, any), quoted x (any, any))
  find_candidate-only =
      rw
        (
          find_candidate-order,
          rule_for-other (l, r) (any, any) (quoted x (any, any)) (ground (arith, l_named)),
          rule_for-other (r, l) (any, any) (quoted x (any, any)) (ground (arith, l_named)),
          rule_for-other (l, any) (any, any) (quoted x (any, any)) (ground (arith, l_named)),
          rule_for-other (any, r) (any, any) (quoted x (any, any)) (ground (arith, r_named)),
          rule_for-other (r, any) (any, any) (quoted x (any, any)) (ground (arith, r_named)),
          rule_for-other (any, l) (any, any) (quoted x (any, any)) (ground (arith, l_named)),
          rule_for-own (any, any) (any, any) (quoted x (any, any)) (ground arith),
        )
        refl

  module _ (N : Decimals) (quotes : Quotes N) (below : Pair → Option (Decimals.D N)) where
    -- Without a quote the rule gives NaN.
    visit-only :
        quotes x (l, r) ≡ none
        → visit N quotes below (l, r) (quoted x (any, any)) ≡ some (Decimals.nan N)
    unfolding visit call_value call_on_pair pair_of
    visit-only missing =
        let left : filled l any ≡ l = ground arith in
        let right : filled r any ≡ r = ground arith in
        let other : (l == r) ≡ false = ground (arith, l_not_r) in
        rw (left, right, other, missing) refl

  calculate_rules-only :
      (N : Decimals) (coingecko : ℕ) (quotes : Quotes N)
      → quotes x (l, r) ≡ none
      → calculate_rules N coingecko [] quotes (some (only x)) (l, r)
        ≡ some (Decimals.nan N, (any, any))
  unfolding rules_of
  calculate_rules-only N coingecko quotes missing =
      rw
        (
          calculate_rules-every_quote,
          find_candidate-only,
          visit-only N (no_quotes N) (lookup_rate N (no_quotes N) (only x) max_depth) refl,
          visit-only N quotes (lookup_rate N quotes (only x) max_depth) missing,
        )
        refl

-- The wallet of a native coin in a store with that rule, when no plugin filters rates.
abbrev pub in_store :
    (N : Decimals) → (Decimals.D N → Rate) → (coingecko l r : ℕ) → Quotes N → Option Rules → Sources
in_store N as_rate coingecko l r quotes rules = record {
  symbol = value l;
  add_contract = none;
  look_up = by_rules N as_rate coingecko r [] quotes rules;
  filters = value;
}

by_rules-only :
    (x l r : ℕ) (N : Decimals) (as_rate : Decimals.D N → Rate) (coingecko : ℕ) (quotes : Quotes N)
    → l ≢ any
    → r ≢ any
    → l ≢ r
    → as_rate (Decimals.nan N) ≡ none
    → quotes x (l, r) ≡ none
    → by_rules N as_rate coingecko r [] quotes (some (only x)) l ≡ value none
unfolding by_rules
by_rules-only x l r N as_rate coingecko quotes l_named r_named l_not_r is_nan missing =
    rw (calculate_rules-only x l r l_named r_named l_not_r N coingecko quotes missing, by_rules)
      (ap value is_nan)

found_rate-missing :
    (l r : ℕ) (f : ℕ → Outcome Rate)
    → l ≢ r
    → f l ≡ value none
    → found_rate r true
        (record { symbol = value l; add_contract = none; look_up = f; filters = value })
      ≡ value (false, some one)
unfolding found_rate contract_added fall_back
found_rate-missing l r f l_not_r e =
    let other : (l == r) ≡ false = ground (arith, l_not_r) in rw (other, e, found_rate) refl

-- A store has one rule, by which all rates are those of an exchange whose quotes come from CoinGecko's
-- tickers. Whatever CoinGecko answers at any time, the rate of a native coin in another currency is 1,
-- rounded to the places of the currency, if no plugin filters it.
pub get_rate-missing :
    (N : Decimals) (as_rate : Decimals.D N → Rate) (is_zero : Decimals.D N → Bool)
    (invert : Decimals.D N → Decimals.D N) (usd coingecko x l r now : ℕ) (table : Dict CurrencyData)
    (quotes : Quotes N) (e : Exchange (Decimals.D N)) (a : Answers (Decimals.D N)) (cache : List ℕ)
    → l ≢ any
    → r ≢ any
    → l ≢ r
    → as_rate (Decimals.nan N) ≡ none
    → Life is_zero invert e
    → quotes x (l, r) ≡ (Quotes.get_rate is_zero invert now (refresh a cache).1 (l ∷ r ∷ []) e).0
    → get_rate usd table r true (in_store N as_rate coingecko l r quotes (some (only x)))
      ≡ normalized usd table r (some one)
unfolding get_rate
get_rate-missing N as_rate is_zero invert usd coingecko x l r now table quotes e a cache l_named
      r_named l_not_r is_nan life asks =
    let missing = asks ∙ get_rate-never is_zero invert now a cache (l ∷ r ∷ []) life in
    let nan =
      by_rules-only x l r N as_rate coingecko quotes l_named r_named l_not_r is_nan missing in
    rw
      (
        found_rate-missing l r (by_rules N as_rate coingecko r [] quotes (some (only x))) l_not_r
            nan,
        get_rate,
      )
      refl
