-- ===== src/Tests/Rates.antt =====
-- The rules of exchange rates on whole numbers.
use bitcart.Base.{
  ℕ, zero, suc, ◌+◌, ◌-◌, ◌*◌, ◌/◌, ◌≡◌, ◌⊎◌, inl, inr, refl, Option, none, some, List, [], ◌∷◌,
  ◌>>=◌, true, false, ◌==◌, ◌&&◌, if◌then◌else◌,
}
use bitcart.Rates.{
  any, Rules, Decimals, Operator, Quotes, find_candidate, rule_for, visit, Pair, Ident, resolve,
  same_pair, sort_by_priority, with_rules, candidates_of, insert_by_priority, call_value, pair_of,
  call_on_pair,
}
use bitcart.Rates.Expr.{name, binary}
use bitcart.Rates.Operator.{plus, minus, times, over}
use bitcart.Rates.Calculate.{calculate_rules, rules_of, default_rules_for, restricted, uses}
use bitcart.Rates.Candidates.{written, ◌or_next◌, find_candidate-order}
use bitcart.Rates.Cycles.{calculate_rules-IsCyclic}
use bitcart.Rates.Inverse.{quoted}

abbrev operate : Operator → Option ℕ → Option ℕ → Option (Option ℕ)
operate _ none b = some none
operate _ (some a) none = some none
operate plus (some a) (some b) = some (some (a + b))
operate minus (some a) (some b) = some (some (a - b))
operate times (some a) (some b) = some (some (a * b))
operate over (some a) (some zero) = none
operate over (some a) (some (suc b)) = some (some (a / suc b))

abbrev mean_all : List (Option ℕ) → Option (Option ℕ)
mean_all (a ∷ b ∷ []) = operate plus a b >>= λ c. operate over c (some 2)
mean_all (a ∷ _) = some a
mean_all [] = none

-- Two numbers have to be compared.
abbrev median_all : List (Option ℕ) → Option (Option ℕ)
median_all (a ∷ []) = some a
median_all (some a ∷ some b ∷ []) = some (some ((a + b) / 2))
median_all _ = none

abbrev pub whole : Decimals
whole = record {
  D = Option ℕ;
  nan = none;
  decimal = λ n k. some n;
  apply = operate;
  signed = λ s d. some d;
  mean_of = mean_all;
  median_of = median_all;
  truncated = λ d k. some d;
}

abbrev btc : ℕ
btc = 1

abbrev usd : ℕ
usd = 2

abbrev eur : ℕ
eur = 3

-- The exchange 7 quotes BTC_USD as 100, the exchange 8 as 300.
abbrev market : Quotes whole
market x p =
    let at_8 = if x == 8 && same_pair p (btc, usd) then some (some 300) else none in
    if x == 7 && same_pair p (btc, usd) then some (some 100) else at_8

-- BTC_USD = 7(BTC_USD) + 8(BTC_USD)
abbrev sum_rule : Rules
sum_rule = ((btc, usd), binary plus (quoted 7 (btc, usd)) (quoted 8 (btc, usd))) ∷ []

sum_rate :
    calculate_rules whole 7 [] market (some sum_rule) (btc, usd) ≡ some (some 400, (btc, usd))
unfolding calculate_rules find_candidate sort_by_priority with_rules candidates_of rule_for rules_of
    default_rules_for insert_by_priority visit call_value pair_of call_on_pair restricted uses
sum_rate = refl

-- The rule of the other direction, inverted.
inverse_rate :
    calculate_rules whole 7 [] market (some (((btc, usd), quoted 7 (btc, usd)) ∷ [])) (usd, btc)
    ≡ some (some 0, (btc, usd))
unfolding calculate_rules find_candidate sort_by_priority with_rules candidates_of rule_for rules_of
    default_rules_for insert_by_priority visit call_value pair_of call_on_pair restricted uses
inverse_rate = refl

-- X_X = 7(X_X) is the rule without any.
default_rate : calculate_rules whole 7 [] market none (btc, usd) ≡ some (some 100, (any, any))
unfolding calculate_rules find_candidate sort_by_priority with_rules candidates_of rule_for rules_of
    default_rules_for insert_by_priority visit call_value pair_of call_on_pair restricted uses
default_rate = refl

find_candidate-order_example : find_candidate sum_rule (usd, btc) ≡ (
    written sum_rule false (usd, btc)
    or_next written sum_rule true (btc, usd)
    or_next written sum_rule false (usd, any)
    or_next written sum_rule false (any, btc)
    or_next written sum_rule true (btc, any)
    or_next written sum_rule true (any, usd)
    or_next written sum_rule false (any, any))
find_candidate-order_example = find_candidate-order sum_rule usd btc

-- USD_EUR = EUR_USD and EUR_USD = USD_EUR
abbrev circle : Rules
circle = ((usd, eur), name (eur ∷ usd ∷ [])) ∷ ((eur, usd), name (usd ∷ eur ∷ [])) ∷ []

abbrev InCircle : Pair → Type 0
InCircle p = (p ≡ (usd, eur)) ⊎ (p ≡ (eur, usd))

circle_next :
    (p : Pair)
    → InCircle p
    → (q : Pair) × (i : Ident) × (j : Pair) × (find_candidate (rules_of 7 [] (some circle)) p
        ≡ some (q, name i))
      × (pair_of i ≡ some j)
      × InCircle (resolve p j)
unfolding find_candidate sort_by_priority with_rules candidates_of rule_for rules_of
    insert_by_priority pair_of
circle_next p (inl e) = rw e ((usd, eur), eur ∷ usd ∷ [], (eur, usd), refl, refl, inr refl)
circle_next p (inr e) = rw e ((eur, usd), usd ∷ eur ∷ [], (usd, eur), refl, refl, inl refl)

calculate_rules-IsCyclic_example :
    (q : Pair) × (calculate_rules whole 7 [] market (some circle) (usd, eur) ≡ some (none, q))
calculate_rules-IsCyclic_example =
    calculate_rules-IsCyclic whole 7 [] (some circle) market InCircle (usd, eur)
      (record { next = circle_next }) (inl refl)
