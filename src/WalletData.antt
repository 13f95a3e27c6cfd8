-- ===== src/WalletData.antt =====
-- What the server asks of a wallet's coin: api/services/wallet_data.py. What the coin, the exchanges
-- and the plugins answer are arguments; currencies and symbols are compared in lower case.
pub mod Cheap
pub mod Missing
use bitcart.Base.{
  ℕ, zero, suc, ◌+◌, Bool, true, false, not, ◌&&◌, Option, none, some, List, [], ◌∷◌, ◌==◌,
  if◌then◌else◌, min, is_some,
}
use bitcart.Base.Dict.{Dict}
use bitcart.Money.{Decimal, CurrencyData, normalize, get_currency_data}
use bitcart.Rates.{Pair, Rules, Decimals, Quotes}
use bitcart.Rates.Calculate.{calculate_rules}

-- A value, one of the exceptions that `get_rate` handles, or another one.
pub data Outcome (A : Type 0) : Type 0 where
  value : A → Outcome A
  handled raised : Outcome A

module _ {A B : Type 0} where
  infixl 5 ◌then_by◌
  abbrev pub ◌then_by◌ : Outcome A → (A → Outcome B) → Outcome B
  value a then_by f = f a
  handled then_by f = handled
  raised then_by f = raised

-- A number, or NaN.
abbrev pub Rate : Type 0
Rate = Option Decimal

abbrev pub one : Decimal
one = record { negative = false; coefficient = 1; places = 0 }

-- What `get_rate` asks: the coin's symbol, the call that makes the contract of the coin known, if it has
-- one, the rate by the rules of the store or of the main exchange, and the filters of the plugins.
pub record Sources : Type 0 where
  pub symbol : Outcome ℕ
  pub add_contract : Option (Outcome (Unit {0}))
  pub look_up : ℕ → Outcome Rate
  pub filters : Rate → Outcome Rate

-- `if contract := ...: await add_contract`
unfoldable pub contract_added : Option (Outcome (Unit {0})) → Outcome (Unit {0})
contract_added none = value tt
contract_added (some o) = o

-- `math.isnan(rate) and extra_fallback`
unfoldable pub fall_back : Bool → Rate → Rate
fall_back extra_fallback (some d) = some d
fall_back true none = some one
fall_back false none = none

-- The body of the `try`: the rate that is returned at once, or the one that is normalized.
unfoldable pub found_rate : ℕ → Bool → Sources → Outcome (Bool × Rate)
unfolding contract_added fall_back
found_rate currency extra_fallback s = s.symbol then_by λ symbol.
    if symbol == currency
    then value (true, some one)
    else contract_added s.add_contract then_by λ _. s.look_up symbol then_by λ rate.
        s.filters (fall_back extra_fallback rate) then_by λ rate'. value (false, rate')

-- `currency_table.normalize(currency, rate)`, which leaves NaN as it is.
unfoldable pub normalized : ℕ → Dict CurrencyData → ℕ → Rate → Outcome Rate
normalized usd table currency none = value none
normalized usd table currency (some d) = elim (normalize usd table currency d none) [
  | none ↦ raised
  | some d' ↦ value (some d')
]

unfoldable pub get_rate : ℕ → Dict CurrencyData → ℕ → Bool → Sources → Outcome Rate
unfolding normalized
get_rate usd table currency extra_fallback s = elim (found_rate currency extra_fallback s) [
  | raised ↦ raised
  | handled ↦ normalized usd table currency (some one)
  | value (true, rate) ↦ value rate
  | value (false, rate) ↦ normalized usd table currency rate
]

-- `calculate_rules` as the look-up of a store with rules; an exception of it is none of those handled.
unfoldable pub by_rules :
    (N : Decimals)
    → (Decimals.D N → Rate)
    → (coingecko currency : ℕ) → (defaults : Rules) → Quotes N
    → Option Rules
    → ℕ
    → Outcome Rate
by_rules N as_rate coingecko currency defaults quotes rules symbol =
    elim (calculate_rules N coingecko defaults quotes rules (symbol, currency)) [
      | none ↦ raised
      | some (rate, p) ↦ value (as_rate rate)
    ]

-- `MAX_CONTRACT_DIVISIBILITY`
abbrev max_contract_divisibility : ℕ
max_contract_divisibility = 8

-- `get_divisibility` before the filters; `decimals` is what the contract of the wallet answers.
unfoldable pub get_divisibility : ℕ → Dict CurrencyData → ℕ → Option (Outcome ℕ) → Outcome ℕ
get_divisibility usd table currency contract = elim (get_currency_data usd table currency) [
  | none ↦ raised
  | some c ↦ elim contract [
    | none ↦ value c.divisibility
    | some decimals ↦ decimals then_by λ d. value (min max_contract_divisibility d)
  ]
]

-- `get_wallet_balance`: whether the coin answered, the divisibility, and the balance, where `zeros` is
-- that of a coin that does not answer; every exception is caught.
unfoldable pub get_wallet_balance : {B : Type 0} → B → Outcome ℕ → Outcome B → Bool × ℕ × B
get_wallet_balance {B} zeros divisibility balance =
    let answer : Outcome (ℕ × B) = divisibility then_by λ d. balance then_by λ b. value (d, b) in
    elim answer [ value (d, b) ↦ (true, d, b) | _ ↦ (false, 8, zeros) ]
