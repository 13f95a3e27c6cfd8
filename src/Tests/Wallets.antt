-- ===== src/Tests/Wallets.antt =====
-- The rates of wallets' coins in stores.
use bitcart.Base.{ℕ, ◌≡◌, refl, sym, Option, none, some, [], ◌∷◌, arith, true, false}
use bitcart.Base.Dict.{Dict, lookup}
use bitcart.Money.{Decimal, CurrencyData, get_currency_data}
use bitcart.Quotes.{new}
use bitcart.Quotes.Tickers
use bitcart.Quotes.Tickers.{Answers, get_rate-never}
use bitcart.WalletData.{
  Rate, value, Sources, one, found_rate, normalized, get_rate, contract_added, fall_back,
}
use bitcart.WalletData.Cheap.{get_rate-cheap}
use bitcart.WalletData.Missing.{only, in_store, get_rate-missing}
use bitcart.Tests.Rates.{whole}

-- Dollars have two places.
abbrev dollars : ℕ
dollars = 2

abbrev dollar_data : CurrencyData
dollar_data = record { divisibility = 2; symbol = some 36 }

abbrev table : Dict CurrencyData
table = (dollars, dollar_data) ∷ []

-- 0.0149 dollars
abbrev cheap : Decimal
cheap = record { negative = false; coefficient = 149; places = 4 }

abbrev quoted_cheap : Sources
quoted_cheap = record {
  symbol = value 5;
  add_contract = none;
  look_up = λ symbol. value (some cheap);
  filters = value;
}

get_rate-cheap_example :
    get_rate dollars table dollars true quoted_cheap
    ≡ value (some (record { negative = false; coefficient = 1; places = 2 }))
unfolding found_rate contract_added fall_back get_currency_data lookup
get_rate-cheap_example =
    get_rate-cheap dollars dollars 2 table dollar_data true quoted_cheap cheap refl (omega arith)
      (omega arith) refl (omega arith) refl

-- A number of whole dollars.
abbrev as_rate : Option ℕ → Rate
as_rate none = none
as_rate (some n) = some (record { negative = false; coefficient = n; places = 0 })

-- CoinGecko answers every request at once.
abbrev quick : Answers (Option ℕ)
quick = record {
  Text = ℕ;
  coins = λ n. some (200, 0);
  pages = λ page n. some (200, page);
  loads_coins = λ t. some (5 ∷ []);
  loads_page =
      λ t. some (record { tickers = (5 ∷ 2 ∷ [], some 30) ∷ []; total = none; per_page = none });
}

get_rate-missing_example :
    get_rate dollars table dollars true (in_store whole as_rate 3 5 2 (λ x p. none) (some (only 7)))
    ≡ normalized dollars table dollars (some one)
get_rate-missing_example =
    get_rate-missing whole as_rate (λ d. false) (λ d. d) dollars 3 7 5 2 700 table (λ x p. none) new
      quick [] (ground arith) (ground arith) (ground arith) refl Tickers.starts
      (sym (get_rate-never (λ d. false) (λ d. d) 700 quick [] (5 ∷ 2 ∷ []) Tickers.starts))
