-- ===== src/Tests/Exchanges.antt =====
-- The quotes of exchanges, on natural numbers in place of decimals.
use bitcart.Base.{
  ℕ, ◌+◌, ◌/◌, ◌≤◌, ◌<◌, ◌≡◌, refl, Bool, Option, none, some, [], ◌∷◌, arith, ◌==◌, if◌then◌else◌,
}
use bitcart.Quotes.{
  QuoteDict, Exchange, new, quote, prepared, get_rate, refresh_round, refresh_time, put, update,
  get_inverse_dict,
}
use bitcart.Quotes.Inverses.{inverse_of, first_of, quote-prepared}
use bitcart.Quotes.Fresh.{starts, called, get_rate-recent}
use bitcart.Quotes.Fetch.{Fetched, fetch_delayed, first_value, fetch_delayed-first, headers}
use bitcart.Quotes.Tickers
use bitcart.Quotes.Tickers.{Page, Answers, refresh, get_rate-never}

abbrev is_zero : ℕ → Bool
is_zero n = n == 0

abbrev invert : ℕ → ℕ
invert n = 1000 / n

abbrev fetched : QuoteDict ℕ
fetched = (1 ∷ 2 ∷ [], 50) ∷ (2 ∷ 1 ∷ [], 25) ∷ (1 ∷ 2 ∷ 3 ∷ [], 7) ∷ []

-- Each of two quotes that are inverses of one another is replaced by the inverse of the other.
both_inverted : prepared is_zero invert fetched ≡ (1 ∷ 2 ∷ [], 40) ∷ (2 ∷ 1 ∷ [], 20) ∷ []
unfolding prepared update put get_inverse_dict
both_inverted = refl

quote-prepared_example :
    quote (1 ∷ 2 ∷ []) (prepared is_zero invert fetched)
    ≡ first_of (inverse_of is_zero invert (quote (2 ∷ 1 ∷ []) fetched)) (quote (1 ∷ 2 ∷ []) fetched)
unfolding quote
quote-prepared_example = quote-prepared is_zero invert 1 2 fetched (refl, (refl, (refl, tt)))

-- A call long after the first one.
abbrev asked : Exchange ℕ
asked =
    (get_rate is_zero invert 1010 (some fetched) (1 ∷ 2 ∷ [])
      (refresh_round is_zero invert 1000 none new)).1

get_rate-recent_example :
    (1000
      ≤ (get_rate is_zero invert 90000 (some fetched) (2 ∷ 1 ∷ []) asked).1.last_refresh
        + refresh_time)
    × (0 < (get_rate is_zero invert 90000 (some fetched) (2 ∷ 1 ∷ []) asked).1.last_refresh)
    × ((get_rate is_zero invert 90000 (some fetched) (2 ∷ 1 ∷ []) asked).1.last_refresh ≤ 90000)
get_rate-recent_example =
    get_rate-recent is_zero invert 90000 (some fetched) (2 ∷ 1 ∷ [])
      (called 1010 (some fetched) (1 ∷ 2 ∷ []) (starts 1000 none (omega arith)) (omega arith))
      (omega arith)

-- Two refusals, then an answer.
abbrev third_time : ℕ → Option (ℕ × ℕ)
third_time n = if n == 2 then some (200, 31) else some (429, 0)

fetch_delayed-first_example :
    (r : Fetched ℕ) × (fetch_delayed some third_time (headers ∷ []) 7 0 1 0 ≡ some r)
    × (r.value ≡ first_value some third_time (headers ∷ []) 7 0)
    × (r.requests ≤ 7)
    × (r.waited ≤ 63)
fetch_delayed-first_example = fetch_delayed-first some third_time (headers ∷ [])

-- CoinGecko answers every request at once.
abbrev answering : Answers ℕ
answering = record {
  Text = ℕ;
  coins = λ n. some (200, 0);
  pages = λ page n. some (200, page);
  loads_coins = λ t. some (5 ∷ []);
  loads_page = λ t. some (record { tickers = fetched; total = none; per_page = none });
}

get_rate-never_example :
    (get_rate is_zero invert 700 (refresh answering []).1 (1 ∷ 2 ∷ []) new).0 ≡ none
get_rate-never_example = get_rate-never is_zero invert 700 answering [] (1 ∷ 2 ∷ []) Tickers.starts
