-- ===== src/Quotes/Tickers.antt =====
-- The exchanges whose quotes come from CoinGecko's tickers: `coingecko_based_exchange` of
-- api/ext/exchanges/coingecko.py. What CoinGecko answers, and the coins that are found in its list, are
-- arguments.
use bitcart.Base.{
  ℕ, zero, suc, ◌+◌, ◌-◌, ◌/◌, ◌%◌, ◌≡◌, refl, Bool, true, false, Option, none, some, List, [], ◌∷◌,
  arith, ◌==◌, if◌then◌else◌, ◌∙◌, ap, ◌>>=◌, Option-cases, inl, inr,
}
use bitcart.Quotes.{
  Name, QuoteDict, Exchange, new, quote, update, check_fresh, get_rate, refresh_round, forget,
}
use bitcart.Quotes.Fetch.{
  Fetched, fetch_delayed, first_value, send_request, fetch_delayed-first, return_json, headers,
}

module _ (D : Type 0) where
  -- A page of tickers, with the numbers of the headers `total` and `per-page`.
  pub record Page : Type 0 where
    pub tickers : List (Name × D)
    pub total : Option ℕ
    pub per_page : Option ℕ

  -- What CoinGecko answers: to the request for its coins, and to that for each page, at each attempt.
  pub record Answers : Type 1 where
    pub Text : Type 0
    pub coins : ℕ → Option (ℕ × Text)
    pub pages : ℕ → ℕ → Option (ℕ × Text)
    pub loads_coins : Text → Option (List ℕ)
    pub loads_page : Text → Option (Page)

module _ {D : Type 0} (a : Answers D) where
  open a use {coins, pages, loads_coins, loads_page}

  -- The value of a call of `fetch_delayed`; the fuel is enough by `fetch_delayed-first`.
  value_of : {V : Type 0} → Option (Fetched V) → Option V
  value_of none = none
  value_of (some r) = r.value

  unfoldable pub fetch_page : ℕ → Option (Page D)
  unfolding value_of
  fetch_page page =
      value_of (fetch_delayed loads_page (pages page) (return_json ∷ headers ∷ []) 7 0 1 0)

  -- The loop over the pages from one on.
  unfoldable pub fetch_pages : ℕ → ℕ → QuoteDict D → Option (QuoteDict D)
  unfolding fetch_page
  fetch_pages zero page result = some result
  fetch_pages (suc left) page result = do
    p ← fetch_page page
    fetch_pages left (suc page) (update result (update [] p.tickers))

  -- `total // per_page`, and one more if a rest is left; a division by zero is an exception.
  unfoldable pub total_pages : ℕ → ℕ → Option ℕ
  total_pages total per_page =
      if per_page == 0
      then none
      else some (if total % per_page == 0 then total / per_page else total / per_page + 1)

  unfoldable pub fetch_rates : Option (QuoteDict D)
  unfolding fetch_pages total_pages
  fetch_rates = do
    p ← fetch_page 1
    let result = update [] p.tickers
    elim p.total [
      | none ↦ some result
      | some total ↦ elim p.per_page [
        | none ↦ some result
        | some per_page ↦ do n ← total_pages total per_page; fetch_pages (n - 1) 2 result
      ]
    ]

  -- `refresh`: the coins are fetched once, and kept in `coins_cache`.
  unfoldable pub refresh : List ℕ → Option (List ℕ) × Option (QuoteDict D)
  unfolding fetch_rates value_of
  refresh [] = elim (value_of (fetch_delayed loads_coins coins (headers ∷ []) 7 0 1 0)) [
    | none ↦ (none, none)
    | some cache ↦ (some cache, fetch_rates)
  ]
  refresh (c ∷ cs) = (some (c ∷ cs), fetch_rates)

  -- The keyword `return_json` is given twice, so that no page is ever asked for.
  fetch_page-none : (page : ℕ) → fetch_page page ≡ none
  unfolding fetch_page value_of first_value send_request
  fetch_page-none page =
      let (r, ends, first, few, short) =
        fetch_delayed-first loads_page (pages page) (return_json ∷ headers ∷ []) in
      ap value_of ends ∙ first

  refresh-none : (cache : List ℕ) → (refresh cache).1 ≡ none
  unfolding refresh fetch_rates
  refresh-none [] =
      elim (Option-cases (value_of (fetch_delayed loads_coins coins (headers ∷ []) 7 0 1 0))) [
        | inl e ↦ rw (e, refresh)
        | inr (cache, e) ↦ rw (e, refresh) (rw (fetch_page-none 1))
      ]
  refresh-none (c ∷ cs) = rw (fetch_page-none 1)

module _ {D : Type 0} (is_zero : D → Bool) (invert : D → D) where
  -- The life of such an exchange, with any answers of CoinGecko at any time.
  pub data Life : Exchange D → Type 1 where
    starts : Life new
    called :
        {e : Exchange D} (now : ℕ) (a : Answers D) (cache : List ℕ) (pair : Name)
        → Life e
        → Life (get_rate is_zero invert now (refresh a cache).1 pair e).1
    runs :
        {e : Exchange D} (now : ℕ) (a : Answers D) (cache : List ℕ)
        → Life e
        → Life (refresh_round is_zero invert now (refresh a cache).1 e)
    forgets : {e : Exchange D} → Life e → Life (forget e)

  check_fresh-failed :
      (was_called : Bool) (now : ℕ) (e : Exchange D)
      → (check_fresh is_zero invert was_called now none e).quotes ≡ e.quotes
  unfolding check_fresh
  check_fresh-failed true now e = ground arith
  check_fresh-failed false now e = ground arith

  round-failed :
      (now : ℕ) (e : Exchange D) → (refresh_round is_zero invert now none e).quotes ≡ e.quotes
  unfolding refresh_round
  round-failed now e = ground (arith, check_fresh-failed false now e)

  call-failed :
      (now : ℕ) (pair : Name) (e : Exchange D)
      → (get_rate is_zero invert now none pair e).1.quotes ≡ e.quotes
  unfolding get_rate
  call-failed now pair e = check_fresh-failed true now e

  forget-quotes : (e : Exchange D) → (forget e).quotes ≡ e.quotes
  unfolding forget
  forget-quotes e = refl

  Life-empty : {e : Exchange D} → Life e → e.quotes ≡ []
  Life-empty starts = refl
  Life-empty (called {e} now a cache pair l) =
      ap (λ f. (get_rate is_zero invert now f pair e).1.quotes) (refresh-none a cache)
      ∙ (call-failed now pair e ∙ Life-empty l)
  Life-empty (runs {e} now a cache l) =
      ap (λ f. (refresh_round is_zero invert now f e).quotes) (refresh-none a cache)
      ∙ (round-failed now e ∙ Life-empty l)
  Life-empty (forgets {e} l) = forget-quotes e ∙ Life-empty l

  -- Such an exchange never has a rate, whatever CoinGecko answers, at any time and for any pair, since
  -- each of its requests for tickers gives a keyword twice.
  pub get_rate-never :
      {e : Exchange D} (now : ℕ) (a : Answers D) (cache : List ℕ) (pair : Name)
      → Life e
      → (get_rate is_zero invert now (refresh a cache).1 pair e).0 ≡ none
  unfolding get_rate quote
  get_rate-never {e} now a cache pair l = ap (quote pair) (
      ap (λ f. (check_fresh is_zero invert true now f e).quotes) (refresh-none a cache)
      ∙ (check_fresh-failed true now e ∙ Life-empty l))
