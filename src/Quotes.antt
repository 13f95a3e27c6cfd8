-- ===== src/Quotes.antt =====
-- The quotes of an exchange and when they are fetched: api/ext/exchanges/base.py. A pair is the list of
-- its parts between underscores. Decimal numbers, and what a refresh fetches, are arguments; times
-- are seconds.
pub mod Inverses
pub mod Fresh
pub mod Fetch
pub mod Tickers
use bitcart.Base.{
  ℕ, ◌+◌, ◌-◌, ◌*◌, Bool, true, false, not, ◌&&◌, ◌||◌, Option, none, some, List, [], ◌∷◌, ◌++◌,
  filter, ltb, leb, ◌==◌, if◌then◌else◌,
}

-- `REFRESH_TIME`
abbrev pub refresh_time : ℕ
refresh_time = 150

-- `EXCHANGE_ACTIVE_TIME`
abbrev pub exchange_active_time : ℕ
exchange_active_time = 12 * 60 * 60

abbrev pub Name : Type 0
Name = List ℕ

abbrev pub same_name : Name → Name → Bool
same_name [] [] = true
same_name [] (y ∷ ys) = false
same_name (x ∷ xs) [] = false
same_name (x ∷ xs) (y ∷ ys) = x == y && same_name xs ys

-- `k.count("_") == 1`
abbrev pub is_pair : Name → Bool
is_pair (l ∷ r ∷ []) = true
is_pair _ = false

-- `str(ExchangePair(k).inverse())`, for a name that is a pair.
abbrev pub inverse : Name → Name
inverse (l ∷ r ∷ []) = r ∷ l ∷ []
inverse n = n

module _ (D : Type 0) where
  -- A dict of quotes.
  abbrev pub QuoteDict : Type 0
  QuoteDict = List (Name × D)

  pub record Exchange : Type 0 where
    pub quotes : List (Name × D)
    pub last_refresh : ℕ
    pub last_called : ℕ

module _ {D : Type 0} where
  abbrev pub new : Exchange D
  new = record { quotes = []; last_refresh = 0; last_called = 0 }

  -- `d.get(name)`
  unfoldable pub quote : Name → QuoteDict D → Option D
  quote n [] = none
  quote n ((m, v) ∷ d) = let rest = quote n d in if same_name m n then some v else rest

  -- `d[name] = value`
  unfoldable pub put : Name → D → QuoteDict D → QuoteDict D
  put n v [] = (n, v) ∷ []
  put n v ((m, w) ∷ d) = let rest = put n v d in if same_name m n then (m, v) ∷ d else (m, w) ∷ rest

  -- `d.update(other)`
  unfoldable pub update : QuoteDict D → QuoteDict D → QuoteDict D
  unfolding put
  update d [] = d
  update d ((n, v) ∷ other) = update (put n v d) other

module _ {D : Type 0} (is_zero : D → Bool) (invert : D → D) where
  -- The items of `get_inverse_dict`.
  unfoldable pub get_inverse_dict : QuoteDict D → QuoteDict D
  get_inverse_dict [] = []
  get_inverse_dict ((n, v) ∷ d) =
      let rest = get_inverse_dict d in if is_zero v then rest else (inverse n, invert v) ∷ rest

  -- What becomes of the quotes that a refresh has fetched.
  unfoldable pub prepared : QuoteDict D → QuoteDict D
  unfolding update get_inverse_dict
  prepared fetched =
      let pairs = filter (λ (q : Name × D). is_pair q.0) fetched in
      update pairs (get_inverse_dict pairs)

  -- The test of `_check_fresh`.
  unfoldable pub is_due : Bool → ℕ → Exchange D → Bool
  is_due called now e =
      (called && (e.last_refresh == 0 || ltb exchange_active_time (now - e.last_called)))
      || (not called && ltb refresh_time (now - e.last_refresh))

  -- `_check_fresh`; `fetched` is what a refresh would fetch now, and `none` an exception.
  unfoldable pub check_fresh : Bool → ℕ → Option (QuoteDict D) → Exchange D → Exchange D
  unfolding prepared
  check_fresh called now fetched e =
      let e' =
        if is_due called now e
        then elim fetched [
          | none ↦ record e { last_refresh = now }
          | some d ↦ record e { quotes = prepared d; last_refresh = now }
        ]
        else e in
      if called then record e' { last_called = now } else e'

  -- `get_rate` with a pair; nothing is the NaN of a pair without a quote.
  unfoldable pub get_rate : ℕ → Option (QuoteDict D) → Name → Exchange D → Option D × Exchange D
  unfolding check_fresh quote
  get_rate now fetched pair e =
      let e' = check_fresh true now fetched e in (quote pair e'.quotes, e')

  -- A round of `refresh_task`.
  unfoldable pub refresh_round : ℕ → Option (QuoteDict D) → Exchange D → Exchange D
  unfolding check_fresh
  refresh_round now fetched e =
      let e' = check_fresh false now fetched e in
      if leb (now - e.last_called) exchange_active_time then e' else e

module _ {D : Type 0} where
  -- `last_refresh = 0`, which `add_contract` does to each exchange.
  unfoldable pub forget : Exchange D → Exchange D
  forget e = record e { last_refresh = 0 }
