-- ===== src/Quotes/Fresh.antt =====
-- How old the quotes are that an exchange serves.
use bitcart.Base.{
  if◌then◌else◌, ℕ, ◌+◌, ◌≤◌, ◌<◌, ◌≡◌, Bool, true, false, Option, none, some, arith, ◌⊎◌,
}
use bitcart.Quotes.{
  Name, QuoteDict, Exchange, new, is_due, check_fresh, get_rate, refresh_round, forget,
  refresh_time, exchange_active_time,
}

module _ {D : Type 0} (is_zero : D → Bool) (invert : D → D) where
  -- `Life now round e`: at the time `now`, after the last background round at `round`, the exchange is
  -- `e`. The first round is run at the start. What is fetched is any dict, or an exception.
  pub data Life : ℕ → ℕ → Exchange D → Type 0 where
    starts :
        (now : ℕ) (fetched : Option (QuoteDict D))
        → 0 < now
        → Life now now (refresh_round is_zero invert now fetched new)
    called :
        {now round : ℕ} {e : Exchange D} (later : ℕ) (fetched : Option (QuoteDict D)) (pair : Name)
        → Life now round e
        → now ≤ later
        → Life later round (get_rate is_zero invert later fetched pair e).1
    runs :
        {now round : ℕ} {e : Exchange D} (later : ℕ) (fetched : Option (QuoteDict D))
        → Life now round e
        → now ≤ later
        → Life later later (refresh_round is_zero invert later fetched e)
    forgets : {now round : ℕ} {e : Exchange D} → Life now round e → Life now round (forget e)

  -- The last refresh is recent as seen from the last round, unless none is known or nobody asked.
  record IsFresh (now round : ℕ) (e : Exchange D) : Type 0 where
    started : 0 < now
    past : round ≤ now
    asked : e.last_called ≤ now
    refreshed : e.last_refresh ≤ now
    recent :
        (e.last_refresh ≡ 0)
        ⊎ ((round ≤ e.last_refresh + refresh_time) ⊎ (e.last_called + exchange_active_time < round))

  -- What a check of the freshness does to the two times.
  check_fresh-times :
      (was_called : Bool) (now : ℕ) (fetched : Option (QuoteDict D)) (e : Exchange D)
      → ((check_fresh is_zero invert was_called now fetched e).last_called
          ≡ (if was_called then now else e.last_called))
        × ((check_fresh is_zero invert was_called now fetched e).last_refresh
            ≡ (if is_due is_zero invert was_called now e then now else e.last_refresh))
  unfolding check_fresh is_due
  check_fresh-times true now none e = ground arith
  check_fresh-times true now (some q) e = ground arith
  check_fresh-times false now none e = ground arith
  check_fresh-times false now (some q) e = ground arith

  module _ (now round later : ℕ) (fetched : Option (QuoteDict D)) (e : Exchange D)
      (f : IsFresh now round e) (h : now ≤ later) where
    -- After a call the last refresh is recent.
    called-recent :
        (pair : Name)
        → (round ≤ (get_rate is_zero invert later fetched pair e).1.last_refresh + refresh_time)
          × (0 < (get_rate is_zero invert later fetched pair e).1.last_refresh)
          × ((get_rate is_zero invert later fetched pair e).1.last_refresh ≤ later)
          × ((get_rate is_zero invert later fetched pair e).1.last_called ≡ later)
    unfolding get_rate is_due
    called-recent pair = ground (
      arith,
      check_fresh-times true later fetched e,
      f.recent,
      f.started,
      f.past,
      f.asked,
      f.refreshed,
    )

    runs-IsFresh : IsFresh later later (refresh_round is_zero invert later fetched e)
    unfolding refresh_round is_due
    runs-IsFresh = ground (
      arith,
      check_fresh-times false later fetched e,
      f.recent,
      f.started,
      f.past,
      f.asked,
      f.refreshed,
    )

  new-IsFresh : (now : ℕ) → 0 < now → IsFresh now now new
  new-IsFresh now h = ground (arith, h)

  forget-IsFresh :
      (now round : ℕ) (e : Exchange D) → IsFresh now round e → IsFresh now round (forget e)
  unfolding forget
  forget-IsFresh now round e f = ground (arith, f.started, f.past, f.asked)

  called-IsFresh :
      (now round later : ℕ) (fetched : Option (QuoteDict D)) (pair : Name) (e : Exchange D)
      → IsFresh now round e
      → now ≤ later
      → IsFresh later round (get_rate is_zero invert later fetched pair e).1
  called-IsFresh now round later fetched pair e f h =
      ground (arith, called-recent now round later fetched e f h pair, f.started, f.past)

  Life-IsFresh : {now round : ℕ} {e : Exchange D} → Life now round e → IsFresh now round e
  Life-IsFresh (starts now fetched h) =
      runs-IsFresh now now now fetched new (new-IsFresh now h) (omega arith)
  Life-IsFresh (called {now} {round} {e} later fetched pair l h) =
      called-IsFresh now round later fetched pair e (Life-IsFresh l) h
  Life-IsFresh (runs {now} {round} {e} later fetched l h) =
      runs-IsFresh now round later fetched e (Life-IsFresh l) h
  Life-IsFresh (forgets {now} {round} {e} l) = forget-IsFresh now round e (Life-IsFresh l)

  -- Whatever has happened to an exchange, the quotes that a call reads were last refreshed, or a refresh
  -- was tried, no more than the refresh time before the last round of the background task, if not after
  -- it. This includes calls after any pause.
  pub get_rate-recent :
      {now round : ℕ} {e : Exchange D} (later : ℕ) (fetched : Option (QuoteDict D)) (pair : Name)
      → Life now round e
      → now ≤ later
      → (round ≤ (get_rate is_zero invert later fetched pair e).1.last_refresh + refresh_time)
        × (0 < (get_rate is_zero invert later fetched pair e).1.last_refresh)
        × ((get_rate is_zero invert later fetched pair e).1.last_refresh ≤ later)
  get_rate-recent {now} {round} {e} later fetched pair l h =
      let (recent, known, past, asked) =
        called-recent now round later fetched e (Life-IsFresh l) h pair in
      (recent, known, past)
