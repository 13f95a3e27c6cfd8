-- ===== src/Daemon/Events.antt =====
-- The events that a daemon reports: `notify_websockets` of daemons/base.py, `trigger_event`,
-- `get_updates` and the queues of daemons/genericprocessor.py, and `_process_events` with the handlers
-- of its events of daemons/btc.py.
pub mod Polled
pub mod Bitcoin
use bitcart.Base.{
  ℕ, zero, suc, ◌+◌, Bool, true, false, not, ◌&&◌, ◌||◌, Option, none, some, List, [], ◌∷◌, ◌++◌,
  map, filter, ltb, ◌==◌, if◌then◌else◌, holds, is_some, contains, length,
}
use bitcart.Base.Dict.{Dict, lookup, insert, erase}

-- A connection; `xpub` is the wallet that it asked for.
pub record Socket : Type 0 where
  pub id : ℕ
  pub closed : Bool
  pub xpub : Option ℕ

-- `not ws.closed and (not xpub or not ws.config["xpub"] or ws.config["xpub"] == xpub)`
unfoldable pub is_notified : Option ℕ → Socket → Bool
is_notified none s = not s.closed
is_notified (some key) s = not s.closed && (not (is_some s.xpub) || holds s.xpub key)

module _ (E : Type 0) where
  -- `self.wallets` by their keys, `self.wallets_updates`, the connections, and what was sent to them.
  pub record Feed : Type 0 where
    pub wallets : List ℕ
    pub wallets_updates : Dict (List E)
    pub websockets : List Socket
    pub sent : List (ℕ × E)

-- A dict without a key, by the keys.
unfoldable pub without : ℕ → List ℕ → List ℕ
without key [] = []
without key (k ∷ ks) = let rest = without key ks in if k == key then rest else k ∷ rest

module _ {E : Type 0} where
  unfoldable pub notify_websockets : E → Option ℕ → Feed E → Feed E
  unfolding is_notified
  notify_websockets event xpub f = record f {
    sent = f.sent ++ map (λ (s : Socket). (s.id, event)) (filter (is_notified xpub) f.websockets);
  }

  -- `append` of a `deque(maxlen=cap)`: a full one loses its first item.
  unfoldable pub append : ℕ → E → List E → List E
  append cap event [] = if cap == 0 then [] else event ∷ []
  append cap event (x ∷ xs) =
      if ltb (length (x ∷ xs)) cap
      then (x ∷ xs) ++ event ∷ []
      else if cap == 0
      then []
      else xs ++ event ∷ []

  -- `self.wallets_updates[key].append(data)`; a missing key is an exception, which changes nothing.
  unfoldable pub append_to : ℕ → E → ℕ → Dict (List E) → Dict (List E)
  unfolding append
  append_to cap event key d = elim (lookup key d) [
    | none ↦ d
    | some updates ↦ insert key (append cap event updates) d
  ]

  -- The same for each key of a list.
  unfoldable pub append_all : ℕ → E → List ℕ → Dict (List E) → Dict (List E)
  append_all cap event [] d = d
  append_all cap event (k ∷ ks) d = append_all cap event ks (append_to cap event k d)

  -- `trigger_event`, where `cap` is `POLLING_CAP`.
  unfoldable pub trigger_event : ℕ → E → Option ℕ → Feed E → Feed E
  unfolding notify_websockets append_all
  trigger_event cap event wallet f =
      let f' = notify_websockets event wallet f in
      if cap == 0 then f' else record f' {
        wallets_updates = elim wallet [
          | some key ↦ append_to cap event key f'.wallets_updates
          | none ↦ append_all cap event f'.wallets f'.wallets_updates
        ];
      }

  -- `get_updates`; the wallet of the request is loaded.
  unfoldable pub get_updates : ℕ → Feed E → Option (List E) × Feed E
  get_updates key f = elim (lookup key f.wallets_updates) [
    | none ↦ (none, f)
    | some updates ↦ (some updates, record f { wallets_updates = insert key [] f.wallets_updates })
  ]

  -- What `load_wallet` and `close_wallet_impl` do with the two tables.
  unfoldable pub load_wallet : ℕ → Feed E → Feed E
  load_wallet key f = if contains key f.wallets then f else record f {
    wallets = f.wallets ++ key ∷ [];
    wallets_updates = insert key [] f.wallets_updates;
  }

  unfoldable pub close_wallet_impl : ℕ → Feed E → Feed E
  unfolding without
  close_wallet_impl key f =
      if contains key f.wallets
      then record f {
        wallets = without key f.wallets;
        wallets_updates = erase key f.wallets_updates;
      }
      else f

-- What happens to a daemon, in the order in which it happens.
pub data Step (E : Type 0) : Type 0 where
  loads : ℕ → Step E
  closes : ℕ → Step E
  reports : E → Option ℕ → Step E
  polls : ℕ → Step E

module _ {E : Type 0} (cap : ℕ) where
  unfoldable pub step : Step E → Feed E → Feed E
  unfolding trigger_event get_updates load_wallet close_wallet_impl
  step (loads key) f = load_wallet key f
  step (closes key) f = close_wallet_impl key f
  step (reports event wallet) f = trigger_event cap event wallet f
  step (polls key) f = (get_updates key f).1

  unfoldable pub run : List (Step E) → Feed E → Feed E
  unfolding step
  run [] f = f
  run (s ∷ ss) f = run ss (step s f)
