-- ===== src/Daemon/Events/Bitcoin.antt =====
-- The events of a daemon with Electrum: `_process_events`, `process_events` and the handlers of its
-- events of daemons/btc.py. What Electrum knows of a payment is an argument.
use bitcart.Base.{
  ℕ, ◌<◌, ◌≡◌, ◌≢◌, refl, ap, ◌∙◌, Option, none, some, List, [], ◌∷◌, arith, ltb, ◌==◌,
  if◌then◌else◌, Bool-cases, Option-cases, inl, inr,
}
use bitcart.Base.Dict.{Dict}
use bitcart.Daemon.Events.{Feed, notify_websockets, append_to}

-- The events of `EVENT_MAPPING`, with the arguments that Electrum gives; a wallet is an object.
pub data Event : Type 0 where
  new_block : Event
  new_transaction : ℕ → ℕ → Event
  new_payment : ℕ → ℕ → ℕ → Event
  verified_tx : ℕ → ℕ → ℕ → Event
  other : Event

-- What is reported: with the fields of each event.
pub data Report : Type 0 where
  block : ℕ → Report
  transaction : ℕ → Report
  payment : ℕ → ℕ → List ℕ → ℕ → Report
  verified : ℕ → ℕ → Report

-- `process_new_block`, with the new `latest_height`.
unfoldable pub process_new_block : ℕ → ℕ → Option ℕ × ℕ
process_new_block height latest =
    if ltb latest height then (some height, height) else (none, latest)

-- `process_events`; `paid` gives the hashes and the sent amount of a request, and `none` for an
-- exception, which `_process_events` catches.
unfoldable pub process_events :
    (ℕ → ℕ → Option (List ℕ × ℕ)) → ℕ → Event → ℕ → Option (Report × Option ℕ) × ℕ
unfolding process_new_block
process_events paid height new_block latest =
    let (new, latest') = process_new_block height latest in
    elim new [ none ↦ (none, latest') | some h ↦ (some (block h, none), latest') ]
process_events paid height (new_transaction wallet tx) latest =
    (some (transaction tx, some wallet), latest)
process_events paid height (new_payment wallet address status) latest = elim (paid wallet address) [
  | none ↦ (none, latest)
  | some (hashes, sent) ↦ (some (payment address status hashes sent, some wallet), latest)
]
process_events paid height (verified_tx wallet tx at) latest =
    (some (verified tx at, some wallet), latest)
process_events paid height other latest = (none, latest)

-- The loop over `self.wallets`, whose objects are given by their keys.
unfoldable pub deliver : ℕ → Report → Option ℕ → List (ℕ × ℕ) → Feed Report → Feed Report
deliver polling_cap report wallet [] f = f
deliver polling_cap report none ((key, object) ∷ ws) f =
    deliver polling_cap report none ws
      (record f { wallets_updates = append_to polling_cap report key f.wallets_updates })
deliver polling_cap report (some wallet) ((key, object) ∷ ws) f =
    deliver polling_cap report (some wallet) ws (
      let f' = notify_websockets report (some key) f in
      if wallet == object
      then record f' { wallets_updates = append_to polling_cap report key f'.wallets_updates }
      else f)

-- `_process_events`, where `polling_cap` is `POLLING_CAP`.
unfoldable pub process :
    ℕ → (ℕ → ℕ → Option (List ℕ × ℕ)) → Dict ℕ → ℕ → Event → Feed Report × ℕ → Feed Report × ℕ
unfolding process_events deliver
process polling_cap paid objects height event (f, latest) =
    let (result, latest') = process_events paid height event latest in
    elim result [
      | none ↦ (f, latest')
      | some (report, none) ↦ (
        let f' = notify_websockets report none f in
            if polling_cap == 0 then f' else deliver polling_cap report none objects f',
        latest',
      )
      | some (report, some wallet) ↦ (deliver polling_cap report (some wallet) objects f, latest')
    ]

-- A block's height, before those that are announced later.
announce : Option (Report × Option ℕ) → List ℕ → List ℕ
announce (some (block h, none)) rest = h ∷ rest
announce _ rest = rest

-- The heights that are announced while the network has these heights at these events.
unfoldable pub announced : (ℕ → ℕ → Option (List ℕ × ℕ)) → List (ℕ × Event) → ℕ → List ℕ
unfolding announce
announced paid [] latest = []
announced paid ((height, event) ∷ es) latest =
    let (result, latest') = process_events paid height event latest in
    announce result (announced paid es latest')

-- Each item is greater than the ones before it, and than `low`.
abbrev pub IsIncreasing : ℕ → List ℕ → Type 0
IsIncreasing low [] = Unit
IsIncreasing low (h ∷ hs) = (low < h) × IsIncreasing h hs

-- The greatest of `low` and the heights at the events for a block.
pub highest : ℕ → List (ℕ × Event) → ℕ
highest low [] = low
highest low ((height, new_block) ∷ es) = highest (if ltb low height then height else low) es
highest low ((height, _) ∷ es) = highest low es

pub last_or : ℕ → List ℕ → ℕ
last_or low [] = low
last_or low (h ∷ hs) = last_or h hs

module _ (paid : ℕ → ℕ → Option (List ℕ × ℕ)) where
  announced-next :
      (height : ℕ) (event : Event) (es : List (ℕ × Event)) (latest l : ℕ)
      (r : Option (Report × Option ℕ))
      → process_events paid height event latest ≡ (r, l)
      → announced paid ((height, event) ∷ es) latest ≡ announce r (announced paid es l)
  unfolding announced
  announced-next height event es latest l r e =
      ap (λ (t : Option (Report × Option ℕ) × ℕ). announce t.0 (announced paid es t.1)) e

  announced-new_block :
      (height : ℕ) (es : List (ℕ × Event)) (latest : ℕ)
      → announced paid ((height, new_block) ∷ es) latest ≡ (
          if ltb latest height then height ∷ announced paid es height else announced paid es latest)
  unfolding announced process_events process_new_block
  announced-new_block height es latest = elim (Bool-cases (ltb latest height)) [
    | inl e ↦
        announced-next height new_block es latest height (some (block height, none))
          (ground (arith, e))
        ∙ rw e
    | inr e ↦ announced-next height new_block es latest latest none (ground (arith, e)) ∙ rw e
  ]

  -- An event that is not a block's announces nothing.
  announced-same :
      (height : ℕ) (event : Event) (es : List (ℕ × Event)) (latest : ℕ)
      → event ≢ new_block
      → announced paid ((height, event) ∷ es) latest ≡ announced paid es latest
  unfolding announced process_events
  announced-same height new_block es latest h = absurd (h refl)
  announced-same height (new_transaction w t) es latest h = refl
  announced-same height (new_payment w a st) es latest h = elim (Option-cases (paid w a)) [
    | inl e ↦
        announced-next height (new_payment w a st) es latest latest none (rw (e, process_events))
    | inr ((hashes, sent), e) ↦
        announced-next height (new_payment w a st) es latest latest
          (some (payment a st hashes sent, some w)) (rw (e, process_events))
  ]
  announced-same height (verified_tx w t at) es latest h = refl
  announced-same height other es latest h = refl

  -- Whatever events come, and whatever heights the network has at them, also lower ones, the heights
  -- that are announced increase, and the last one is the greatest that a block event had, if that is
  -- above the first height.
  pub announced-IsIncreasing :
      (es : List (ℕ × Event)) (latest : ℕ)
      → IsIncreasing latest (announced paid es latest)
        × (last_or latest (announced paid es latest) ≡ highest latest es)
  unfolding highest last_or
  announced-IsIncreasing [] latest = unfold announced in (tt, refl)
  announced-IsIncreasing ((height, new_block) ∷ es) latest = elim (Bool-cases (ltb latest height)) [
    | inl e ↦
        let (up, top) = announced-IsIncreasing es height in
        rw (announced-new_block height es latest, e) ((ground (arith, e), up), top)
    | inr e ↦ rw (announced-new_block height es latest, e) (announced-IsIncreasing es latest)
  ]
  announced-IsIncreasing ((height, new_transaction w t) ∷ es) latest =
      rw (announced-same height (new_transaction w t) es latest (cc))
        (announced-IsIncreasing es latest)
  announced-IsIncreasing ((height, new_payment w a st) ∷ es) latest =
      rw (announced-same height (new_payment w a st) es latest (cc))
        (announced-IsIncreasing es latest)
  announced-IsIncreasing ((height, verified_tx w t at) ∷ es) latest =
      rw (announced-same height (verified_tx w t at) es latest (cc))
        (announced-IsIncreasing es latest)
  announced-IsIncreasing ((height, other) ∷ es) latest =
      rw (announced-same height other es latest (cc)) (announced-IsIncreasing es latest)
