-- ===== src/Daemon/Events/Polled.antt =====
-- What a poll of a wallet's events gives.
use bitcart.Base.{
  ℕ, ◌≤◌, ◌≡◌, refl, Bool, true, false, Option, none, some, List, [], ◌∷◌, ◌++◌, arith, ◌==◌, leb,
  if◌then◌else◌, contains, contains-append, length, length-append, ◌∙◌, ap, sym, Option-cases,
  Bool-cases, inl, inr,
}
use bitcart.Base.Dict.{Dict, lookup, lookup-insert, lookup-erase}
use bitcart.Daemon.Events.{
  Feed, append, append_to, append_all, notify_websockets, trigger_event, get_updates, load_wallet,
  close_wallet_impl, without, Step, loads, closes, reports, polls, step, run,
}

module _ {E : Type 0} where
  -- The last `cap` items.
  unfoldable pub last : ℕ → List E → List E
  last cap [] = []
  last cap (x ∷ xs) = let rest = last cap xs in if leb (length (x ∷ xs)) cap then x ∷ xs else rest

  last-fits : (cap : ℕ) (xs : List E) → length xs ≤ cap → last cap xs ≡ xs
  unfolding last
  last-fits cap [] h = refl
  last-fits cap (x ∷ xs) h = ground (arith, h)

  last-zero : (xs : List E) → last 0 xs ≡ []
  unfolding last
  last-zero [] = refl
  last-zero (x ∷ xs) = ground (arith, last-zero xs)

  append-last :
      (cap : ℕ) (event : E) (xs : List E)
      → append cap event (last cap xs) ≡ last cap (xs ++ event ∷ [])
  unfolding append last
  append-last cap event [] = ground arith
  append-last cap event (x ∷ xs) = ground (
    arith,
    append-last cap event xs,
    last-fits cap (xs ++ event ∷ []),
    length-append xs (event ∷ []),
  )

-- No key twice.
abbrev pub IsDistinct : List ℕ → Type 0
IsDistinct [] = Unit
IsDistinct (k ∷ ks) = (contains k ks ≡ false) × IsDistinct ks

append-IsDistinct :
    (ks : List ℕ) (k : ℕ) → IsDistinct ks → contains k ks ≡ false → IsDistinct (ks ++ k ∷ [])
append-IsDistinct [] k d h = (refl, tt)
append-IsDistinct (j ∷ ks) k d h = (
  ground (arith, contains-append j ks (k ∷ []), d.0, h),
  append-IsDistinct ks k d.1 (ground (arith, h)),
)

contains-without :
    (k j : ℕ) (ks : List ℕ) → contains k (without j ks) ≡ (if j == k then false else contains k ks)
unfolding without
contains-without k j [] = ground arith
contains-without k j (i ∷ ks) = ground (arith, contains-without k j ks)

without-IsDistinct : (j : ℕ) (ks : List ℕ) → IsDistinct ks → IsDistinct (without j ks)
unfolding without
without-IsDistinct j [] d = tt
without-IsDistinct j (k ∷ ks) d = elim (Bool-cases (k == j)) [
  | inl e ↦ rw e (without-IsDistinct j ks d.1)
  | inr e ↦ rw e (ground (arith, contains-without k j ks, d.0), without-IsDistinct j ks d.1)
]

module _ {E : Type 0} (cap : ℕ) (k : ℕ) where
  lookup-append_to :
      (event : E) (j : ℕ) (d : Dict (List E)) (q : List E)
      → lookup k d ≡ some q
      → lookup k (append_to cap event j d) ≡ some (if j == k then append cap event q else q)
  unfolding append_to
  lookup-append_to event j d q h = elim (Option-cases (lookup j d)) [
    | inl missing ↦
        rw (missing, append_to)
          (elim (Bool-cases (j == k)) [
            | inl e ↦
                let same : j ≡ k = ground (arith, e) in
                absurd (ground (arith, h, missing, ap (λ i. lookup i d) same))
            | inr e ↦ rw e h
          ])
    | inr (updates, found) ↦
        rw (found, append_to)
          (lookup-insert j k (append cap event updates) d ∙ elim (Bool-cases (j == k)) [
            | inl e ↦
                let same : j ≡ k = ground (arith, e) in
                let equal : updates ≡ q = ground (arith, h, found, ap (λ i. lookup i d) same) in
                rw (e, equal) refl
            | inr e ↦ rw e h
          ])
  ]

  lookup-append_all :
      (event : E) (ks : List ℕ) (d : Dict (List E)) (q : List E)
      → IsDistinct ks
      → lookup k d ≡ some q
      → lookup k (append_all cap event ks d)
        ≡ some (if contains k ks then append cap event q else q)
  unfolding append_all
  lookup-append_all event [] d q u h = h
  lookup-append_all event (j ∷ ks) d q u h = elim (Bool-cases (j == k)) [
    | inl e ↦
        let same : j ≡ k = ground (arith, e) in
        lookup-append_all event ks (append_to cap event j d) (append cap event q) u.1
          (lookup-append_to event j d q h ∙ rw e)
        ∙ ground (arith, e, u.0, ap (λ i. contains i ks) same)
    | inr e ↦
        lookup-append_all event ks (append_to cap event j d) q u.1
          (lookup-append_to event j d q h ∙ rw e)
        ∙ ground (arith, e)
  ]

-- The event concerns the wallet `k`: one for every wallet, or its own.
abbrev pub concerns : ℕ → Option ℕ → Bool
concerns k none = true
concerns k (some j) = j == k

module _ {E : Type 0} where
  -- No step closes the wallet `k`.
  abbrev pub Stays : ℕ → List (Step E) → Type 0
  Stays k [] = Unit
  Stays k (closes j ∷ ss) = ((j == k) ≡ false) × Stays k ss
  Stays k (s ∷ ss) = Stays k ss

  -- Every event since the last poll of the wallet `k`, after those of `events`.
  unfoldable pub due : ℕ → List E → List (Step E) → List E
  due k events [] = events
  due k events (reports event wallet ∷ ss) =
      due k (if concerns k wallet then events ++ event ∷ [] else events) ss
  due k events (polls j ∷ ss) = due k (if j == k then [] else events) ss
  due k events (s ∷ ss) = due k events ss

  -- The wallet is loaded, with the last of the given events in its queue.
  pub record IsQueued (cap k : ℕ) (events : List E) (f : Feed E) : Type 0 where
    pub distinct : IsDistinct f.wallets
    pub loaded : contains k f.wallets ≡ true
    pub queue : lookup k f.wallets_updates ≡ some (last cap events)

module _ {E : Type 0} (cap k : ℕ) (events : List E) (f : Feed E) (h : IsQueued cap k events f) where
  load-IsQueued : (j : ℕ) → IsQueued cap k events (load_wallet j f)
  unfolding load_wallet
  load-IsQueued j = elim (Bool-cases (contains j f.wallets)) [
    | inl e ↦ rw e h
    | inr e ↦ rw e (record {
      distinct = append-IsDistinct f.wallets j h.distinct e;
      loaded = ground (arith, h.loaded, contains-append k f.wallets (j ∷ []));
      queue = elim (Bool-cases (j == k)) [
        | inl same ↦
            let equal : j ≡ k = ground (arith, same) in
            absurd (ground (arith, e, h.loaded, ap (λ i. contains i f.wallets) equal))
        | inr other ↦ lookup-insert j k [] f.wallets_updates ∙ rw other h.queue
      ];
    })
  ]

  close-IsQueued : (j : ℕ) → (j == k) ≡ false → IsQueued cap k events (close_wallet_impl j f)
  unfolding close_wallet_impl
  close-IsQueued j other = elim (Bool-cases (contains j f.wallets)) [
    | inl e ↦ rw e (record {
      distinct = without-IsDistinct j f.wallets h.distinct;
      loaded = ground (arith, h.loaded, other, contains-without k j f.wallets);
      queue = ground (arith, h.queue, other, lookup-erase j k f.wallets_updates);
    })
    | inr e ↦ rw e h
  ]

  poll-IsQueued : (j : ℕ) → IsQueued cap k (if j == k then [] else events) (get_updates j f).1
  unfolding get_updates last
  poll-IsQueued j = elim (Option-cases (lookup j f.wallets_updates)) [
    | inl missing ↦
        rw (missing, get_updates)
          (elim (Bool-cases (j == k)) [
            | inl same ↦
                let equal : j ≡ k = ground (arith, same) in
                absurd
                  (ground (arith, missing, h.queue, ap (λ i. lookup i f.wallets_updates) equal))
            | inr other ↦ rw other h
          ])
    | inr (updates, found) ↦
        rw (found, get_updates)
          (record {
            distinct = h.distinct;
            loaded = h.loaded;
            queue = lookup-insert j k [] f.wallets_updates ∙ elim (Bool-cases (j == k)) [
              | inl same ↦ rw same refl
              | inr other ↦ rw other h.queue
            ];
          })
  ]

  -- Without polling no queue ever has an event.
  off-IsQueued :
      (cap == 0) ≡ true
      → (events' : List E) (sent : List (ℕ × E)) → IsQueued cap k events' (record f { sent = sent })
  off-IsQueued off events' sent =
      let zero_cap : cap ≡ 0 = ground (arith, off) in
      record {
        distinct = h.distinct;
        loaded = h.loaded;
        queue =
            h.queue
            ∙ ap some (
                ap (λ c. last c events) zero_cap
                ∙ (last-zero events ∙ sym (ap (λ c. last c events') zero_cap ∙ last-zero events')));
      }

  report-IsQueued :
      (event : E) (wallet : Option ℕ)
      → IsQueued cap k
          (if concerns k wallet then events ++ event ∷ [] else events)
          (trigger_event cap event wallet f)
  unfolding trigger_event notify_websockets
  report-IsQueued event none = elim (Bool-cases (cap == 0)) [
    | inl off ↦ rw off (off-IsQueued off (events ++ event ∷ []) (f.sent ++ _))
    | inr on ↦ rw on (record {
      distinct = h.distinct;
      loaded = h.loaded;
      queue =
          lookup-append_all cap k event f.wallets f.wallets_updates _ h.distinct h.queue
          ∙ rw h.loaded (ap some (append-last cap event events));
    })
  ]
  report-IsQueued event (some j) = elim (Bool-cases (cap == 0)) [
    | inl off ↦
        rw off (off-IsQueued off (if j == k then events ++ event ∷ [] else events) (f.sent ++ _))
    | inr on ↦ rw on (record {
      distinct = h.distinct;
      loaded = h.loaded;
      queue =
          lookup-append_to cap k event j f.wallets_updates _ h.queue ∙ elim (Bool-cases (j == k)) [
            | inl same ↦ rw same (ap some (append-last cap event events))
            | inr other ↦ rw other refl
          ];
    })
  ]

module _ {E : Type 0} (cap k : ℕ) where
  step-IsQueued :
      (events : List E) (s : Step E) (ss : List (Step E)) (f : Feed E)
      → IsQueued cap k events f
      → Stays k (s ∷ ss)
      → (events' : List E) × IsQueued cap k events' (step cap s f)
        × (due k events (s ∷ ss) ≡ due k events' ss)
        × Stays k ss
  unfolding step due
  step-IsQueued events (loads j) ss f h st = (events, load-IsQueued cap k events f h j, refl, st)
  step-IsQueued events (closes j) ss f h st =
      (events, close-IsQueued cap k events f h j st.0, refl, st.1)
  step-IsQueued events (reports event wallet) ss f h st =
      (_, report-IsQueued cap k events f h event wallet, refl, st)
  step-IsQueued events (polls j) ss f h st = (_, poll-IsQueued cap k events f h j, refl, st)

  pub run-IsQueued :
      (events : List E) (ss : List (Step E)) (f : Feed E)
      → IsQueued cap k events f
      → Stays k ss
      → IsQueued cap k (due k events ss) (run cap ss f)
  unfolding run due
  run-IsQueued events [] f h st = h
  run-IsQueued events (s ∷ ss) f h st =
      let (events', h', same, st') = step-IsQueued events s ss f h st in
      rw same (run-IsQueued events' ss (step cap s f) h' st')

  -- A poll of a wallet gives the last events, up to the cap, of those that concern the wallet and were
  -- reported since the poll before or, without one, since the wallet was loaded, in their order; the
  -- wallet is not closed in between.
  pub get_updates-due :
      (ss : List (Step E)) (f : Feed E)
      → IsDistinct f.wallets
      → contains k f.wallets ≡ false
      → Stays k ss
      → (get_updates k (run cap ss (load_wallet k f))).0 ≡ some (last cap (due k [] ss))
  unfolding get_updates load_wallet last
  get_updates-due ss f d new st =
      let loaded : IsQueued cap k [] (load_wallet k f) = rw new (record {
        distinct = append-IsDistinct f.wallets k d new;
        loaded = ground (arith, contains-append k f.wallets (k ∷ []));
        queue = ground (arith, lookup-insert k k [] f.wallets_updates);
      }) in
      let queued = (run-IsQueued [] ss (load_wallet k f) loaded st).queue in
      rw (queued, get_updates) refl
