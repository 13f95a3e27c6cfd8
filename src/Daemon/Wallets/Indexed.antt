-- ===== src/Daemon/Wallets/Indexed.antt =====
-- The addresses that a daemon watches are those of its wallets: daemons/genericprocessor.py and
-- load_wallet of daemons/eth.py.
use bitcart.Base.{
  ℕ, ◌≡◌, refl, Bool, false, not, ◌&&◌, ◌||◌, Option, none, some, List, [], ◌∷◌, ◌++◌, ◌==◌,
  if◌then◌else◌, or_else, contains, contains-append, arith, Option-cases, Bool-cases, inl, inr, ◌∙◌,
  sym, ap,
}
use bitcart.Base.Dict.{Dict, lookup, insert, erase, lookup-insert, lookup-erase}
use bitcart.Daemon.Requests.{Transaction, Wallet}
use bitcart.Daemon.Wallets.{
  Loaded, Network, credit, credit_all, process_transaction, watch, discard, unwatch, load_wallet,
  close_wallet_impl,
}

-- The wallets that the index has for an address.
abbrev keys_at : ℕ → Dict (List ℕ) → List ℕ
keys_at a d = or_else (lookup a d) []

-- Whether a wallet is loaded and has the address.
abbrev has_address : ℕ → Option Loaded → Bool
has_address a none = false
has_address a (some l) = l.address == a

-- The index has a wallet for an address exactly if the wallet is loaded and has that address.
pub IsIndexed : Network → Type 0
IsIndexed n = (k a : ℕ) → contains k (keys_at a n.addresses) ≡ has_address a (lookup k n.wallets)

keys-watch :
    (k a address key : ℕ) (d : Dict (List ℕ))
    → contains k (keys_at a (watch address key d))
      ≡ ((address == a && key == k) || contains k (keys_at a d))
unfolding watch
keys-watch k a address key d =
    let old = keys_at address d in
    let there = lookup-insert address a (old ++ key ∷ []) d in
    let added = contains-append k old (key ∷ []) in
    elim (Bool-cases (contains key old)) [
      | inl e ↦ rw e (ground (arith, e))
      | inr e ↦ rw e (ground (arith, e, there, added))
    ]

contains-discard :
    (k key : ℕ) (ks : List ℕ) → contains k (discard key ks) ≡ (not (key == k) && contains k ks)
unfolding discard
contains-discard k key [] = ground arith
contains-discard k key (j ∷ ks) = ground (arith, contains-discard k key ks)

-- What `unwatch` writes for the wallets that are left.
keys-written :
    (a address : ℕ) (ks : List ℕ) (d : Dict (List ℕ))
    → keys_at a (elim ks [ [] ↦ erase address d | k ∷ js ↦ insert address (k ∷ js) d ])
      ≡ (if address == a then ks else keys_at a d)
keys-written a address [] d = rw lookup-erase (ground arith)
keys-written a address (k ∷ js) d = rw lookup-insert (ground arith)

keys-unwatch :
    (k a address key : ℕ) (d : Dict (List ℕ))
    → contains k (keys_at a (unwatch address key d))
      ≡ (not (address == a && key == k) && contains k (keys_at a d))
unfolding unwatch
keys-unwatch k a address key d =
    let left = contains-discard k key (keys_at address d) in
    rw (keys-written) (elim (Bool-cases (address == a)) [
      | inr other ↦ rw other refl
      | inl same ↦
          let place : keys_at address d ≡ keys_at a d = ground (arith, same) in
          rw (same, left, place) refl
    ])

IsIndexed-load_wallet :
    (now key : ℕ) (restored : Option Loaded) (n : Network)
    → IsIndexed n
    → IsIndexed (load_wallet now key restored n)
unfolding IsIndexed load_wallet
IsIndexed-load_wallet now key restored n v = elim (Option-cases (lookup key n.wallets)) [
  | inr (l, e) ↦ rw (load_wallet, e) v
  | inl free ↦ elim (Option-cases restored) [
    | inl f ↦ rw (load_wallet, free, f) v
    | inr (l, f) ↦
        rw (load_wallet, free, f)
          (λ k a.
            rw (keys-watch, lookup-insert, v k a)
              (elim (Bool-cases (key == k)) [
                | inr other ↦ rw other (ground arith)
                | inl same ↦
                    let missing : lookup k n.wallets ≡ none = ground (arith, same, free) in
                    rw (same, missing) (ground arith)
              ]))
  ]
]

IsIndexed-close_wallet_impl :
    (key : ℕ) (n : Network) → IsIndexed n → IsIndexed (close_wallet_impl key n).1
unfolding IsIndexed close_wallet_impl
IsIndexed-close_wallet_impl key n v = elim (Option-cases (lookup key n.wallets)) [
  | inl free ↦ rw (close_wallet_impl, free) v
  | inr (l, e) ↦
      rw (close_wallet_impl, e)
        (λ k a.
          rw (keys-unwatch, lookup-erase, v k a)
            (elim (Bool-cases (key == k)) [
              | inr other ↦ rw other (ground arith)
              | inl same ↦
                  let there : lookup k n.wallets ≡ some l = ground (arith, same, e) in
                  rw (same, there) (ground arith)
            ]))
]

address-credit :
    (tx : Transaction) (amount : ℕ) (l : Loaded) → (credit tx amount l).address ≡ l.address
unfolding credit
address-credit tx amount l = ground arith

lookup-credit_all :
    (tx : Transaction) (amount a k : ℕ) (ks : List ℕ) (ws : Dict Loaded)
    → has_address a (lookup k (credit_all tx amount ks ws)) ≡ has_address a (lookup k ws)
unfolding credit_all
lookup-credit_all tx amount a k [] ws = refl
lookup-credit_all tx amount a k (j ∷ ks) ws = elim (Option-cases (lookup j ws)) [
  | inl e ↦ rw (credit_all, e) refl
  | inr (l, e) ↦
      rw
        (
          credit_all,
          e,
          lookup-credit_all tx amount a k ks (insert j (credit tx amount l) ws),
          lookup-insert,
        )
        (elim (Bool-cases (j == k)) [
          | inr other ↦ rw other refl
          | inl same ↦
              let there : lookup k ws ≡ some l = ground (arith, same, e) in
              rw (same, there) (ap (λ b. b == a) (address-credit tx amount l))
        ])
]

IsIndexed-process_transaction :
    (tx : Transaction) (amount : ℕ) (n : Network)
    → IsIndexed n
    → IsIndexed (process_transaction tx amount n)
unfolding IsIndexed process_transaction
IsIndexed-process_transaction tx amount n v = elim (Option-cases (lookup tx.to n.addresses)) [
  | inl e ↦ rw (process_transaction, e) v
  | inr (ks, e) ↦
      rw (process_transaction, e)
        (λ k a. v k a ∙ sym (lookup-credit_all tx amount a k ks n.wallets))
]

IsIndexed-changed :
    (key : ℕ) (l : Loaded) (w : Wallet) (n : Network)
    → lookup key n.wallets ≡ some l
    → IsIndexed n
    → IsIndexed (record n { wallets = insert key (record l { requests = w }) n.wallets })
unfolding IsIndexed
IsIndexed-changed key l w n e v = λ k a.
    v k a
    ∙ rw lookup-insert (elim (Bool-cases (key == k)) [
      | inr other ↦ rw other refl
      | inl same ↦
          let there : lookup k n.wallets ≡ some l = ground (arith, same, e) in rw (same, there) refl
    ])

abbrev pub no_wallets : Network
no_wallets = record { wallets = []; addresses = [] }

empty-IsIndexed : IsIndexed no_wallets
unfolding IsIndexed lookup
empty-IsIndexed = λ k a. refl

-- What a daemon does with its wallets; the requests of a wallet change in any way.
pub data Running : Network → Type 0 where
  started : Running no_wallets
  loads :
      {n : Network} (now key : ℕ) (restored : Option Loaded)
      → Running n
      → Running (load_wallet now key restored n)
  closes : {n : Network} (key : ℕ) → Running n → Running (close_wallet_impl key n).1
  sees :
      {n : Network} (tx : Transaction) (amount : ℕ)
      → Running n
      → Running (process_transaction tx amount n)
  changes :
      {n : Network} (key : ℕ) (l : Loaded) (w : Wallet)
      → lookup key n.wallets ≡ some l
      → Running n
      → Running (record n { wallets = insert key (record l { requests = w }) n.wallets })

-- Whatever wallets a daemon loads and closes, and whatever transactions it sees, it watches an address for
-- a wallet exactly if the wallet is loaded and has that address.
pub Running-IsIndexed : (n : Network) → Running n → IsIndexed n
Running-IsIndexed n started = empty-IsIndexed
Running-IsIndexed new (loads {n} now key restored r) =
    IsIndexed-load_wallet now key restored n (Running-IsIndexed n r)
Running-IsIndexed new (closes {n} key r) = IsIndexed-close_wallet_impl key n (Running-IsIndexed n r)
Running-IsIndexed new (sees {n} tx amount r) =
    IsIndexed-process_transaction tx amount n (Running-IsIndexed n r)
Running-IsIndexed new (changes {n} key l w e r) =
    IsIndexed-changed key l w n e (Running-IsIndexed n r)
