-- ===== src/Daemon/Wallets.antt =====
-- The wallets that a daemon has loaded, the addresses that it watches for them, and the transactions
-- that it hands to them: `process_transaction`, `close_wallet_impl` and the request methods of
-- daemons/genericprocessor.py, and `load_wallet` of daemons/eth.py. The lock of a wallet is held.
pub mod Indexed
use bitcart.Base.{
  ℕ, ◌≡◌, refl, Bool, true, false, Option, none, some, List, [], ◌∷◌, ◌++◌, ◌&&◌, ◌==◌,
  if◌then◌else◌, or_else, is_some, contains, arith, Option-cases, inl, inr, ◌∙◌, holds,
}
use bitcart.Base.Int.{ℤ}
use bitcart.Base.Dict.{Dict, lookup, insert, erase, lookup-insert}
use bitcart.Daemon.Requests.{
  Request, Wallet, Transaction, make_payment_request, add_payment_request, remove_request,
  set_request_address, process_new_payment,
}
use bitcart.Daemon.Requests.Start.{start}

pub record Loaded : Type 0 where
  pub address : ℕ
  pub contract : Option ℕ
  pub requests : Wallet

-- `self.wallets` and `self.addresses`.
pub record Network : Type 0 where
  pub wallets : Dict Loaded
  pub addresses : Dict (List ℕ)

-- `tx.contract != wallet_contract`, negated.
abbrev same_contract : Option ℕ → Option ℕ → Bool
same_contract none none = true
same_contract none (some c) = false
same_contract (some c) d = holds d c

-- The body of the loop of `process_transaction`, for a wallet that is loaded.
credit : Transaction → ℕ → Loaded → Loaded
credit tx amount l =
    if same_contract tx.contract l.contract
      && is_some (lookup tx.from_addr l.requests.request_addresses)
    then record l { requests = (process_new_payment tx.from_addr tx amount l.requests).1 }
    else l

credit_all : Transaction → ℕ → List ℕ → Dict Loaded → Dict Loaded
unfolding credit
credit_all tx amount [] ws = ws
credit_all tx amount (k ∷ ks) ws = elim (lookup k ws) [
  | none ↦ ws
  | some l ↦ credit_all tx amount ks (insert k (credit tx amount l) ws)
]

-- `process_transaction`, with the payment that its task processes.
unfoldable pub process_transaction : Transaction → ℕ → Network → Network
unfolding credit_all
process_transaction tx amount n = elim (lookup tx.to n.addresses) [
  | none ↦ n
  | some ks ↦ record n { wallets = credit_all tx amount ks n.wallets }
]

-- `self.addresses[address].add(key)`, for a set as a list.
watch : ℕ → ℕ → Dict (List ℕ) → Dict (List ℕ)
watch address key d =
    let ks = or_else (lookup address d) [] in
    if contains key ks then d else insert address (ks ++ key ∷ []) d

-- `discard(key)`
discard : ℕ → List ℕ → List ℕ
discard key [] = []
discard key (k ∷ ks) = let rest = discard key ks in if k == key then rest else k ∷ rest

-- `discard` with the removal of an empty set.
unwatch : ℕ → ℕ → Dict (List ℕ) → Dict (List ℕ)
unfolding discard
unwatch address key d = elim (discard key (or_else (lookup address d) [])) [
  | [] ↦ erase address d
  | k ∷ ks ↦ insert address (k ∷ ks) d
]

-- `load_wallet`: a wallet that is loaded already stays; `restore` gives the wallet of a file or of
-- the given key, if there is one.
unfoldable pub load_wallet : ℕ → ℕ → Option Loaded → Network → Network
unfolding watch
load_wallet now key restored n = elim (lookup key n.wallets) [
  | some l ↦ n
  | none ↦ elim restored [
    | none ↦ n
    | some l ↦ record {
      wallets = insert key (record l { requests = start now l.requests }) n.wallets;
      addresses = watch l.address key n.addresses;
    }
  ]
]

unfoldable pub close_wallet_impl : ℕ → Network → Bool × Network
unfolding unwatch
close_wallet_impl key n = elim (lookup key n.wallets) [
  | none ↦ (false, n)
  | some l ↦ (
    true,
    record { wallets = erase key n.wallets; addresses = unwatch l.address key n.addresses },
  )
]

-- The method `add_request`; `none` is an exception.
add_request : ℕ → ℕ → Option ℤ → Option ℕ → Loaded → Option (Request × Loaded)
add_request id now amount expiration l =
    elim (make_payment_request id now l.address amount expiration) [
      | none ↦ none
      | some r ↦ some (r, record l { requests = add_payment_request r true l.requests })
    ]

-- The methods `rmrequest` and `setrequestaddress`; the second answers whether the request exists, and
-- `normalize` is the coin's check of an address with its normal form.
rmrequest : ℕ → Loaded → Bool × Loaded
rmrequest key l = let (ok, w) = remove_request key l.requests in (ok, record l { requests = w })

setrequestaddress : (ℕ → Option ℕ) → ℕ → ℕ → Loaded → Bool × Loaded
setrequestaddress normalize key address l = elim (normalize address) [
  | none ↦ (false, l)
  | some a ↦
      let (r, w) = set_request_address key a l.requests in (is_some r, record l { requests = w })
]

-- A transaction changes only wallets that watch its receiver.
credit_all-others :
    (k : ℕ) (tx : Transaction) (amount : ℕ) (ks : List ℕ) (ws : Dict Loaded)
    → contains k ks ≡ false
    → lookup k (credit_all tx amount ks ws) ≡ lookup k ws
unfolding credit_all
credit_all-others k tx amount [] ws h = refl
credit_all-others k tx amount (j ∷ ks) ws h = elim (Option-cases (lookup j ws)) [
  | inl e ↦ rw (e, credit_all) refl
  | inr (l, e) ↦
      rw (e, credit_all)
        (credit_all-others k tx amount ks (insert j (credit tx amount l) ws) (ground (arith, h))
          ∙ ground (arith, h, lookup-insert j k (credit tx amount l) ws))
]
