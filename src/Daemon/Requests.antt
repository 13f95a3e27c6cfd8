-- ===== src/Daemon/Requests.antt =====
-- The payment requests of a wallet: `class Wallet` and `class Invoice` of
-- daemons/genericprocessor.py. Request ids, addresses and hashes are keys of the same two dicts, so
-- all are numbers. Amounts of payments are counted in the smallest unit of the coin.
pub mod Valid
pub mod Payments
pub mod Detection
pub mod Start
pub mod Steps
pub mod Once
use bitcart.Base.{
  ℕ, Bool, true, false, Option, none, some, List, [], ◌∷◌, ◌++◌, ◌+◌, ◌<◌, not, ◌&&◌, ◌||◌, ◌==◌,
  ltb, leb, if◌then◌else◌, or_else, is_some, contains,
}
use bitcart.Base.Int.{ℤ, pos, ltb_ℤ, pos_part}
use bitcart.Base.Dict.{Dict, lookup, insert, erase}

-- `PR_UNPAID`, `PR_EXPIRED`, `PR_PAID`, `PR_UNCONFIRMED`
pub data RequestStatus : Type 0 where
  unpaid expired paid unconfirmed : RequestStatus

abbrev pub is_unpaid : RequestStatus → Bool
is_unpaid unpaid = true
is_unpaid _ = false

-- `status in (PR_PAID, PR_EXPIRED)`
abbrev pub is_closed : RequestStatus → Bool
is_closed paid = true
is_closed expired = true
is_closed _ = false

pub record Request : Type 0 where
  pub id : ℕ
  pub amount : ℕ
  pub sent_amount : ℕ
  pub exp : ℕ
  pub time : ℕ
  pub address : ℕ
  pub payment_address : Option ℕ
  pub status : RequestStatus
  pub tx_hashes : List ℕ
  pub contract : Option ℕ

-- `saves` counts the writes of the wallet's file that `save_db` asks for.
pub record Wallet : Type 0 where
  pub receive_requests : Dict Request
  pub request_addresses : Dict ℕ
  pub saves : ℕ

abbrev save_db : Wallet → Wallet
save_db w = record w { saves = w.saves + 1 }

-- `make_payment_request` and `create_payment_request_object` with the id and the time that they
-- draw; `none` is the exception "Out of bounds amount".
pub make_payment_request : ℕ → ℕ → ℕ → Option ℤ → Option ℕ → Option Request
make_payment_request id now address amount expiration =
    let value : ℤ = or_else amount (pos 0) in
    if ltb_ℤ value (pos 0)
    then none
    else some (record {
      id = id;
      amount = pos_part value;
      sent_amount = 0;
      exp = or_else expiration 0;
      time = now;
      address = address;
      payment_address = none;
      status = unpaid;
      tx_hashes = [];
      contract = none;
    })

unfoldable pub add_payment_request : Request → Bool → Wallet → Wallet
add_payment_request r save w =
    let w' = record w { receive_requests = insert r.id r w.receive_requests } in
    if save then save_db w' else w'

unfoldable pub get_request : ℕ → Wallet → Option Request
get_request key w = lookup (or_else (lookup key w.request_addresses) key) w.receive_requests

-- `self.request_addresses.pop(req.payment_address, None)`; no key is `None`.
unfoldable pub remove_from_detection_dict : Request → Wallet → Wallet
remove_from_detection_dict r w = elim r.payment_address [
  | none ↦ w
  | some a ↦ record w { request_addresses = erase a w.request_addresses }
]

pub remove_request : ℕ → Wallet → Bool × Wallet
remove_request key w = elim (get_request key w) [
  | none ↦ (false, w)
  | some r ↦
      let w' = remove_from_detection_dict r w in
      (true, save_db (record w' { receive_requests = erase r.id w'.receive_requests }))
]

-- `list(dict.fromkeys(hashes + [h]))`, for a list without repetitions.
abbrev pub add_hash : ℕ → List ℕ → List ℕ
add_hash h hs = if contains h hs then hs else hs ++ h ∷ []

-- The guards of `set_request_status`: a paid request is immutable, and one that is in the mempool
-- does not expire.
abbrev pub is_frozen : RequestStatus → RequestStatus → Bool
is_frozen paid new = true
is_frozen unconfirmed expired = true
is_frozen _ new = false

-- What `set_request_status` writes on the request; `contract` is its keyword argument, if given.
unfoldable pub set_status : RequestStatus → Option ℕ → Option (Option ℕ) → Request → Request
set_status status tx_hash contract r = record r {
  status = status;
  tx_hashes = elim tx_hash [ none ↦ r.tx_hashes | some h ↦ add_hash h r.tx_hashes ];
  contract = or_else contract r.contract;
}

unfoldable pub set_request_status :
    ℕ → RequestStatus → Option ℕ → Option (Option ℕ) → Wallet → Option Request × Wallet
set_request_status key status tx_hash contract w = elim (get_request key w) [
  | none ↦ (none, w)
  | some r ↦
      if is_frozen r.status status
      then (some r, w)
      else (let r' = set_status status tx_hash contract r in
          let w' = add_payment_request r' false w in
          (some r', save_db (if is_closed status then remove_from_detection_dict r' w' else w')))
]

unfoldable pub set_request_address : ℕ → ℕ → Wallet → Option Request × Wallet
set_request_address key address w = elim (get_request key w) [
  | none ↦ (none, w)
  | some r ↦
      let w' = remove_from_detection_dict r w in
      let r' = record r { payment_address = some address } in
      (
        some r',
        add_payment_request r' true
            (record w' { request_addresses = insert address r.id w'.request_addresses }),
      )
]

-- `expired_task` after its wait.
pub expired_task : Request → Wallet → Wallet
expired_task req w = elim (get_request req.id w) [
  | none ↦ w
  | some r ↦ (set_request_status r.id expired none none w).1
]

pub record Transaction : Type 0 where
  pub hash : ℕ
  pub from_addr : ℕ
  pub to : ℕ
  pub value : ℕ
  pub contract : Option ℕ

-- `req.sent_amount += amount`, on the object that the dict holds.
unfoldable pub receive : ℕ → Request → Wallet → Wallet
receive amount r w = record w {
  receive_requests =
      insert r.id (record r { sent_amount = r.sent_amount + amount }) w.receive_requests;
}

-- The early return of `process_new_payment`: the request is not waiting, or knows the transaction.
unfoldable pub is_ignored : Transaction → Request → Bool
is_ignored tx r = not (is_unpaid r.status) || contains tx.hash r.tx_hashes

-- `PR_PAID if req.sent_amount >= req.amount else PR_UNPAID`, after the payment.
unfoldable pub reached : ℕ → Request → RequestStatus
reached amount r = if leb r.amount (r.sent_amount + amount) then paid else unpaid

-- `process_new_payment` with `process_payment`: the event that is triggered, if any, is the request
-- as it stands after the payment.
unfoldable pub process_new_payment : ℕ → Transaction → ℕ → Wallet → Option Request × Wallet
process_new_payment lookup_field tx amount w = elim (get_request lookup_field w) [
  | none ↦ (none, w)
  | some r ↦
      if is_ignored tx r
      then (none, w)
      else set_request_status r.id (reached amount r) (some tx.hash) (some tx.contract)
          (receive amount r w)
]
