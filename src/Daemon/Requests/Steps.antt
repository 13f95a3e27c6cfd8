-- ===== src/Daemon/Requests/Steps.antt =====
-- The operations on the payment requests of a wallet in any order (daemons/genericprocessor.py).
use bitcart.Base.{ℕ, Option, none, ◌≡◌, Bool}
use bitcart.Base.Dict.{lookup}
use bitcart.Daemon.Requests.{
  Request, RequestStatus, Wallet, Transaction, add_payment_request, remove_request,
  set_request_address, set_request_status, expired_task, process_new_payment,
}
use bitcart.Daemon.Requests.Valid.{
  IsValid, add_payment_request-IsValid, remove_request-IsValid, set_request_address-IsValid,
  set_request_status-IsValid, expired_task-IsValid, process_new_payment-IsValid,
}

-- From one wallet to another: a new request has an unused id, and an address that is given is no id.
pub data Steps (w : Wallet) : Wallet → Type 0 where
  untouched : Steps w w
  added :
      {v : Wallet} (r : Request) (save : Bool)
      → lookup r.id v.receive_requests ≡ none
      → lookup r.id v.request_addresses ≡ none
      → Steps w v
      → Steps w (add_payment_request r save v)
  readdressed :
      {v : Wallet} (key a : ℕ)
      → lookup a v.receive_requests ≡ none
      → Steps w v
      → Steps w (set_request_address key a v).1
  marked :
      {v : Wallet} (key : ℕ) (status : RequestStatus) (h : Option ℕ) (c : Option (Option ℕ))
      → Steps w v
      → Steps w (set_request_status key status h c v).1
  timed_out : {v : Wallet} (r : Request) → Steps w v → Steps w (expired_task r v)
  removed : {v : Wallet} (key : ℕ) → Steps w v → Steps w (remove_request key v).1
  received :
      {v : Wallet} (key : ℕ) (tx : Transaction) (amount : ℕ)
      → Steps w v
      → Steps w (process_new_payment key tx amount v).1

-- Whatever is done with the requests of a wallet, and in whatever order, the requests and the watched
-- addresses agree: a request stands under its id, no id is watched, and a watched address is the payment
-- address of the request that it stands for.
pub Steps-IsValid : (w new : Wallet) → IsValid w → Steps w new → IsValid new
Steps-IsValid w new valid untouched = valid
Steps-IsValid w new valid (added {v} r save free unwatched s) =
    add_payment_request-IsValid r save v (Steps-IsValid w v valid s) free unwatched
Steps-IsValid w new valid (readdressed {v} key a free s) =
    set_request_address-IsValid key a v free (Steps-IsValid w v valid s)
Steps-IsValid w new valid (marked {v} key status h c s) =
    set_request_status-IsValid key status h c v (Steps-IsValid w v valid s)
Steps-IsValid w new valid (timed_out {v} r s) = expired_task-IsValid r v (Steps-IsValid w v valid s)
Steps-IsValid w new valid (removed {v} key s) =
    remove_request-IsValid key v (Steps-IsValid w v valid s)
Steps-IsValid w new valid (received {v} key tx amount s) =
    process_new_payment-IsValid key tx amount v (Steps-IsValid w v valid s)
