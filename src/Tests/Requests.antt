-- ===== src/Tests/Requests.antt =====
-- The requests of a daemon's wallet at concrete payments and timeouts.
use bitcart.Base.{ℕ, ◌≡◌, refl, true, none, some, [], ◌∷◌, arith}
use bitcart.Base.Dict.{lookup, insert, erase}
use bitcart.Daemon.Requests.{
  Request, unpaid, Wallet, Transaction, add_payment_request, get_request, set_request_address,
  process_new_payment, expired_task, remove_from_detection_dict, is_ignored, set_request_status,
  set_status, receive, reached,
}
use bitcart.Daemon.Requests.Valid.{
  IsValid, add_payment_request-IsValid, set_request_address-IsValid,
}
use bitcart.Daemon.Requests.Steps.{Steps, untouched, readdressed, received, Steps-IsValid}
use bitcart.Daemon.Requests.Detection.{timeout_hides_other}
use bitcart.Daemon.Requests.Once.{credited_once}

abbrev request : ℕ → Request
request i = record {
  id = i;
  amount = 10;
  sent_amount = 0;
  exp = 900;
  time = 5;
  address = 40;
  payment_address = none;
  status = unpaid;
  tx_hashes = [];
  contract = none;
}

abbrev opened : Wallet
opened = record { receive_requests = []; request_addresses = []; saves = 0 }

abbrev two : Wallet
two = add_payment_request (request 2) true (add_payment_request (request 1) true opened)

abbrev watching : Wallet
watching = (set_request_address 2 50 (set_request_address 1 50 two).1).1

abbrev transfer : Transaction
transfer = record { hash = 900; from_addr = 50; to = 40; value = 12; contract = none }

abbrev waiting : ℕ → Request
waiting i = record (request i) { payment_address = some 50 }

opened-IsValid : IsValid opened
unfolding lookup
opened-IsValid = record {
  keyed = λ k r h. ground arith;
  ids_free = λ k r h. refl;
  detects = λ a i h. ground arith;
}

two-IsValid : IsValid two
unfolding add_payment_request lookup insert
two-IsValid =
    add_payment_request-IsValid (request 2) true (add_payment_request (request 1) true opened)
      (add_payment_request-IsValid (request 1) true opened opened-IsValid refl refl) refl refl

watching-IsValid : IsValid watching
unfolding add_payment_request set_request_address remove_from_detection_dict get_request lookup
    insert erase
watching-IsValid =
    set_request_address-IsValid 2 50 (set_request_address 1 50 two).1 refl
      (set_request_address-IsValid 1 50 two refl two-IsValid)

-- A first part of the amount, and then another address for the request.
abbrev part : Wallet
part = (process_new_payment 50 transfer 5 watching).1

abbrev moved : Wallet
moved = (set_request_address 2 60 part).1

abbrev partly_paid : Request
partly_paid = record (request 2) {
  payment_address = some 60;
  sent_amount = 5;
  tx_hashes = 900 ∷ [];
}

move : Steps part moved
unfolding add_payment_request set_request_address remove_from_detection_dict get_request lookup
    insert erase process_new_payment is_ignored set_request_status set_status receive reached
move = readdressed 2 60 refl untouched

credited_once_example : process_new_payment 60 transfer 5 moved ≡ (none, moved)
unfolding add_payment_request set_request_address remove_from_detection_dict get_request lookup
    insert erase process_new_payment is_ignored set_request_status set_status receive reached move
credited_once_example =
    credited_once 50 60 transfer 5 5 watching moved (waiting 2) partly_paid watching-IsValid refl
      refl move tt refl refl

timeout_hides_other_example :
    (lookup 2 (expired_task (waiting 1) watching).receive_requests ≡ some (waiting 2))
    × (process_new_payment 50 transfer 12 (expired_task (waiting 1) watching)
        ≡ (none, expired_task (waiting 1) watching))
unfolding add_payment_request set_request_address remove_from_detection_dict get_request lookup
    insert erase
timeout_hides_other_example =
    timeout_hides_other 50 transfer 12 watching (waiting 1) (waiting 2) watching-IsValid refl refl
      refl refl (omega arith) refl

-- The two requests of `two` are given one address, and a payment from it arrives.
used : Steps two (process_new_payment 50 transfer 12 watching).1
unfolding add_payment_request set_request_address remove_from_detection_dict get_request lookup
    insert erase
used = received 50 transfer 12 (readdressed 2 50 refl (readdressed 1 50 refl untouched))

Steps-IsValid_example : IsValid (process_new_payment 50 transfer 12 watching).1
Steps-IsValid_example =
    Steps-IsValid two (process_new_payment 50 transfer 12 watching).1 two-IsValid used
