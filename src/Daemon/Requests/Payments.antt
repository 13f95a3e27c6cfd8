-- ===== src/Daemon/Requests/Payments.antt =====
-- What payments and timeouts do to a request.
use bitcart.Base.{
  ℕ, ◌≡◌, refl, Bool, true, false, Option, some, arith, ◌==◌, ==_iff, if◌then◌else◌, Bool-cases,
  inl, inr, ◌+◌, leb, ◌∙◌,
}
use bitcart.Base.Dict.{Dict, lookup, lookup-insert}
use bitcart.Daemon.Requests.{
  Request, RequestStatus, unpaid, paid, Wallet, get_request, add_payment_request,
  remove_from_detection_dict, set_status, set_request_status, Transaction, receive,
  process_new_payment, is_frozen, is_ignored, reached, add_hash,
}
use bitcart.Daemon.Requests.Valid.{IsValid, lookup-get_request, requests-undetect, receive-IsValid}

-- A request is found under its own id.
pub get_request-id :
    (w : Wallet) (r : Request)
    → IsValid w
    → lookup r.id w.receive_requests ≡ some r
    → get_request r.id w ≡ some r
unfolding get_request
get_request-id w r v e = rw (v.ids_free r.id r e) e

pub requests-closing :
    (b : Bool) (r : Request) (w : Wallet)
    → (if b then remove_from_detection_dict r w else w).receive_requests ≡ w.receive_requests
requests-closing true r w = requests-undetect w r
requests-closing false r w = refl

same_lookup :
    (i : ℕ) (r : Request) (d : Dict Request)
    → lookup r.id d ≡ some r
    → lookup i d ≡ (if r.id == i then some r else lookup i d)
same_lookup i r d e = elim (Bool-cases (r.id == i)) [
  | inl b ↦ rw b (cc (e, (==_iff r.id i).0 b))
  | inr b ↦ rw b
]

-- `set_request_status` writes the request under its id and no other one.
lookup-set_request_status :
    (i : ℕ) (status : RequestStatus) (h : Option ℕ) (c : Option (Option ℕ)) (w : Wallet)
    (r : Request)
    → IsValid w
    → lookup r.id w.receive_requests ≡ some r
    → lookup i (set_request_status r.id status h c w).1.receive_requests ≡ (
        if r.id == i
        then some (if is_frozen r.status status then r else set_status status h c r)
        else lookup i w.receive_requests)
unfolding set_request_status add_payment_request set_status
lookup-set_request_status i status h c w r v e =
    rw (get_request-id w r v e, set_request_status)
      (elim (Bool-cases (is_frozen r.status status)) [
        | inl b ↦ rw b (same_lookup i r w.receive_requests e)
        | inr b ↦
            rw (b, requests-closing)
              (lookup-insert r.id i (set_status status h c r) w.receive_requests)
      ])

not_frozen :
    (tx : Transaction) (r : Request) (status : RequestStatus)
    → is_ignored tx r ≡ false
    → is_frozen r.status status ≡ false
unfolding is_ignored
not_frozen tx r status h = ground arith

-- The request after a payment that is not ignored.
unfoldable pub credited : Transaction → ℕ → Request → Request
credited tx amount r =
    set_status (reached amount r) (some tx.hash) (some tx.contract)
      (record r { sent_amount = r.sent_amount + amount })

-- A payment that is not ignored is credited to the request that the key stands for, and no other
-- request changes.
pub lookup-process_new_payment :
    (i key : ℕ) (tx : Transaction) (amount : ℕ) (w : Wallet) (r : Request)
    → IsValid w
    → get_request key w ≡ some r
    → is_ignored tx r ≡ false
    → lookup i (process_new_payment key tx amount w).1.receive_requests
      ≡ (if r.id == i then some (credited tx amount r) else lookup i w.receive_requests)
unfolding process_new_payment receive credited
lookup-process_new_payment i key tx amount w r v e n =
    let found = lookup-get_request key w r v e in
    let r' : Request = record r { sent_amount = r.sent_amount + amount } in
    let w' : Wallet = receive amount r w in
    let here : lookup r.id w'.receive_requests ≡ some r' =
      ground (arith, lookup-insert r.id r.id r' w.receive_requests) in
    rw (e, process_new_payment, n)
      (lookup-set_request_status i (reached amount r) (some tx.hash) (some tx.contract) w' r'
          (receive-IsValid amount r w v found) here
        ∙ ground (
          arith,
          not_frozen tx r (reached amount r) n,
          lookup-insert r.id i r' w.receive_requests,
        ))

-- What is credited: the amount and the hash, once, and the request is paid exactly when the sum
-- reaches its amount.
credited_lem :
    (tx : Transaction) (amount : ℕ) (r : Request)
    → ((credited tx amount r).sent_amount ≡ r.sent_amount + amount)
      × ((credited tx amount r).tx_hashes ≡ add_hash tx.hash r.tx_hashes)
      × ((credited tx amount r).status
          ≡ (if leb r.amount (r.sent_amount + amount) then paid else unpaid))
unfolding credited set_status reached
credited_lem tx amount r = (refl, refl, refl)
