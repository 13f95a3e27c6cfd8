-- ===== src/Daemon/Requests/Detection.antt =====
-- Which payments are credited, and how often.
use bitcart.Base.{
  contains-append, ℕ, ◌≡◌, ◌≢◌, refl, Bool, true, false, Option, none, some, [], ◌∷◌, arith,
  if◌then◌else◌, Option-cases, or_else, Bool-cases, inl, inr, ◌⊎◌,
}
use bitcart.Base.Dict.{lookup, insert, erase, lookup-insert, lookup-erase}
use bitcart.Daemon.Requests.{
  Request, RequestStatus, unpaid, paid, expired, Wallet, get_request, add_payment_request,
  remove_from_detection_dict, set_status, set_request_status, expired_task, Transaction, receive,
  process_new_payment, is_frozen, is_ignored, reached, is_closed,
}
use bitcart.Daemon.Requests.Valid.{IsValid, lookup-get_request}
use bitcart.Daemon.Requests.Payments.{get_request-id, lookup-process_new_payment, credited}

addresses-closing :
    (a : ℕ) (b : Bool) (r : Request) (w : Wallet)
    → (lookup a (if b then remove_from_detection_dict r w else w).request_addresses
        ≡ lookup a w.request_addresses)
      ⊎ (lookup a (if b then remove_from_detection_dict r w else w).request_addresses ≡ none)
unfolding remove_from_detection_dict
addresses-closing a false r w = inl refl
addresses-closing a true r w = elim (Option-cases r.payment_address) [
  | inl e ↦ inl (rw e)
  | inr (k, e) ↦ rw e (ground (arith, lookup-erase k a w.request_addresses))
]

addresses-set_request_status :
    (a key : ℕ) (status : RequestStatus) (h : Option ℕ) (c : Option (Option ℕ)) (w : Wallet)
    → (lookup a (set_request_status key status h c w).1.request_addresses
        ≡ lookup a w.request_addresses)
      ⊎ (lookup a (set_request_status key status h c w).1.request_addresses ≡ none)
unfolding set_request_status add_payment_request
addresses-set_request_status a key status h c w = elim (Option-cases (get_request key w)) [
  | inl e ↦ rw (e, set_request_status) (inl refl)
  | inr (r, e) ↦
      rw (e, set_request_status)
        (elim (Bool-cases (is_frozen r.status status)) [
          | inl b ↦ rw b (inl refl)
          | inr b ↦ rw b (
              addresses-closing a (is_closed status) (set_status status h c r)
                (add_payment_request (set_status status h c r) false w))
        ])
]

addresses-process_new_payment :
    (a key : ℕ) (tx : Transaction) (amount : ℕ) (w : Wallet)
    → (lookup a (process_new_payment key tx amount w).1.request_addresses
        ≡ lookup a w.request_addresses)
      ⊎ (lookup a (process_new_payment key tx amount w).1.request_addresses ≡ none)
unfolding process_new_payment receive
addresses-process_new_payment a key tx amount w = elim (Option-cases (get_request key w)) [
  | inl e ↦ rw (e, process_new_payment) (inl refl)
  | inr (r, e) ↦
      rw (e, process_new_payment)
        (elim (Bool-cases (is_ignored tx r)) [
          | inl b ↦ rw b (inl refl)
          | inr b ↦ rw b (
              addresses-set_request_status a r.id (reached amount r) (some tx.hash)
                (some tx.contract) (receive amount r w))
        ])
]

ignored_once_credited :
    (tx : Transaction) (amount : ℕ) (r : Request) → is_ignored tx (credited tx amount r) ≡ true
unfolding is_ignored credited set_status
ignored_once_credited tx amount r =
    ground (arith, contains-append tx.hash r.tx_hashes (tx.hash ∷ []))

-- A call that finds nothing, or a request that ignores the transaction, does nothing.
pub process_new_payment_idle :
    (key : ℕ) (tx : Transaction) (amount : ℕ) (w : Wallet)
    → ((r : Request) → get_request key w ≡ some r → is_ignored tx r ≡ true)
    → process_new_payment key tx amount w ≡ (none, w)
unfolding process_new_payment
process_new_payment_idle key tx amount w h = elim (Option-cases (get_request key w)) [
  | inl e ↦ rw (e, process_new_payment)
  | inr (r, e) ↦ rw (e, process_new_payment, h r e)
]

-- What a key stands for after its payment was credited: the credited request, or nothing.
found_after :
    (key : ℕ) (tx : Transaction) (amount : ℕ) (w : Wallet) (r s : Request)
    → IsValid w
    → get_request key w ≡ some r
    → is_ignored tx r ≡ false
    → get_request key (process_new_payment key tx amount w).1 ≡ some s
    → s ≡ credited tx amount r
unfolding get_request
found_after key tx amount w r s v e n f = ground (
  arith,
  addresses-process_new_payment key key tx amount w,
  lookup-process_new_payment key key tx amount w r v e n,
  lookup-process_new_payment r.id key tx amount w r v e n,
  v.keyed (or_else (lookup key w.request_addresses) key) r e,
  v.ids_free key s,
)

-- A call that repeats the one before changes nothing.
repeated_idle :
    (key : ℕ) (tx : Transaction) (amount : ℕ) (w : Wallet)
    → IsValid w
    → let w' = (process_new_payment key tx amount w).1 in
      process_new_payment key tx amount w' ≡ (none, w')
repeated_idle key tx amount w v = elim (Option-cases (get_request key w)) [
  | inl e ↦ let idle = process_new_payment_idle key tx amount w (λ r h. cc (e, h)) in rw idle idle
  | inr (r, e) ↦ elim (Bool-cases (is_ignored tx r)) [
    | inl b ↦
        let idle = process_new_payment_idle key tx amount w (λ s h. cc (e, h, b)) in rw idle idle
    | inr b ↦
        process_new_payment_idle key tx amount (process_new_payment key tx amount w).1
          λ s h. rw (found_after key tx amount w r s v e b h) (ignored_once_credited tx amount r)
  ]
]

-- A paid request stays as it is under every later payment to its wallet.
pub paid_is_final :
    (i key : ℕ) (tx : Transaction) (amount : ℕ) (w : Wallet) (s : Request)
    → IsValid w
    → lookup i w.receive_requests ≡ some s
    → s.status ≡ paid
    → lookup i (process_new_payment key tx amount w).1.receive_requests ≡ some s
unfolding is_ignored
paid_is_final i key tx amount w s v e p = elim (Option-cases (get_request key w)) [
  | inl f ↦ rw (process_new_payment_idle key tx amount w (λ r h. cc (f, h))) e
  | inr (r, f) ↦ elim (Bool-cases (is_ignored tx r)) [
    | inl b ↦ rw (process_new_payment_idle key tx amount w (λ s h. cc (f, h, b))) e
    | inr b ↦ ground (
      arith,
      lookup-process_new_payment i key tx amount w r v f b,
      lookup-get_request key w r v f,
    )
  ]
]

-- The wallet after the timeout of an unpaid request that waits for payments from `a`.
timed_out :
    (a : ℕ) (w : Wallet) (r : Request)
    → IsValid w
    → lookup r.id w.receive_requests ≡ some r
    → r.payment_address ≡ some a
    → r.status ≡ unpaid
    → ((expired_task r w).request_addresses ≡ erase a w.request_addresses)
      × ((expired_task r w).receive_requests
          ≡ insert r.id (record r { status = expired }) w.receive_requests)
unfolding expired_task set_request_status add_payment_request set_status remove_from_detection_dict
timed_out a w r v e p u = ground (arith, get_request-id w r v e)

-- Once a watched address is dropped and the requests keep their ids, nothing is found under it.
gone :
    (a : ℕ) (w w' : Wallet) (r s : Request)
    → IsValid w
    → lookup r.id w.receive_requests ≡ some r
    → lookup a w.request_addresses ≡ some s.id
    → lookup s.id w.receive_requests ≡ some s
    → w'.request_addresses ≡ erase a w.request_addresses
    → w'.receive_requests ≡ insert r.id (record r { status = expired }) w.receive_requests
    → get_request a w' ≡ none
unfolding get_request
gone a w w' r s v e d e' f g =
    let absent : lookup a w.receive_requests ≡ none =
      elim (Option-cases (lookup a w.receive_requests)) [
        | inl h ↦ h
        | inr (q, h) ↦ let n = v.ids_free a q h in cc (d, n)
      ] in
    rw (f, g)
      (ground (
        arith,
        lookup-erase a a w.request_addresses,
        lookup-insert r.id a (record r { status = expired }) w.receive_requests,
        v.ids_free r.id r e,
      ))

-- If a second request of the wallet took over the payment address of a first one, then the timeout
-- of the first removes the address: the second request still waits, and a payment from the
-- address is no longer credited to it.
pub timeout_hides_other :
    (a : ℕ) (tx : Transaction) (amount : ℕ) (w : Wallet) (first second : Request)
    → IsValid w
    → lookup first.id w.receive_requests ≡ some first
    → first.payment_address ≡ some a
    → first.status ≡ unpaid
    → lookup second.id w.receive_requests ≡ some second
    → first.id ≢ second.id
    → lookup a w.request_addresses ≡ some second.id
    → (lookup second.id (expired_task first w).receive_requests ≡ some second)
      × (process_new_payment a tx amount (expired_task first w) ≡ (none, expired_task first w))
timeout_hides_other a tx amount w first second v e p u e' n d =
    let (addrs, reqs) = timed_out a w first v e p u in
    let first' : Request = record first { status = expired } in
    let kept : lookup second.id (expired_task first w).receive_requests ≡ some second =
      rw reqs (ground (arith, lookup-insert first.id second.id first' w.receive_requests)) in
    let none_found = gone a w (expired_task first w) first second v e d e' addrs reqs in
    (kept, process_new_payment_idle a tx amount (expired_task first w) λ s h. cc (h, none_found))
