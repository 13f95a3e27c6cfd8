-- ===== src/Daemon/Requests/Valid.antt =====
-- The two dicts of a wallet agree, and every operation keeps them so.
use bitcart.Base.{
  ℕ, ◌≡◌, ◌≢◌, refl, Bool, true, false, Option, none, some, arith, if◌then◌else◌, Option-cases,
  or_else, Bool-cases, inl, inr, ◌+◌,
}
use bitcart.Base.Dict.{Dict, lookup, insert, erase, lookup-insert, lookup-erase}
use bitcart.Daemon.Requests.{
  Request, RequestStatus, Wallet, get_request, add_payment_request, remove_from_detection_dict,
  remove_request, set_status, set_request_status, set_request_address, expired_task, Transaction,
  receive, process_new_payment, is_frozen, is_ignored, reached, expired, is_closed,
}

abbrev address_of : Option Request → Option ℕ
address_of none = none
address_of (some r) = r.payment_address

-- A request stands under its id, no id is an address to watch, and a watched address is the
-- payment address of the request that it stands for.
pub record Agree (requests : Dict Request) (addresses : Dict ℕ) : Type 0 where
  pub keyed : (k : ℕ) (r : Request) → lookup k requests ≡ some r → r.id ≡ k
  pub ids_free : (k : ℕ) (r : Request) → lookup k requests ≡ some r → lookup k addresses ≡ none
  pub detects : (a i : ℕ) → lookup a addresses ≡ some i → address_of (lookup i requests) ≡ some a

abbrev pub IsValid : Wallet → Type 0
IsValid w = Agree w.receive_requests w.request_addresses

-- A request found under a key or an address is the one that its id names.
pub lookup-get_request :
    (key : ℕ) (w : Wallet) (r : Request)
    → IsValid w
    → get_request key w ≡ some r
    → lookup r.id w.receive_requests ≡ some r
unfolding get_request
lookup-get_request key w r v e = cc (v.keyed (or_else (lookup key w.request_addresses) key) r e, e)

-- Writing a request over an old one with its payment address.
Agree-put :
    (reqs : Dict Request) (addrs : Dict ℕ) (old r : Request)
    → Agree reqs addrs
    → lookup r.id reqs ≡ some old
    → old.payment_address ≡ r.payment_address
    → Agree (insert r.id r reqs) addrs
Agree-put reqs addrs old r v e p = record {
  keyed = λ k s h. ground (arith, lookup-insert r.id k r reqs, v.keyed k s);
  ids_free = λ k s h. ground (arith, lookup-insert r.id k r reqs, v.ids_free k s, v.ids_free k old);
  detects = λ a i h. ground (arith, lookup-insert r.id i r reqs, v.detects a i);
}

-- A new request, under an id that is neither in use nor an address.
Agree-add :
    (reqs : Dict Request) (addrs : Dict ℕ) (r : Request)
    → Agree reqs addrs
    → lookup r.id reqs ≡ none
    → lookup r.id addrs ≡ none
    → Agree (insert r.id r reqs) addrs
Agree-add reqs addrs r v e f = record {
  keyed = λ k s h. ground (arith, lookup-insert r.id k r reqs, v.keyed k s);
  ids_free = λ k s h. ground (arith, lookup-insert r.id k r reqs, v.ids_free k s);
  detects = λ a i h. ground (arith, lookup-insert r.id i r reqs, v.detects a i);
}

Agree-erase_address :
    (reqs : Dict Request) (addrs : Dict ℕ) (a : ℕ) → Agree reqs addrs → Agree reqs (erase a addrs)
Agree-erase_address reqs addrs a v = record {
  keyed = v.keyed;
  ids_free = λ k s h. ground (arith, lookup-erase a k addrs, v.ids_free k s);
  detects = λ b i h. ground (arith, lookup-erase a b addrs, v.detects b i);
}

IsValid-undetect : (w : Wallet) (r : Request) → IsValid w → IsValid (remove_from_detection_dict r w)
unfolding remove_from_detection_dict
IsValid-undetect w r v = elim (Option-cases r.payment_address) [
  | inl e ↦ rw e v
  | inr (a, e) ↦ rw e (Agree-erase_address w.receive_requests w.request_addresses a v)
]

-- What `remove_from_detection_dict` leaves.
pub requests-undetect :
    (w : Wallet) (r : Request)
    → (remove_from_detection_dict r w).receive_requests ≡ w.receive_requests
unfolding remove_from_detection_dict
requests-undetect w r = ground arith

not_detected :
    (w : Wallet) (r : Request) (a : ℕ)
    → IsValid w
    → lookup r.id w.receive_requests ≡ some r
    → lookup a (remove_from_detection_dict r w).request_addresses ≢ some r.id
unfolding remove_from_detection_dict
not_detected w r a v e h = elim (Option-cases r.payment_address) [
  | inl p ↦ ground (arith, v.detects a r.id)
  | inr (b, p) ↦ ground (arith, v.detects a r.id, lookup-erase b a w.request_addresses)
]

Agree-erase :
    (reqs : Dict Request) (addrs : Dict ℕ) (i : ℕ)
    → Agree reqs addrs
    → ((a : ℕ) → lookup a addrs ≢ some i)
    → Agree (erase i reqs) addrs
Agree-erase reqs addrs i v n = record {
  keyed = λ k s h. ground (arith, lookup-erase i k reqs, v.keyed k s);
  ids_free = λ k s h. ground (arith, lookup-erase i k reqs, v.ids_free k s);
  detects = λ a j h. ground (arith, lookup-erase i j reqs, v.detects a j, n a);
}

-- An undetected request is given an address that is no id.
Agree-rebind :
    (reqs : Dict Request) (addrs : Dict ℕ) (r : Request) (b : ℕ)
    → Agree reqs addrs
    → lookup r.id reqs ≡ some r
    → ((a : ℕ) → lookup a addrs ≢ some r.id)
    → lookup b reqs ≡ none
    → Agree (insert r.id (record r { payment_address = some b }) reqs) (insert b r.id addrs)
Agree-rebind reqs addrs r b v e n f =
    let r' : Request = record r { payment_address = some b } in
    record {
      keyed = λ k s h. ground (arith, lookup-insert r.id k r' reqs, v.keyed k s);
      ids_free = λ k s h. ground (
        arith,
        lookup-insert r.id k r' reqs,
        lookup-insert b k r.id addrs,
        v.ids_free k s,
        v.ids_free k r,
      );
      detects = λ a j h.
          ground
            (arith, lookup-insert r.id j r' reqs, lookup-insert b a r.id addrs, v.detects a j, n a);
    }

IsValid-if : (b : Bool) (w w' : Wallet) → IsValid w → IsValid w' → IsValid (if b then w else w')
IsValid-if true w w' v v' = v
IsValid-if false w w' v v' = v'

pub add_payment_request-IsValid :
    (r : Request) (save : Bool) (w : Wallet)
    → IsValid w
    → lookup r.id w.receive_requests ≡ none
    → lookup r.id w.request_addresses ≡ none
    → IsValid (add_payment_request r save w)
unfolding add_payment_request
add_payment_request-IsValid r true w v e f =
    Agree-add w.receive_requests w.request_addresses r v e f
add_payment_request-IsValid r false w v e f =
    Agree-add w.receive_requests w.request_addresses r v e f

-- Removing a request keeps the two dicts in agreement.
pub remove_request-IsValid : (key : ℕ) (w : Wallet) → IsValid w → IsValid (remove_request key w).1
unfolding remove_request
remove_request-IsValid key w v = elim (Option-cases (get_request key w)) [
  | inl e ↦ rw (e, remove_request) v
  | inr (r, e) ↦
      rw (e, remove_request)
        (Agree-erase (remove_from_detection_dict r w).receive_requests _ r.id
          (IsValid-undetect w r v) (λ a. not_detected w r a v (lookup-get_request key w r v e)))
]

put_status-IsValid :
    (status : RequestStatus) (h : Option ℕ) (c : Option (Option ℕ)) (w : Wallet) (r : Request)
    → IsValid w
    → lookup r.id w.receive_requests ≡ some r
    → IsValid (add_payment_request (set_status status h c r) false w)
unfolding add_payment_request set_status
put_status-IsValid status h c w r v e =
    Agree-put w.receive_requests w.request_addresses r (set_status status h c r) v e refl

pub set_request_status-IsValid :
    (key : ℕ) (status : RequestStatus) (h : Option ℕ) (c : Option (Option ℕ)) (w : Wallet)
    → IsValid w
    → IsValid (set_request_status key status h c w).1
unfolding set_request_status
set_request_status-IsValid key status h c w v = elim (Option-cases (get_request key w)) [
  | inl e ↦ rw (e, set_request_status) v
  | inr (r, e) ↦
      rw (e, set_request_status)
        (let r' = set_status status h c r in
          let w' = add_payment_request r' false w in
          let v' : IsValid w' =
            put_status-IsValid status h c w r v (lookup-get_request key w r v e) in
          elim (Bool-cases (is_frozen r.status status)) [
            | inl b ↦ rw b v
            | inr b ↦ rw b (IsValid-if (is_closed status) _ _ (IsValid-undetect w' r' v') v')
          ])
]

-- Giving a request a payment address that is no request's id keeps the two dicts in agreement.
pub set_request_address-IsValid :
    (key a : ℕ) (w : Wallet)
    → lookup a w.receive_requests ≡ none
    → IsValid w
    → IsValid (set_request_address key a w).1
unfolding set_request_address add_payment_request
set_request_address-IsValid key a w f v = elim (Option-cases (get_request key w)) [
  | inl e ↦ rw (e, set_request_address) v
  | inr (r, e) ↦
      rw (e, set_request_address)
        (let found = lookup-get_request key w r v e in
          Agree-rebind (remove_from_detection_dict r w).receive_requests _ r a
            (IsValid-undetect w r v) (rw requests-undetect found) (λ b. not_detected w r b v found)
            (rw requests-undetect f))
]

pub expired_task-IsValid : (r : Request) (w : Wallet) → IsValid w → IsValid (expired_task r w)
unfolding expired_task
expired_task-IsValid r w v = elim (Option-cases (get_request r.id w)) [
  | inl e ↦ rw (e, expired_task) v
  | inr (r', e) ↦ rw (e, expired_task) (set_request_status-IsValid r'.id expired none none w v)
]

pub receive-IsValid :
    (amount : ℕ) (r : Request) (w : Wallet)
    → IsValid w
    → lookup r.id w.receive_requests ≡ some r
    → IsValid (receive amount r w)
unfolding receive
receive-IsValid amount r w v e =
    Agree-put w.receive_requests w.request_addresses r
      (record r { sent_amount = r.sent_amount + amount }) v e refl

-- A payment keeps the two dicts in agreement, whatever request it finds.
pub process_new_payment-IsValid :
    (key : ℕ) (tx : Transaction) (amount : ℕ) (w : Wallet)
    → IsValid w
    → IsValid (process_new_payment key tx amount w).1
unfolding process_new_payment
process_new_payment-IsValid key tx amount w v = elim (Option-cases (get_request key w)) [
  | inl e ↦ rw (e, process_new_payment) v
  | inr (r, e) ↦
      rw (e, process_new_payment)
        (elim (Bool-cases (is_ignored tx r)) [
          | inl b ↦ rw b v
          | inr b ↦ rw b (
              set_request_status-IsValid r.id (reached amount r) (some tx.hash) (some tx.contract)
                (receive amount r w)
                (receive-IsValid amount r w v (lookup-get_request key w r v e)))
        ])
]
