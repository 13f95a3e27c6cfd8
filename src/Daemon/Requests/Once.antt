-- ===== src/Daemon/Requests/Once.antt =====
-- How often a transaction is credited to a request (daemons/genericprocessor.py).
use bitcart.Base.{
  contains-append, ℕ, ◌≡◌, ◌≢◌, Bool, true, false, Option, none, some, [], ◌∷◌, arith, ◌==◌,
  Option-cases, Bool-cases, inl, inr, contains, ◌∙◌, ap, sym, ◌+◌, ==_iff,
}
use bitcart.Base.Dict.{Dict, lookup, insert, lookup-insert, lookup-erase}
use bitcart.Daemon.Requests.{
  Request, RequestStatus, expired, Wallet, get_request, add_payment_request, remove_request,
  set_request_address, set_status, set_request_status, expired_task, Transaction, receive,
  process_new_payment, is_frozen, is_ignored, reached,
}
use bitcart.Daemon.Requests.Valid.{
  IsValid, lookup-get_request, requests-undetect, receive-IsValid, process_new_payment-IsValid,
}
use bitcart.Daemon.Requests.Payments.{lookup-process_new_payment, requests-closing, credited}
use bitcart.Daemon.Requests.Steps.{
  Steps, untouched, added, readdressed, marked, timed_out, removed, received, Steps-IsValid,
}
use bitcart.Daemon.Requests.Detection.{process_new_payment_idle}

-- The request of an id, if there is one, has the hash.
abbrev keeps : ℕ → Option Request → Bool
keeps h none = true
keeps h (some r) = contains h r.tx_hashes

abbrev Known : ℕ → ℕ → Wallet → Type 0
Known i h w = keeps h (lookup i w.receive_requests) ≡ true

-- No request that is added takes the id again.
abbrev pub NotReused : (i : ℕ) {w v : Wallet} → Steps w v → Type 0
NotReused i untouched = Unit {0}
NotReused i (added r save free unwatched s) = (r.id ≢ i) × NotReused i s
NotReused i (readdressed key a free s) = NotReused i s
NotReused i (marked key status h c s) = NotReused i s
NotReused i (timed_out r s) = NotReused i s
NotReused i (removed key s) = NotReused i s
NotReused i (received key tx amount s) = NotReused i s

module _ (i h : ℕ) where
  keeps-insert :
      (r r' : Request) (d : Dict Request)
      → lookup r.id d ≡ some r
      → (contains h r.tx_hashes ≡ true → contains h r'.tx_hashes ≡ true)
      → keeps h (lookup i d) ≡ true
      → keeps h (lookup i (insert r.id r' d)) ≡ true
  keeps-insert r r' d e f k = elim (Bool-cases (r.id == i)) [
    | inr b ↦ rw (lookup-insert, b) k
    | inl b ↦
        let same : lookup i d ≡ some r = cc (e, (==_iff r.id i).0 b) in
        rw (lookup-insert, b) (f (ap (keeps h) (sym same) ∙ k))
  ]

  contains-add_hash :
      (status : RequestStatus) (x : Option ℕ) (c : Option (Option ℕ)) (r : Request)
      → contains h r.tx_hashes ≡ true
      → contains h (set_status status x c r).tx_hashes ≡ true
  unfolding set_status
  contains-add_hash status none c r k = k
  contains-add_hash status (some x) c r k = ground (arith, contains-append h r.tx_hashes (x ∷ []))

  Known-set_request_status :
      (key : ℕ) (status : RequestStatus) (x : Option ℕ) (c : Option (Option ℕ)) (w : Wallet)
      → IsValid w
      → Known i h w
      → Known i h (set_request_status key status x c w).1
  unfolding set_request_status add_payment_request set_status
  Known-set_request_status key status x c w v k = elim (Option-cases (get_request key w)) [
    | inl e ↦ rw (e, set_request_status) k
    | inr (r, e) ↦
        rw (e, set_request_status)
          (elim (Bool-cases (is_frozen r.status status)) [
            | inl b ↦ rw b k
            | inr b ↦
                rw (b, requests-closing)
                  (keeps-insert r (set_status status x c r) w.receive_requests
                    (lookup-get_request key w r v e) (contains-add_hash status x c r) k)
          ])
  ]

  Known-set_request_address :
      (key a : ℕ) (w : Wallet) → IsValid w → Known i h w → Known i h (set_request_address key a w).1
  unfolding set_request_address add_payment_request
  Known-set_request_address key a w v k = elim (Option-cases (get_request key w)) [
    | inl e ↦ rw (e, set_request_address) k
    | inr (r, e) ↦
        rw (e, set_request_address, requests-undetect w r)
          (keeps-insert r (record r { payment_address = some a }) w.receive_requests
            (lookup-get_request key w r v e) (λ k. k) k)
  ]

  Known-remove_request : (key : ℕ) (w : Wallet) → Known i h w → Known i h (remove_request key w).1
  unfolding remove_request
  Known-remove_request key w k = elim (Option-cases (get_request key w)) [
    | inl e ↦ rw (e, remove_request) k
    | inr (r, e) ↦
        rw (e, remove_request, requests-undetect w r)
          (ground (arith, lookup-erase r.id i w.receive_requests, k))
  ]

  Known-expired_task :
      (r : Request) (w : Wallet) → IsValid w → Known i h w → Known i h (expired_task r w)
  unfolding expired_task
  Known-expired_task r w v k = elim (Option-cases (get_request r.id w)) [
    | inl e ↦ rw (e, expired_task) k
    | inr (q, e) ↦ rw (e, expired_task) (Known-set_request_status q.id expired none none w v k)
  ]

  Known-process_new_payment :
      (key : ℕ) (tx : Transaction) (amount : ℕ) (w : Wallet)
      → IsValid w
      → Known i h w
      → Known i h (process_new_payment key tx amount w).1
  unfolding process_new_payment receive
  Known-process_new_payment key tx amount w v k = elim (Option-cases (get_request key w)) [
    | inl e ↦ rw (e, process_new_payment) k
    | inr (r, e) ↦
        let found = lookup-get_request key w r v e in
        rw (e, process_new_payment)
          (elim (Bool-cases (is_ignored tx r)) [
            | inl b ↦ rw b k
            | inr b ↦ rw b (
                Known-set_request_status r.id (reached amount r) (some tx.hash) (some tx.contract)
                  (receive amount r w) (receive-IsValid amount r w v found)
                  (keeps-insert r (record r { sent_amount = r.sent_amount + amount })
                    w.receive_requests found (λ k. k) k))
          ])
  ]

  Known-add_payment_request :
      (r : Request) (save : Bool) (w : Wallet)
      → r.id ≢ i
      → Known i h w
      → Known i h (add_payment_request r save w)
  unfolding add_payment_request
  Known-add_payment_request r save w n k = ground (arith, lookup-insert r.id i r w.receive_requests)

  Steps-Known :
      {w : Wallet} (new : Wallet)
      → IsValid w
      → (s : Steps w new) → NotReused i s
      → Known i h w
      → Known i h new
  Steps-Known new ok untouched f k = k
  Steps-Known new ok (added {v = u} r save free unwatched s) (n, f) k =
      Known-add_payment_request r save u n (Steps-Known u ok s f k)
  Steps-Known {w} new ok (readdressed {v = u} key a free s) f k =
      Known-set_request_address key a u (Steps-IsValid w u ok s) (Steps-Known u ok s f k)
  Steps-Known {w} new ok (marked {v = u} key status x c s) f k =
      Known-set_request_status key status x c u (Steps-IsValid w u ok s) (Steps-Known u ok s f k)
  Steps-Known {w} new ok (timed_out {v = u} r s) f k =
      Known-expired_task r u (Steps-IsValid w u ok s) (Steps-Known u ok s f k)
  Steps-Known new ok (removed {v = u} key s) f k =
      Known-remove_request key u (Steps-Known u ok s f k)
  Steps-Known {w} new ok (received {v = u} key tx amount s) f k =
      Known-process_new_payment key tx amount u (Steps-IsValid w u ok s) (Steps-Known u ok s f k)

-- The request to which a transaction is credited knows it.
Known-credited :
    (key : ℕ) (tx : Transaction) (amount : ℕ) (w : Wallet) (r : Request)
    → IsValid w
    → get_request key w ≡ some r
    → is_ignored tx r ≡ false
    → Known r.id tx.hash (process_new_payment key tx amount w).1
unfolding credited set_status
Known-credited key tx amount w r v e n = ground (
  arith,
  lookup-process_new_payment r.id key tx amount w r v e n,
  contains-append tx.hash r.tx_hashes (tx.hash ∷ []),
)

-- After a transaction was credited to a request, and whatever is done with the requests of the wallet since
-- then, in whatever order, as long as no new request takes the same id: the transaction is not credited to
-- that request again, whichever key it is found by, and the call changes nothing.
pub credited_once :
    (key key' : ℕ) (tx : Transaction) (amount amount' : ℕ) (w new : Wallet) (r q : Request)
    → IsValid w
    → get_request key w ≡ some r
    → is_ignored tx r ≡ false
    → (s : Steps (process_new_payment key tx amount w).1 new) → NotReused r.id s
    → get_request key' new ≡ some q
    → q.id ≡ r.id
    → process_new_payment key' tx amount' new ≡ (none, new)
unfolding is_ignored
credited_once key key' tx amount amount' w new r q v e n s f g same =
    let w' = (process_new_payment key tx amount w).1 in
    let v' = process_new_payment-IsValid key tx amount w v in
    let known = Steps-Known r.id tx.hash new v' s f (Known-credited key tx amount w r v e n) in
    let there = lookup-get_request key' new q (Steps-IsValid w' new v' s) g in
    let here : lookup r.id new.receive_requests ≡ some q = cc (there, same) in
    let has : contains tx.hash q.tx_hashes ≡ true = ap (keeps tx.hash) (sym here) ∙ known in
    process_new_payment_idle key' tx amount' new (λ p h. ground (arith, h, g, has))
