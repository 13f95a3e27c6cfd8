-- ===== src/Daemon/Requests/Start.antt =====
-- The start of a wallet, when requests that ran out while it was closed expire, and its lists:
-- `start`, `list_requests`,
-- `get_sorted_requests` and `clear_requests` of daemons/genericprocessor.py. The requests that have
-- time left get an `expired_task` each, which acts later.
use bitcart.Base.{
  ℕ, ◌≡◌, refl, Option, ◌+◌, Bool, none, some, List, [], ◌∷◌, ◌&&◌, arith, leb, ltb, if◌then◌else◌,
  Bool-cases, inl, inr,
}
use bitcart.Base.Dict.{Dict, lookup}
use bitcart.Daemon.Requests.{
  Request, RequestStatus, unpaid, paid, expired, Wallet, is_unpaid, get_request, set_request_status,
}
use bitcart.Daemon.Requests.Valid.{IsValid, set_request_status-IsValid}

clear_requests : Wallet → Wallet
clear_requests w = record w { receive_requests = []; request_addresses = []; saves = w.saves + 1 }

-- The stable sort by time.
insert_by_time : Request → List Request → List Request
insert_by_time r [] = r ∷ []
insert_by_time r (s ∷ rs) =
    let rest = insert_by_time r rs in if leb r.time s.time then r ∷ s ∷ rs else s ∷ rest

-- The requests found under the keys of a dict, those that are not `None`, sorted.
sorted_requests : Dict Request → Wallet → List Request
sorted_requests [] w = []
sorted_requests ((k, r) ∷ d) w =
    let rest = sorted_requests d w in
    elim (get_request k w) [ none ↦ rest | some s ↦ insert_by_time s rest ]

get_sorted_requests : Wallet → List Request
get_sorted_requests w = sorted_requests w.receive_requests w

-- `req.exp > 0 and req.time + req.exp < time.time()`, for an unpaid request.
is_overdue : ℕ → Request → Bool
is_overdue now r = is_unpaid r.status && (ltb 0 r.exp && ltb (r.time + r.exp) now)

expire_overdue : ℕ → List Request → Wallet → Wallet
expire_overdue now [] w = w
expire_overdue now (r ∷ rs) w =
    expire_overdue now rs
      (if is_overdue now r then (set_request_status r.id expired none none w).1 else w)

-- `start`, without the heights and the blocks.
pub start : ℕ → Wallet → Wallet
start now w = expire_overdue now (get_sorted_requests w) w

expire_overdue-IsValid :
    (now : ℕ) (rs : List Request) (w : Wallet) → IsValid w → IsValid (expire_overdue now rs w)
unfolding expire_overdue
expire_overdue-IsValid now [] w v = v
expire_overdue-IsValid now (r ∷ rs) w v = elim (Bool-cases (is_overdue now r)) [
  | inl b ↦
      rw (b, expire_overdue)
        (expire_overdue-IsValid now rs (set_request_status r.id expired none none w).1
          (set_request_status-IsValid r.id expired none none w v))
  | inr b ↦ rw (b, expire_overdue) (expire_overdue-IsValid now rs w v)
]

-- The start of a wallet keeps its two dicts in agreement.
start-IsValid : (now : ℕ) (w : Wallet) → IsValid w → IsValid (start now w)
unfolding start
start-IsValid now w v = expire_overdue-IsValid now (get_sorted_requests w) w v

clear_requests-IsValid : (w : Wallet) → IsValid (clear_requests w)
unfolding clear_requests lookup
clear_requests-IsValid w = record {
  keyed = λ k r h. ground arith;
  ids_free = λ k r h. ground arith;
  detects = λ a i h. ground arith;
}

-- `list_requests`, by the status that its flags ask for: the filter reads the status of a number,
-- which raises an exception as soon as there is a request.
list_requests : Option RequestStatus → Wallet → Option (List Request)
list_requests none w = some (get_sorted_requests w)
list_requests (some f) w = elim (get_sorted_requests w) [ [] ↦ some [] | r ∷ rs ↦ none ]

-- The flags of `list_requests`, the first one that is set.
requested_status : Bool → Bool → Bool → Option RequestStatus
requested_status pending ran_out is_paid =
    if pending
    then some unpaid
    else if ran_out
    then some expired
    else if is_paid
    then some paid
    else none

-- A filter that finds a request to look at raises an exception, whatever the statuses are.
list_requests-filter :
    (f : RequestStatus) (r : Request) (rs : List Request) (w : Wallet)
    → get_sorted_requests w ≡ r ∷ rs
    → list_requests (some f) w ≡ none
unfolding list_requests
list_requests-filter f r rs w e = rw (e, list_requests) refl
