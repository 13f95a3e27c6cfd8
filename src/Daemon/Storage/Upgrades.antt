-- ===== src/Daemon/Storage/Upgrades.antt =====
-- The upgrades of the file of a wallet: `run_upgrades` of daemons/genericprocessor.py.
use bitcart.Base.{
  ℕ, suc, false, ◌==◌, ◌||◌, ◌<◌, ltb, Option, none, some, List, [], ◌∷◌, if◌then◌else◌, ◌>>=◌,
  is_some, ◌≡◌, refl, inl, inr, arith, Option-cases, ap,
}
use bitcart.Base.Dict.{Dict, lookup, insert, erase, lookup-insert, lookup-erase}
use bitcart.Daemon.Storage.{
  Field, number, text, hashes, Value, field, object, table, version, get, get_version,
  is_upgrade_method_needed,
}

-- The member of a file with the payment requests, and the members of a request.
abbrev pub payment_requests : ℕ
payment_requests = 1

abbrev pub original_amount : ℕ
original_amount = 0

abbrev pub sent_amount : ℕ
sent_amount = 1

abbrev pub tx_hash : ℕ
tx_hash = 2

abbrev pub tx_hashes : ℕ
tx_hashes = 3

-- `STORAGE_VERSION`
abbrev pub storage_version : ℕ
storage_version = 3

-- The body of the loop of `_convert_version_2`; the text 0 is `decimal_to_string(Decimal(0))`.
unfoldable pub convert_request_2 : Dict Field → Dict Field
convert_request_2 r =
    let rest = erase original_amount r in
    if is_some (lookup sent_amount rest) then rest else insert sent_amount (text 0) rest

-- The hashes that a field `tx_hash` stands for; the daemons write a text or null there.
unfoldable pub hashes_of : Option Field → List ℕ
hashes_of (some (text h)) = h ∷ []
hashes_of _ = []

-- The body of the loop of `_convert_version_3`
unfoldable pub convert_request_3 : Dict Field → Dict Field
convert_request_3 r = insert tx_hashes (hashes (hashes_of (lookup tx_hash r))) (erase tx_hash r)

unfoldable pub convert_all : (Dict Field → Dict Field) → Dict (Dict Field) → Dict (Dict Field)
convert_all f [] = []
convert_all f ((k, r) ∷ rs) = (k, f r) ∷ convert_all f rs

-- The loop over `self.data.get("payment_requests", {})`; what has no members, or has members that have
-- none, is an exception.
unfoldable pub convert_value : (Dict Field → Dict Field) → Value → Option Value
convert_value f (table rs) = some (table (convert_all f rs))
convert_value f (object []) = some (object [])
convert_value f _ = none

unfoldable pub convert_requests : (Dict Field → Dict Field) → Dict Value → Option (Dict Value)
convert_requests f d = elim (lookup payment_requests d) [
  | none ↦ some d
  | some v ↦ convert_value f v >>= λ w. some (insert payment_requests w d)
]

-- `_convert_version_2` and `_convert_version_3`, with `put("version", ...)`.
unfoldable pub convert_version : ℕ → (Dict Field → Dict Field) → Dict Value → Option (Dict Value)
convert_version n f d = is_upgrade_method_needed storage_version n n d >>= λ needed.
    if needed
    then (convert_requests f d >>= λ e. some (insert version (field (number (suc n))) e))
    else some d

unfoldable pub run_upgrades : Dict Value → Option (Dict Value)
run_upgrades d =
    convert_version 1 convert_request_2 d >>= λ e. convert_version 2 convert_request_3 e

-- The member `k` of a request of version 3, from the request of version 1.
unfoldable pub upgraded_member : ℕ → Dict Field → Option Field
upgraded_member k r =
    let amount = if is_some (lookup sent_amount r) then lookup sent_amount r else some (text 0) in
    if k == original_amount || k == tx_hash
    then none
    else if k == sent_amount
    then amount
    else if k == tx_hashes
    then some (hashes (hashes_of (lookup tx_hash r)))
    else lookup k r

lookup-convert_request_2 :
    (k : ℕ) (r : Dict Field)
    → lookup k (convert_request_2 r) ≡ (
        if k == original_amount
        then none
        else if k == sent_amount
        then (if is_some (lookup sent_amount r) then lookup sent_amount r else some (text 0))
        else lookup k r)
unfolding convert_request_2
lookup-convert_request_2 k r =
    let there = lookup-erase original_amount sent_amount r in
    let rest = lookup-erase original_amount k r in
    let added = lookup-insert sent_amount k (text 0) (erase original_amount r) in
    elim (Option-cases (lookup sent_amount r)) [
      | inl e ↦ ground (arith, there, rest, added, e)
      | inr (a, e) ↦ ground (arith, there, rest, e)
    ]

lookup-convert_request_3 :
    (k : ℕ) (r : Dict Field)
    → lookup k (convert_request_3 r) ≡ (
        if k == tx_hashes
        then some (hashes (hashes_of (lookup tx_hash r)))
        else if k == tx_hash
        then none
        else lookup k r)
unfolding convert_request_3
lookup-convert_request_3 k r =
    let added =
      lookup-insert tx_hashes k (hashes (hashes_of (lookup tx_hash r))) (erase tx_hash r) in
    let rest = lookup-erase tx_hash k r in ground (arith, added, rest)

abbrev pub upgraded : Dict Field → Dict Field
upgraded r = convert_request_3 (convert_request_2 r)

-- An upgraded request has no original amount and no single hash; it has a sent amount, which is 0 where
-- there was none, and a list of hashes with the single one that there was. Nothing else changes.
pub lookup-upgraded : (k : ℕ) (r : Dict Field) → lookup k (upgraded r) ≡ upgraded_member k r
unfolding upgraded_member
lookup-upgraded k r =
    let hash : lookup tx_hash (convert_request_2 r) ≡ lookup tx_hash r =
      ground (arith, lookup-convert_request_2 tx_hash r) in
    let outer = lookup-convert_request_3 k (convert_request_2 r) in
    let inner = lookup-convert_request_2 k r in
    let same = ap hashes_of hash in ground (arith, outer, inner, same)

convert_all-twice :
    (f g : Dict Field → Dict Field) (rs : Dict (Dict Field))
    → convert_all g (convert_all f rs) ≡ convert_all (λ r. g (f r)) rs
unfolding convert_all
convert_all-twice f g [] = refl
convert_all-twice f g ((k, r) ∷ rs) = ap (λ l. (k, g (f r)) ∷ l) (convert_all-twice f g rs)

get_version-number :
    (n : ℕ) (d : Dict Value)
    → 0 < n
    → n < 4
    → lookup version d ≡ some (field (number n))
    → get_version storage_version d ≡ some n
unfolding get_version get
get_version-number n d positive known h =
    let not_zero : (n == 0) ≡ false = ground (arith, positive) in
    let not_newer : ltb storage_version n ≡ false = ground (arith, known) in
    rw (get_version, get, h, not_zero, not_newer) refl

-- The file after one upgrade.
abbrev converted : ℕ → (Dict Field → Dict Field) → Dict (Dict Field) → Dict Value → Dict Value
converted n f rs d =
    insert version (field (number (suc n))) (insert payment_requests (table (convert_all f rs)) d)

lookup-converted :
    (k n : ℕ) (f : Dict Field → Dict Field) (rs : Dict (Dict Field)) (d : Dict Value)
    → lookup k (converted n f rs d) ≡ (
        if k == version
        then some (field (number (suc n)))
        else if k == payment_requests
        then some (table (convert_all f rs))
        else lookup k d)
lookup-converted k n f rs d =
    let outer =
      lookup-insert version k (field (number (suc n)))
        (insert payment_requests (table (convert_all f rs)) d) in
    let inner = lookup-insert payment_requests k (table (convert_all f rs)) d in
    ground (arith, outer, inner)

convert_version-converted :
    (n : ℕ) (f : Dict Field → Dict Field) (rs : Dict (Dict Field)) (d : Dict Value)
    → get_version storage_version d ≡ some n
    → lookup payment_requests d ≡ some (table rs)
    → convert_version n f d ≡ some (converted n f rs d)
unfolding convert_version is_upgrade_method_needed convert_requests convert_value
convert_version-converted n f rs d h there =
    let same : ltb n n ≡ false = ground arith in rw (convert_requests, same, h, same, there) refl

-- The file of version 1 is upgraded to version 3, each of its payment requests is upgraded, and no
-- other member of the file changes.
pub run_upgrades-first :
    (k : ℕ) (d : Dict Value) (rs : Dict (Dict Field))
    → lookup version d ≡ some (field (number 1))
    → lookup payment_requests d ≡ some (table rs)
    → (e : Dict Value) × (run_upgrades d ≡ some e)
      × (lookup k e ≡ (
          if k == version
          then some (field (number 3))
          else if k == payment_requests
          then some (table (convert_all upgraded rs))
          else lookup k d))
unfolding run_upgrades
run_upgrades-first k d rs first there =
    let old = converted 1 convert_request_2 rs d in
    let version_2 : lookup version old ≡ some (field (number 2)) =
      lookup-converted version 1 convert_request_2 rs d in
    let requests_2 : lookup payment_requests old ≡ some (table (convert_all convert_request_2 rs)) =
      lookup-converted payment_requests 1 convert_request_2 rs d in
    let step_1 =
      convert_version-converted 1 convert_request_2 rs d
        (get_version-number 1 d (omega arith) (omega arith) first) there in
    let step_2 =
      convert_version-converted 2 convert_request_3 (convert_all convert_request_2 rs) old
        (get_version-number 2 old (omega arith) (omega arith) version_2) requests_2 in
    (
      converted 2 convert_request_3 (convert_all convert_request_2 rs) old,
      rw (step_1, step_2) refl,
      let outer = lookup-converted k 2 convert_request_3 (convert_all convert_request_2 rs) old in
          let inner = lookup-converted k 1 convert_request_2 rs d in
          let twice = convert_all-twice convert_request_2 convert_request_3 rs in
          ground (arith, outer, inner, twice),
    )
