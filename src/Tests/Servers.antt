-- ===== src/Tests/Servers.antt =====
-- Requests to a daemon.
use bitcart.Base.{ℕ, ◌≡◌, refl, true, false, none, some, [], ◌∷◌, ◌==◌, contains, ◌⊎◌, inr}
use bitcart.Base.Int.{negsuc}
use bitcart.Base.Dict.{lookup, insert}
use bitcart.Daemon.Server.{
  MethodData, Request, Run, Server, Service, error, result, get_error_code, handle_request,
}
use bitcart.Daemon.Server.Loading.{not_started, started}
use bitcart.Daemon.Server.Served.{is_ready, handle_request-served}
use bitcart.Daemon.Server.Started.{failed_start_blocks}

-- The method 1 needs a wallet and the node, and 2 neither of them.
abbrev daemon : Service
daemon = record {
  supported_methods =
      (1, record { requires_wallet = true; requires_network = true })
      ∷ (2, record { requires_wallet = false; requires_network = false })
      ∷ [];
  electrum_map = (40, negsuc 32009) ∷ [];
  occurs = λ m text. m == text;
  no_sync_wait = false;
  unauthorized = 90;
  parse_error = 91;
  procedure_not_found = 92;
  wallet_not_loaded = 93;
}

abbrev balance : Request
balance = record { id = some 7; method = some 1; key = some 5; one_time = false; wallet = none }

abbrev idle : Server
idle = record { wallets = []; wallet_locks = 8 ∷ []; runs = [] }

-- A result is the number of locks that are held.
abbrev count_locks : Run → ℕ
count_locks run = elim run.held [ [] ↦ 0 | l ∷ ls ↦ 1 ]

handle_request-served_example :
    let p = handle_request daemon started (λ run. inr (count_locks run)) true (some balance) idle in
    ((p.0 ≡ none) ⊎ (p.1.wallet_locks ≡ idle.wallet_locks))
    × ((p.1.runs ≡ idle.runs)
        ⊎ ((r : Request) × (method : ℕ) × (t : MethodData) × (run : Run) × (true ≡ true)
            × (some balance ≡ some r)
            × (r.method ≡ some method)
            × (lookup method daemon.supported_methods ≡ some t)
            × (p.1.runs ≡ run ∷ idle.runs)
            × (is_ready t r.key run ≡ true)))
handle_request-served_example =
    handle_request-served daemon started (λ run. inr (count_locks run)) true (some balance) idle

failed_start_blocks_example :
    let before =
      handle_request daemon
        (not_started 40)
        (λ run. inr (count_locks run))
        true
        (some balance)
        idle in
    let after =
      handle_request daemon started (λ run. inr (count_locks run)) true (some balance) before.1 in
    (before.0 ≡ some (error (get_error_code daemon 40 (negsuc 32004)) 40 (some 7)))
    × (after.0 ≡ none)
    × (after.1.runs ≡ [])
    × (contains 5 after.1.wallet_locks ≡ true)
unfolding lookup
failed_start_blocks_example =
    failed_start_blocks daemon 1 1 5 40 (record { requires_wallet = true; requires_network = true })
      (record { requires_wallet = true; requires_network = true }) balance balance
      (λ run. inr (count_locks run)) idle refl refl refl refl refl refl refl refl refl refl

-- The answer to a request when all goes well.
answered :
    (handle_request daemon started (λ run. inr (count_locks run)) true (some balance) idle).0
    ≡ some (result 1 (some 7))
unfolding handle_request lookup insert
answered = refl
