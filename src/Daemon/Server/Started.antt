-- ===== src/Daemon/Server/Started.antt =====
-- Requests for a wallet whose start has failed.
use bitcart.Base.{ℕ, ◌≡◌, refl, Bool, true, false, none, some, contains, ◌⊎◌, arith, ◌∙◌, ap}
use bitcart.Base.Dict.{Dict, lookup, insert, lookup-insert}
use bitcart.Base.Int.{negsuc}
use bitcart.Daemon.Server.{
  MethodData, Request, Run, Server, Loading, Service, error, load_wallet, get_wallet, waits_for,
  is_still_syncing, get_error_code, acquire, unlocked, with_lock, execute_method, handle_request,
}
use bitcart.Daemon.Server.Served.{release-acquire, needed, get_wallet-failed, acquire-is_held}
use bitcart.Daemon.Server.Gotten.{failed, waits}
use bitcart.Daemon.Server.Loading.{not_started, started}

load_wallet-not_started :
    (k m : ℕ) (ws : Dict Bool)
    → lookup k ws ≡ none
    → load_wallet (some k) (not_started m) ws ≡ (some m, insert k false ws)
unfolding load_wallet
load_wallet-not_started k m ws absent = rw (absent, load_wallet) refl

load_wallet-again :
    (k : ℕ) (b : Bool) (ws : Dict Bool)
    → lookup k ws ≡ some b
    → load_wallet (some k) started ws ≡ (none, ws)
unfolding load_wallet
load_wallet-again k b ws there = rw (there, load_wallet) refl

waits_for-lem :
    (d : Service) (method : ℕ) (t : MethodData)
    → lookup method d.supported_methods ≡ some t
    → t.requires_network ≡ true
    → d.no_sync_wait ≡ false
    → waits_for d method ≡ true
unfolding waits_for
waits_for-lem d method t known network syncs = rw (syncs, known, waits_for) network

-- A wallet that was not started is waited for.
get_wallet-waits :
    (d : Service) (method k : ℕ) (ws : Dict Bool)
    → waits_for d method ≡ true
    → lookup k ws ≡ some false
    → (get_wallet d method (some k) started ws).0 ≡ waits
unfolding get_wallet is_still_syncing
get_wallet-waits d method k ws network there =
    let again = load_wallet-again k false ws there in
    rw (ap (λ p. p.0) again, network, get_wallet)
      (rw (ap (λ p. p.1) again, there, is_still_syncing) refl)

module _ {R : Type 0} (d : Service) (method : ℕ) (r : Request) (body : Run → ℕ ⊎ R) where
  with_lock-failed :
      (l : Loading) (m : ℕ) (s : Server)
      → (get_wallet d method r.key l s.wallets).0 ≡ failed m
      → with_lock d l body method r s ≡ (
        some (error (get_error_code d m (negsuc 32004)) m r.id),
        record s { wallets = (get_wallet d method r.key l s.wallets).1 },
      )
  unfolding with_lock
  with_lock-failed l m s e = rw (e, with_lock) refl

  with_lock-waits :
      (l : Loading) (s : Server)
      → (get_wallet d method r.key l s.wallets).0 ≡ waits
      → with_lock d l body method r s
        ≡ (none, record s { wallets = (get_wallet d method r.key l s.wallets).1 })
  unfolding with_lock
  with_lock-waits l s e = rw (e, with_lock) refl

  module _ (t : MethodData) (known : lookup method d.supported_methods ≡ some t)
      (names : r.method ≡ some method) (k : ℕ) (key : r.key ≡ some k) where
    failed_start :
        (m : ℕ) (s : Server)
        → t.requires_wallet ≡ true
        → lookup k s.wallets ≡ none
        → let p = handle_request d (not_started m) body true (some r) s in
          (p.0 ≡ some (error (get_error_code d m (negsuc 32004)) m r.id))
          × (p.1 ≡ record s { wallets = insert k false s.wallets })
    unfolding handle_request execute_method get_wallet unlocked
    failed_start m s needs absent =
        let locked : Server = record s { wallet_locks = acquire r.key s.wallet_locks } in
        let loads =
          ap (λ j. load_wallet j (not_started m) s.wallets) key
          ∙ load_wallet-not_started k m s.wallets absent in
        let fails =
          get_wallet-failed d method m r.key (not_started m) s.wallets
            (needed d method t known needs) (ap (λ p. p.0) loads) in
        let runs = with_lock-failed (not_started m) m locked fails in
        rw (names, handle_request)
          (
            ap (λ p. p.0) runs,
            ap (λ p. record p.1 { wallet_locks = unlocked r.key p.0 p.1.wallet_locks }) runs
                ∙ (ap
                      (λ ls. record s {
                        wallets = (load_wallet r.key (not_started m) s.wallets).1;
                        wallet_locks = ls;
                      })
                      (release-acquire r.key s.wallet_locks)
                    ∙ ap (λ p. record s { wallets = p.1 }) loads),
          )

    never_ends :
        (s : Server)
        → waits_for d method ≡ true
        → lookup k s.wallets ≡ some false
        → let p = handle_request d started body true (some r) s in
          (p.0 ≡ none) × (p.1.wallet_locks ≡ acquire r.key s.wallet_locks) × (p.1.runs ≡ s.runs)
    unfolding handle_request execute_method unlocked
    never_ends s network there =
        let locked : Server = record s { wallet_locks = acquire r.key s.wallet_locks } in
        let gets =
          ap (λ j. (get_wallet d method j started s.wallets).0) key
          ∙ get_wallet-waits d method k s.wallets network there in
        let runs = with_lock-waits started locked gets in
        rw (names, handle_request)
          (
            ap (λ p. p.0) runs,
            ap (λ p. unlocked r.key p.0 p.1.wallet_locks) runs,
            ap (λ p. p.1.runs) runs,
          )

-- The first request for a wallet needs it, and the daemon fails to start the wallet, such as when the
-- node is down: the answer is the error. The next request for the wallet whose method needs the node is
-- never answered, calls no method, and keeps the lock of the wallet, unless the daemon is set not to wait.
pub failed_start_blocks :
    {R : Type 0} (d : Service) (first second k m : ℕ) (t t' : MethodData) (r r' : Request)
    (body : Run → ℕ ⊎ R) (s : Server)
    → lookup first d.supported_methods ≡ some t
    → lookup second d.supported_methods ≡ some t'
    → t.requires_wallet ≡ true
    → t'.requires_network ≡ true
    → d.no_sync_wait ≡ false
    → r.method ≡ some first
    → r'.method ≡ some second
    → r.key ≡ some k
    → r'.key ≡ some k
    → lookup k s.wallets ≡ none
    → let before = handle_request d (not_started m) body true (some r) s in
      let after = handle_request d started body true (some r') before.1 in
      (before.0 ≡ some (error (get_error_code d m (negsuc 32004)) m r.id))
      × (after.0 ≡ none)
      × (after.1.runs ≡ s.runs)
      × (contains k after.1.wallet_locks ≡ true)
failed_start_blocks d first second k m t t' r r' body s known known' needs network syncs names
      names' key key' absent =
    let before = handle_request d (not_started m) body true (some r) s in
    let (answer, kept) = failed_start d first r body t known names k key m s needs absent in
    let there =
      ap (λ n. lookup k n.wallets) kept ∙ (lookup-insert k k false s.wallets ∙ ground arith) in
    let (blocks, locks, runs) =
      never_ends d second r' body t' known' names' k key' before.1
        (waits_for-lem d second t' known' network syncs) there in
    let held =
      ap (λ j. contains k (acquire j before.1.wallet_locks)) key'
      ∙ acquire-is_held (some k) before.1.wallet_locks in
    (answer, blocks, runs ∙ ap (λ n. n.runs) kept, ap (contains k) locks ∙ held)
