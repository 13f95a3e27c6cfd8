-- ===== src/Tests/Networks.antt =====
-- Two wallets of a daemon at one address.
use bitcart.Base.{none, some, [], ◌≡◌, refl, ◌∷◌}
use bitcart.Base.Dict.{lookup, insert}
use bitcart.Daemon.Requests.{Transaction}
use bitcart.Daemon.Wallets.{Loaded, Network, load_wallet, close_wallet_impl, process_transaction}
use bitcart.Daemon.Wallets.Indexed.{
  started, loads, closes, sees, IsIndexed, Running-IsIndexed, no_wallets,
}

abbrev wallet : Loaded
wallet = record {
  address = 40;
  contract = none;
  requests = record { receive_requests = []; request_addresses = []; saves = 0 };
}

abbrev incoming : Transaction
incoming = record { hash = 900; from_addr = 50; to = 40; value = 12; contract = none }

abbrev both : Network
both = load_wallet 0 2 (some wallet) (load_wallet 0 1 (some wallet) no_wallets)

abbrev later : Network
later = (close_wallet_impl 1 (process_transaction incoming 12 both)).1

both_watched : lookup 40 both.addresses ≡ some (1 ∷ 2 ∷ [])
unfolding load_wallet lookup insert
both_watched = refl

Running-IsIndexed_example : IsIndexed later
Running-IsIndexed_example =
    Running-IsIndexed later
      (closes 1 (sees incoming 12 (loads 0 2 (some wallet) (loads 0 1 (some wallet) started))))
