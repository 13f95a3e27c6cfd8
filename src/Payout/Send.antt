-- ===== src/Payout/Send.antt =====
-- Sending one payout: `prepare_payout_details`, `prepare_tx`, `broadcast_tx_flow` and `send_payout`
-- of api/services/payout_manager.py.
use bitcart.Base.{
  ℕ, Bool, true, false, Option, none, some, List, [], ◌∷◌, ◌++◌, ◌+◌, not, ◌||◌, ltb, if◌then◌else◌,
  is_some, ◌>>=◌,
}
use bitcart.Base.Int.{ℤ, pos, ◌-ℤ◌}
use bitcart.Base.Dict.{lookup}
use bitcart.Payout.{
  Amount, send_all, exactly, failed, PayoutRow, World, is_sent_status, mark_payout_sent,
  update_payout_status,
}

-- `"!"` stands for the whole balance in `pay_to`.
pub data Sum : Type 0 where
  whole : Sum
  just : ℤ → Sum

-- A coin's daemon, opened for a wallet: what it answers; a broadcast without an answer counts as none. `convert` is the quotient of an amount by
-- the exchange rate, normalized to the coin's decimals, if the rate is known.
pub record Coin : Type 0 where
  pub is_eth_based : Bool
  pub contract : Option ℕ
  pub convert : Option (ℕ → ℕ)
  pub balance : Option ℤ
  pub contract_balance : Option ℤ
  pub transfer : ℕ → ℕ → ℤ → Option ℕ
  pub pay_to : ℕ → Sum → Option ℕ
  pub payto : ℕ → ℤ → Option ℕ
  pub pay_to_many : List (ℕ × ℕ) → Option ℕ
  pub get_default_fee : ℕ → Option ℕ
  pub sign : ℕ → Option ℕ
  pub broadcast : ℕ → Option ℕ

-- `prepare_tx` for a coin that is not based on Ethereum.
abbrev prepare_plain_tx : Coin → ℕ → Amount → Option ℕ
prepare_plain_tx coin destination amount = elim coin.contract [
  | none ↦ elim amount [
    | send_all ↦ coin.pay_to destination whole
    | exactly n ↦ coin.pay_to destination (just (pos n))
  ]
  | some c ↦ elim amount [
    | send_all ↦ do b ← coin.balance; coin.transfer c destination b
    | exactly n ↦ coin.transfer c destination (pos n)
  ]
]

-- `prepare_tx` for a coin based on Ethereum: the whole balance pays for its own fee.
abbrev prepare_eth_tx : Coin → ℕ → Amount → Option ℕ
prepare_eth_tx coin destination amount = elim coin.contract [
  | none ↦ elim amount [
    | send_all ↦ do
      b ← coin.balance
      draft ← coin.payto destination b
      fee ← coin.get_default_fee draft
      coin.payto destination (b -ℤ pos fee)
    | exactly n ↦ coin.payto destination (pos n)
  ]
  | some c ↦ elim amount [
    | send_all ↦ do b ← coin.contract_balance; coin.transfer c destination b
    | exactly n ↦ coin.transfer c destination (pos n)
  ]
]

unfoldable pub prepare_tx : Coin → ℕ → Amount → Option ℕ
prepare_tx coin destination amount =
    if coin.is_eth_based
    then prepare_eth_tx coin destination amount
    else prepare_plain_tx coin destination amount

-- `predicted_fee > max_fee_amount`
abbrev exceeds : ℕ → Option ℕ → (ℕ → ℕ) → Bool
exceeds fee none convert = false
exceeds fee (some m) convert = ltb (convert m) fee

-- `broadcast_tx_flow` without the closing of the wallet: `some none` if the fee is too high.
unfoldable pub broadcast_tx_flow : Coin → (ℕ → ℕ) → ℕ → Option ℕ → Option (Option ℕ)
broadcast_tx_flow coin convert raw_tx max_fee = do
  fee ← coin.get_default_fee raw_tx
  if exceeds fee max_fee convert
      then some none
      else (do signed ← coin.sign raw_tx; hash ← coin.broadcast signed; some (some hash))

-- `prepare_payout_details` gives up: no wallet, no store, or a payout that was sent.
unfoldable pub is_skipped : PayoutRow → Bool
is_skipped p = not (is_some p.wallet_id) || not (is_some p.store_id) || is_sent_status p.status

unfoldable pub request_amount : (ℕ → ℕ) → Amount → Amount
request_amount convert send_all = send_all
request_amount convert (exactly n) = exactly (convert n)

abbrev pub open_wallet : World → World
open_wallet w = record w { opened = w.opened + 1 }

abbrev pub close_wallet : World → World
close_wallet w = record w { closed = w.closed + 1 }

abbrev pub sent_to_network : ℕ → World → World
sent_to_network h w = record w { network = w.network ++ h ∷ [] }

-- `send_payout`: whether it returned, or raised an exception.
unfoldable pub send_payout : ℕ → Coin → PayoutRow → World → Bool × World
send_payout now coin p w = if is_skipped p then (true, w) else elim coin.convert [
  | none ↦ (false, close_wallet (open_wallet w))
  | some convert ↦ elim (prepare_tx coin p.destination (request_amount convert p.amount)) [
    | none ↦ (false, close_wallet (open_wallet w))
    | some raw ↦ elim (broadcast_tx_flow coin convert raw p.max_fee) [
      | none ↦ (false, close_wallet (close_wallet (open_wallet w)))
      | some none ↦ (true, close_wallet (open_wallet w))
      | some (some h) ↦
          (true, mark_payout_sent now p h (sent_to_network h (close_wallet (open_wallet w))))
    ]
  ]
]

-- The body of the loop of `PayoutService.send_payouts` without `batch`, for an id of the request.
unfoldable pub send_one : ℕ → Coin → ℕ → World → World
send_one now coin payout_id w = elim (lookup payout_id w.payouts) [
  | none ↦ w
  | some p ↦
      let (ok, w') = send_payout now coin p w in
      if ok then w' else update_payout_status now p failed w'
]
