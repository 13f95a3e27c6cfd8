-- ===== src/Tests/Payouts.antt =====
-- Payouts and refunds at concrete answers of a coin's daemon.
use bitcart.Base.{ℕ, ◌≡◌, refl, false, none, some, List, [], ◌∷◌, ◌+◌, arith}
use bitcart.Base.Int.{pos}
use bitcart.Base.Dict.{lookup, insert}
use bitcart.Invoice.{refunded}
use bitcart.Invoice.Update.{State}
use bitcart.Payout.{
  exactly, PayoutStatus, pending, approved, sent, PayoutRow, RefundRow, World, is_settled,
  refund_of, mark_payout_sent, update_payout_status, enter_payout_status, process_sent_payout,
}
use bitcart.Payout.Send.{
  Coin, prepare_tx, broadcast_tx_flow, is_skipped, request_amount, send_one, send_payout,
}
use bitcart.Payout.Batch.{send_group}
use bitcart.Payout.Refund.{submit_refund, refund_round_trip}
use bitcart.Payout.Group.{Paid, batch_is_paid_once}
use bitcart.Tests.Shop.{done}

-- A daemon that answers every call: a transaction is named by its amount, a hash by 1000 more.
abbrev coin : Coin
coin = record {
  is_eth_based = false;
  contract = none;
  convert = some (λ n. n + n);
  balance = some (pos 500);
  contract_balance = none;
  transfer = λ c d n. none;
  pay_to = λ d s. some 44;
  payto = λ d n. none;
  pay_to_many = λ os. some 45;
  get_default_fee = λ raw. some 3;
  sign = λ raw. some raw;
  broadcast = λ raw. some (1000 + raw);
}

abbrev row : ℕ → PayoutStatus → PayoutRow
row i status = record {
  id = i;
  amount = exactly 20;
  destination = 60;
  status = status;
  store_id = some 5;
  wallet_id = some 6;
  max_fee = some 2;
  tx_hash = none;
  used_fee = none;
}

abbrev refund : RefundRow
refund = record {
  id = 8;
  amount = 20;
  wallet_id = some 6;
  invoice_id = 1;
  payout_id = none;
  destination = none;
}

abbrev office : World
office = record {
  payouts = (31, row 31 approved) ∷ (32, row 32 sent) ∷ [];
  refunds = (8, record refund { payout_id = some 31 }) ∷ (9, record refund { id = 9 }) ∷ [];
  invoices = (1, done) ∷ [];
  messages = [];
  network = [];
  opened = 0;
  closed = 0;
}

abbrev twice : List (ℕ × Coin)
twice = (4, coin) ∷ (9, coin) ∷ []

-- The payout is broadcast: its fee of 3 is within the limit of 4.
sent_31 : (send_one 4 coin 31 office).network ≡ 1044 ∷ []
unfolding send_one send_payout is_skipped prepare_tx request_amount broadcast_tx_flow
    mark_payout_sent lookup update_payout_status is_settled enter_payout_status process_sent_payout
sent_31 = refl

batch_is_paid_once_example :
    Paid
      (row 31 approved ∷ row 32 sent ∷ [])
      office
      (send_group 4 coin (λ p. some (λ n. n + n)) (row 31 approved ∷ row 32 sent ∷ []) office)
batch_is_paid_once_example =
    batch_is_paid_once 4 coin (λ p. some (λ n. n + n)) (row 31 approved ∷ row 32 sent ∷ []) office

-- The world after refund 9 was submitted.
abbrev asked : World
asked = record office {
  payouts =
      (31, row 31 approved)
      ∷ (32, row 32 sent)
      ∷ (33, record (row 33 pending) { max_fee = none; destination = 71 })
      ∷ [];
  refunds =
      (8, record refund { payout_id = some 31 })
      ∷ (9, record refund { id = 9; payout_id = some 33; destination = some 70 })
      ∷ [];
}

submits : submit_refund 33 5 (λ a. some (a + 1)) (λ n. n) 9 70 office ≡ some asked
unfolding submit_refund lookup insert
submits = refl

refund_keyed : (r : RefundRow) → lookup 9 office.refunds ≡ some r → r.id ≡ 9
unfolding lookup
refund_keyed r e = ground (arith, e)

refund_round_trip_example :
    (r : RefundRow) × (p : PayoutRow) × (s' : State) × (lookup 9 office.refunds ≡ some r)
    × (lookup 33 asked.payouts ≡ some p)
    × (p.status ≡ pending)
    × (p.amount ≡ exactly r.amount)
    × (some 71 ≡ some p.destination)
    × (lookup r.invoice_id (mark_payout_sent 4 p 1044 asked).invoices ≡ some s')
    × (s'.invoice.status ≡ refunded)
unfolding refund_of
refund_round_trip_example =
    refund_round_trip 33 5 9 70 4 1044 (λ a. some (a + 1)) (λ n. n) office asked submits refl
