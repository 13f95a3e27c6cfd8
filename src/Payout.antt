-- ===== src/Payout.antt =====
-- Payouts and refunds: api/services/payout_manager.py and the tables `Payout` and `Refund` of
-- api/models.py. An amount that does not ask for the whole balance is a natural number of the
-- smallest unit. The answers of a coin's daemon are the fields of `Coin`; `none` is an exception.
pub mod Send
pub mod Batch
pub mod Refund
pub mod Rows
pub mod Once
pub mod Twice
pub mod Group
use bitcart.Base.{
  ℕ, Bool, true, false, Option, none, some, List, [], ◌∷◌, ◌++◌, ◌+◌, not, ◌&&◌, ◌||◌, ◌==◌, leb,
  if◌then◌else◌, or_else, is_some, find,
}
use bitcart.Base.Dict.{Dict, lookup, insert}
use bitcart.Invoice.{refunded}
use bitcart.Invoice.Update.{State, update_status}
use bitcart.Processor.{plain}

pub data PayoutStatus : Type 0 where
  pending approved cancelled failed sent complete : PayoutStatus

abbrev payout_code : PayoutStatus → ℕ
payout_code pending = 0
payout_code approved = 1
payout_code cancelled = 2
payout_code failed = 3
payout_code sent = 4
payout_code complete = 5

abbrev pub is : PayoutStatus → PayoutStatus → Bool
is a b = payout_code a == payout_code b

-- `SENT_PAYOUT_STATUSES`
abbrev pub is_sent_status : PayoutStatus → Bool
is_sent_status sent = true
is_sent_status complete = true
is_sent_status _ = false

-- `SEND_ALL`, or a sum.
pub data Amount : Type 0 where
  send_all : Amount
  exactly : ℕ → Amount

pub record PayoutRow : Type 0 where
  pub id : ℕ
  pub amount : Amount
  pub destination : ℕ
  pub status : PayoutStatus
  pub store_id : Option ℕ
  pub wallet_id : Option ℕ
  pub max_fee : Option ℕ
  pub tx_hash : Option ℕ
  pub used_fee : Option ℕ

pub record RefundRow : Type 0 where
  pub id : ℕ
  pub amount : ℕ
  pub wallet_id : Option ℕ
  pub invoice_id : ℕ
  pub payout_id : Option ℕ
  pub destination : Option ℕ

-- The tables, the messages about payouts (the notification and the hook, in one), the hashes of the
-- transactions that were broadcast, and how often a coin's wallet was opened and closed.
pub record World : Type 0 where
  pub payouts : Dict PayoutRow
  pub refunds : Dict RefundRow
  pub invoices : Dict State
  pub messages : List (ℕ × PayoutStatus)
  pub network : List ℕ
  pub opened : ℕ
  pub closed : ℕ

-- The first refund of the table with this payout.
unfoldable pub refund_of : ℕ → Dict RefundRow → Option RefundRow
refund_of payout [] = none
refund_of payout ((k, r) ∷ rs) =
    let rest = refund_of payout rs in
    elim r.payout_id [ none ↦ rest | some j ↦ if j == payout then some r else rest ]

-- `RefundService.process_sent_payout`
unfoldable pub process_sent_payout : ℕ → ℕ → World → World
unfolding refund_of
process_sent_payout now payout w = elim (refund_of payout w.refunds) [
  | none ↦ w
  | some r ↦ elim (lookup r.invoice_id w.invoices) [
    | none ↦ w
    | some s ↦ record w {
      invoices = insert r.invoice_id (update_status now (plain refunded) s).1 w.invoices;
    }
  ]
]

-- `payout.update(...)` with `merge_object(payout)`: the whole object is written to its row.
abbrev put_payout : PayoutRow → World → World
put_payout p w = record w { payouts = insert p.id p w.payouts }

unfoldable pub is_settled : PayoutStatus → PayoutStatus → Bool
is_settled old status = is old status || is old complete

-- What `update_status` does once its guard has passed.
unfoldable pub enter_payout_status : ℕ → PayoutRow → PayoutStatus → World → World
enter_payout_status now p status w =
    let w' = record w {
      payouts = insert p.id (record p { status = status }) w.payouts;
      messages = w.messages ++ (p.id, status) ∷ [];
    } in
    if is status sent then process_sent_payout now p.id w' else w'

-- `PayoutManager.update_status`, on the object `p`
unfoldable pub update_payout_status : ℕ → PayoutRow → PayoutStatus → World → World
update_payout_status now p status w =
    if is_settled p.status status then w else enter_payout_status now p status w

-- `mark_payout_sent`; the new hash reaches the row also when the status stays. The notification and the
-- hooks catch their own exceptions (api/services/ipn_sender.py, api/services/plugin_registry.py); those of
-- the database are left out.
unfoldable pub mark_payout_sent : ℕ → PayoutRow → ℕ → World → World
mark_payout_sent now p tx_hash w =
    let p' = record p { tx_hash = some tx_hash } in
    update_payout_status now p' sent (put_payout p' w)

-- `finalize_payout`, with the answer of `get_used_fee`
finalize_payout : ℕ → Option ℕ → PayoutRow → World → World
finalize_payout now used_fee p w = elim used_fee [
  | none ↦ w
  | some fee ↦
      let p' = record p { used_fee = some fee } in
      update_payout_status now p' complete (put_payout p' w)
]

-- What a coin's daemon says of a payout's transaction: its confirmations and the fee that it used.
-- No confirmations are given for a transaction that the daemon does not find.
pub record Seen : Type 0 where
  pub confirmations : Option ℕ
  pub used_fee : Option ℕ

-- The body of the loop of `process_new_block`.
check_payout : ℕ → (PayoutRow → Seen) → PayoutRow → World → World
check_payout now seen p w =
    let s = seen p in
    elim s.confirmations [
      | none ↦ w
      | some n ↦ if leb 1 n then finalize_payout now s.used_fee p w else w
    ]

-- `process_new_block` on the rows that `get_sent_payouts` selects for the coin.
process_payouts : ℕ → (PayoutRow → Seen) → List PayoutRow → World → World
process_payouts now seen [] w = w
process_payouts now seen (p ∷ ps) w = process_payouts now seen ps (check_payout now seen p w)

-- `get_sent_payouts`, for the wallets of a coin.
get_sent_payouts : (ℕ → Bool) → Dict PayoutRow → List PayoutRow
get_sent_payouts of_coin [] = []
get_sent_payouts of_coin ((k, p) ∷ ps) =
    let rest = get_sent_payouts of_coin ps in
    elim p.wallet_id [
      | none ↦ rest
      | some i ↦ if is p.status sent && of_coin i then p ∷ rest else rest
    ]
