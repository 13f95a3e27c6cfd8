-- ===== src/Processor.antt =====
-- The payment processor (api/services/payment_processor.py): what it does to an invoice on an event
-- of a daemon, on a new block, on the poll for pending invoices and on expiry. What the daemon
-- answers is an argument of each operation.
pub mod Convert
pub mod Stages
pub mod Life
pub mod Polling
use Prim.Native.String.{String}
use text.Mathlib.Text.{◌==◌ as str_eq}
use bitcart.Base.{
  ℕ, Bool, true, false, Option, none, some, List, ◌+◌, ◌*◌, not, ◌&&◌, ◌==◌, ltb, leb, min, find,
  holds, or_else, if◌then◌else◌,
}
use bitcart.Invoice.{
  InvoiceStatus, pending, paid, unconfirmed, confirmed, expired, invalid, complete, refunded,
  ExceptionStatus, failed_confirm, same, is_pending_status, PaymentMethod, Invoice,
}
use bitcart.Invoice.Update.{State, Call, Payment, load_one, update_status, update_confirmations}
use Convert.{RawStatus, Converted, known, other, unmapped, convert_status}

-- The objects that a handler passes to the invoice service belong to the session that the service
-- works in (`shared`), and then show what the service has written, or to another session
-- (`detached`), and then stay as they were loaded; `session.merge` copies such an object over the
-- row (api/db.py sets `expire_on_commit=False`).
pub data Session : Type 0 where
  shared detached : Session

-- The invoice and the method as a handler holds them after a call that took `before` to `after`.
pub held_invoice : Session → State → State → State
held_invoice shared before after = after
held_invoice detached before after = record after { invoice = before.invoice }

pub held_payment : Session → Payment → State → Payment
held_payment shared p after = elim (find (λ m. m.id == p.method.id) after.invoice.payments) [
  | none ↦ p
  | some m ↦ record p { method = m }
]
held_payment detached p after = p

-- The call of `update_status` with a payment's method, hashes and amount.
abbrev pub pay : InvoiceStatus → Payment → Call
pay status p = record {
  status = status;
  method = some p.method;
  tx_hashes = p.tx_hashes;
  sent_amount = p.sent_amount;
  set_exception_status = none;
}

-- The branches of `process_electrum_status`. `confirmations` is what `get_confirmations` returns.
process_unconfirmed : ℕ → Session → Payment → State → State
unfolding held_invoice held_payment
process_unconfirmed now session p s =
    let s' = (update_status now (pay paid p) s).1 in
    update_confirmations now (held_payment session p s') 0 (held_invoice session s s')

dispatch : ℕ → Session → Payment → ℕ → Converted → State → State
unfolding process_unconfirmed
dispatch now session p confirmations (known pending) s =
    if ltb 0 p.sent_amount then (update_status now (pay pending p) s).1 else s
dispatch now session p confirmations (known unconfirmed) s = process_unconfirmed now session p s
dispatch now session p confirmations (known complete) s =
    if p.method.lightning
    then (update_status now (pay complete p) s).1
    else update_confirmations now p confirmations s
dispatch now session p confirmations _ s = s

pub process_electrum_status : ℕ → Session → Payment → ℕ → RawStatus → State → Bool × State
unfolding dispatch
process_electrum_status now session p confirmations raw s =
    if is_pending_status s.invoice.status
    then (true, dispatch now session p confirmations (convert_status raw) s)
    else (false, s)

-- `get_max_confirmation_watch` of api/constants.py
get_max_confirmation_watch : String → ℕ
get_max_confirmation_watch currency = if str_eq currency "xmr" then 32 else 10

-- `get_confirmations`, from the confirmations that the daemon reports, if it does.
get_confirmations : String → Option ℕ → ℕ
unfolding get_max_confirmation_watch
get_confirmations currency reported = min (get_max_confirmation_watch currency) (or_else reported 0)

-- A row of `get_pending_invoices_query`.
pub record Row : Type 0 where
  pub payment : Payment
  pub currency : String
  pub wallet_currency : String
  pub lookup_field : String
  pub contract : Option String
  pub state : State

pub record PaymentEvent : Type 0 where
  pub coin_name : String
  pub address : String
  pub status : RawStatus
  pub tx_hashes : List ℕ
  pub sent_amount : ℕ
  pub contract : Option String

-- `not contract or method.contract == contract`
contract_matches : Option String → Option String → Bool
contract_matches none c = true
contract_matches (some k) none = false
contract_matches (some k) (some c) = str_eq c k

-- The conditions of the query, and those that `new_payment_handler` adds. The coin's name is lower
-- case, as every event has it.
selects : PaymentEvent → Row → Bool
unfolding contract_matches
selects e r =
    is_pending_status r.state.invoice.status
    && str_eq r.currency e.coin_name
    && str_eq r.wallet_currency r.currency
    && str_eq r.lookup_field e.address
    && contract_matches e.contract r.contract

-- `new_payment_handler`: the first row that the query finds, if any, is processed in the session
-- that loaded it.
new_payment_handler : ℕ → PaymentEvent → (Row → ℕ) → List Row → Option (Row × (Bool × State))
unfolding selects
new_payment_handler now e confirmations rows = elim (find (selects e) rows) [
  | none ↦ none
  | some r ↦
      let p = record (r.payment) { tx_hashes = e.tx_hashes; sent_amount = e.sent_amount } in
      let s = record (r.state) { invoice = load_one r.state.invoice } in
      some (r, process_electrum_status now shared p (confirmations r) e.status s)
]

-- The tests in the loop of `new_block_handler`: a confirmed invoice, the method that it is bound
-- to, and another number of confirmations than before.
pub awaits : Payment → ℕ → State → Bool
awaits p confirmations s =
    same s.invoice.status confirmed
    && holds s.invoice.payment_id p.method.id
    && not p.method.lightning
    && not (confirmations == p.method.confirmations)

-- The body of the loop of `new_block_handler`, with the confirmations that the daemon reports.
pub process_new_block : ℕ → Payment → ℕ → State → State
process_new_block now p confirmations s =
    if awaits p confirmations s
    then update_confirmations now
        (record p { tx_hashes = s.invoice.tx_hashes; sent_amount = s.invoice.sent_amount })
        confirmations s
    else s

-- What `coin.get_request` or `coin.get_invoice` answers to the poll.
pub data Answer : Type 0 where
  not_found : Answer
  found : RawStatus → List ℕ → ℕ → Answer

abbrev pub dropped : Call
dropped = record {
  status = invalid;
  method = none;
  tx_hashes = List.[];
  sent_amount = 0;
  set_exception_status = some failed_confirm;
}

-- The body of the loop of `check_pending`; the processing runs in a session of its own.
pub check_pending : ℕ → Payment → ℕ → Answer → State → State
check_pending now p confirmations not_found s =
    if same s.invoice.status expired then s else (update_status now dropped s).1
check_pending now p confirmations (found raw tx_hashes amount) s =
    if same s.invoice.status expired
    then s
    else (process_electrum_status now detached
        (record p { tx_hashes = tx_hashes; sent_amount = amount }) confirmations raw s).1

abbrev pub plain : InvoiceStatus → Call
plain status = record {
  status = status;
  method = none;
  tx_hashes = List.[];
  sent_amount = 0;
  set_exception_status = none;
}

-- The rows that `get_invoices_for_expiry` selects: pending, and `expiration` minutes old.
is_due : ℕ → ℕ → ℕ → InvoiceStatus → Bool
is_due now created expiration status = same status pending && leb (created + expiration * 60) now

-- `process_expire_task`: the state, and whether the hook `invoice_expired` runs.
pub process_expire_task : ℕ → State → Bool × State
process_expire_task now s =
    if same s.invoice.status pending
    then (true, (update_status now (plain expired) s).1)
    else (false, s)
