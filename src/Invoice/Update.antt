-- ===== src/Invoice/Update.antt =====
-- `load_one`, `update_confirmations`, `update_status` and what they call, of
-- api/services/crud/invoices.py, over one invoice with its payment methods, the products and the
-- messages that go out. The sessions of the database are not modelled: a call works on the row.
pub mod Status
pub mod Binding
pub mod Messages
pub mod Exclusive
use bitcart.Base.{
  ℕ, Bool, true, false, Option, none, some, List, [], ◌∷◌, ◌++◌, not, ◌&&◌, ◌||◌, ◌==◌, ltb, leb,
  if◌then◌else◌, or_else, is_some,
}
use bitcart.Stock.{Product, update_stock_levels}
use bitcart.Invoice.{
  InvoiceStatus, pending, confirmed, complete, refunded, ExceptionStatus, nominal, paid_partial,
  paid_over, same, is_paid_status, PaymentMethod, Invoice,
}

-- What `process_notifications` sends: the message of `prepare_websocket_response` on the invoice's
-- channel, the hooks of the plugins, the request to the notification URL, and on completion the
-- store's notifications and its e-mail.
pub data Message : Type 0 where
  websocket : InvoiceStatus → ExceptionStatus → ℕ → Option ℕ → Option ℕ → Message
  hook_invoice_status : InvoiceStatus → Message
  ipn : InvoiceStatus → Message
  hook_invoice_complete : Message
  notify : Message
  email : Message

-- `email_enabled` is `StoreEmail.get_email(store).is_enabled()`.
pub record State : Type 0 where
  pub invoice : Invoice
  pub products : List Product
  pub email_enabled : Bool
  pub sent : List Message

-- The payment id that `load_one` computes.
abbrev pub used_payment : List PaymentMethod → Option ℕ
used_payment [] = none
used_payment (p ∷ ps) = let rest = used_payment ps in if p.is_used then some p.id else rest

pub load_one : Invoice → Invoice
load_one i = record i { payment_id = used_payment i.payments }

-- The row of the method with `m`'s id becomes `m`.
pub put_payment : PaymentMethod → List PaymentMethod → List PaymentMethod
put_payment m [] = []
put_payment m (p ∷ ps) = (if p.id == m.id then m else p) ∷ put_payment m ps

has_items {ℓ} : {A : Type ℓ} → List A → Bool
has_items [] = false
has_items (x ∷ xs) = true

-- `invoice_notification`, with whether the store's e-mail is enabled
invoice_notification : Invoice → Bool → List Message
unfolding has_items
invoice_notification i email_enabled =
    let mail = if has_items i.products && email_enabled then email ∷ [] else [] in
    hook_invoice_status i.status
    ∷ ipn i.status
    ∷ (if same i.status complete then hook_invoice_complete ∷ notify ∷ mail else [])

-- `prepare_websocket_response`, the amount not formatted
prepare_websocket_response : Invoice → Message
prepare_websocket_response i =
    websocket i.status i.exception_status i.sent_amount i.paid_currency i.payment_id

-- One round of notifications: what the world is told about a row.
pub round : Invoice → Bool → List Message
unfolding invoice_notification prepare_websocket_response
round i email_enabled = prepare_websocket_response i ∷ invoice_notification i email_enabled

pub process_notifications : State → State
process_notifications s = record s { sent = s.sent ++ round s.invoice s.email_enabled }

-- `not invoice.payment_id or invoice.payment_id == method.id`
abbrev pub is_free : Option ℕ → ℕ → Bool
is_free none k = true
is_free (some p) k = p == k

-- What `update_status` writes for a payment: the invoice is bound to the method.
pub claim : ℕ → PaymentMethod → List ℕ → ℕ → ExceptionStatus → Option ℕ → Invoice → Invoice
unfolding put_payment
claim now m tx_hashes amount e paid i = record i {
  paid_currency = some m.name;
  discount = m.discount;
  tx_hashes = tx_hashes;
  sent_amount = amount;
  exception_status = e;
  paid_date = paid;
  payment_id = some m.id;
  payments = put_payment (record m { is_used = true }) i.payments;
}

-- `merge_object(invoice)` and `session.merge(method)`
pub merge : Option PaymentMethod → State → State
unfolding load_one put_payment
merge none s = record s { invoice = load_one s.invoice }
merge (some m) s =
    let i = load_one s.invoice in
    record s { invoice = record i { payments = put_payment m i.payments } }

-- The first `if`: a payment that does not reach the price yet.
pub partial_payment : ℕ → InvoiceStatus → Option PaymentMethod → List ℕ → ℕ → State → State
unfolding claim process_notifications
partial_payment now status none tx_hashes amount s = s
partial_payment now status (some m) tx_hashes amount s =
    if same status pending
      && same s.invoice.status pending
      && ltb 0 amount
      && is_free s.invoice.payment_id m.id
    then process_notifications (record s {
      invoice = claim now m tx_hashes amount paid_partial s.invoice.paid_date s.invoice;
    })
    else s

-- The guard of the second `if`.
unfoldable pub may_change : InvoiceStatus → InvoiceStatus → Bool
may_change old status =
    not (same old status)
    && not (same status pending)
    && (not (same old complete) || same status refunded)

-- The inner `if method`: a payment that reaches the price.
pub full_payment : ℕ → InvoiceStatus → Option PaymentMethod → List ℕ → ℕ → Invoice → Invoice
unfolding claim
full_payment now status none tx_hashes amount i = i
full_payment now status (some m) tx_hashes amount i =
    if is_free i.payment_id m.id && is_paid_status status
    then claim now m tx_hashes amount
        (if amount == m.amount || m.lightning then nominal else paid_over)
        (if is_some i.paid_date then i.paid_date else some now) i
    else i

-- The rest of the second `if`: the new status, the stock, the notifications.
pub enter_status : InvoiceStatus → Option ExceptionStatus → State → State
unfolding process_notifications
enter_status status e s = process_notifications (record s {
  invoice = record (s.invoice) {
    status = status;
    exception_status = or_else e s.invoice.exception_status;
  };
  products =
      if same status complete
      then update_stock_levels s.invoice.products s.products
      else s.products;
})

pub record Call : Type 0 where
  pub status : InvoiceStatus
  pub method : Option PaymentMethod
  pub tx_hashes : List ℕ
  pub sent_amount : ℕ
  pub set_exception_status : Option ExceptionStatus

-- The body of `update_status` before its second `if`, and the branch that this `if` guards.
pub prepare : ℕ → Call → State → State
prepare now c s = partial_payment now c.status c.method c.tx_hashes c.sent_amount (merge c.method s)

pub change : ℕ → Call → State → State
change now c s =
    enter_status c.status c.set_exception_status (record s {
      invoice = full_payment now c.status c.method c.tx_hashes c.sent_amount s.invoice;
    })

-- `update_status` at the time `now`: whether the status changed, and the new state.
pub update_status : ℕ → Call → State → Bool × State
update_status now c s =
    let s' = prepare now c s in
    if may_change s'.invoice.status c.status then (true, change now c s') else (false, s')

unfoldable pub confirmed_status : ℕ → ℕ → InvoiceStatus → InvoiceStatus
confirmed_status speed confirmations status =
    if leb speed confirmations then complete else if leb 1 confirmations then confirmed else status

-- What a payment event carries beside its status: the method, the wallet's transaction speed if it
-- has one, and the store's.
pub record Payment : Type 0 where
  pub method : PaymentMethod
  pub wallet_speed : Option ℕ
  pub store_speed : ℕ
  pub tx_hashes : List ℕ
  pub sent_amount : ℕ

abbrev pub speed_of : Payment → ℕ
speed_of p = or_else p.wallet_speed p.store_speed

unfoldable pub update_confirmations : ℕ → Payment → ℕ → State → State
unfolding confirmed_status
update_confirmations now p confirmations s =
    (update_status now
      (record {
        status = confirmed_status (speed_of p) confirmations s.invoice.status;
        method = some (record (p.method) { confirmations = confirmations });
        tx_hashes = p.tx_hashes;
        sent_amount = p.sent_amount;
        set_exception_status = none;
      })
      s).1
