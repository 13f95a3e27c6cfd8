-- ===== src/Processor/Polling.antt =====
-- The poll for pending invoices (`check_pending`) hands an invoice of one session to two calls of
-- the service in another session. The second call then takes the first one back.
use bitcart.Base.{◌++◌, refl, ℕ, ◌<◌, ◌≡◌, true, false, none, some, List, arith, ap, ◌∙◌}
use bitcart.Invoice.{pending, paid, expired, same, is_pending_status}
use bitcart.Invoice.Update.{
  Message, round, State, Call, Payment, may_change, update_status, update_confirmations,
  confirmed_status, speed_of,
}
use bitcart.Processor.{
  Session, shared, detached, held_payment, held_invoice, dispatch, pay, process_unconfirmed,
  process_electrum_status, found, check_pending,
}
use bitcart.Processor.Convert.{RawStatus, known, convert_status}
use bitcart.Invoice.{unconfirmed}
use bitcart.Invoice.Update.Status.{status-update_status}
use bitcart.Invoice.Update.Messages.{sent-update_status}

-- No confirmation leaves the status of an invoice whose store waits for one.
status-update_confirmations_zero :
    (now : ℕ) (p : Payment) (s : State)
    → 0 < speed_of p
    → (update_confirmations now p 0 s).invoice.status ≡ s.invoice.status
unfolding update_confirmations confirmed_status may_change
status-update_confirmations_zero now p s h =
    let c : Call = record {
      status = confirmed_status (speed_of p) 0 s.invoice.status;
      method = some (record (p.method) { confirmations = 0 });
      tx_hashes = p.tx_hashes;
      sent_amount = p.sent_amount;
      set_exception_status = none;
    } in
    ground (arith, status-update_status now c s)

status-pay_paid :
    (now : ℕ) (p : Payment) (s : State)
    → s.invoice.status ≡ pending
    → (update_status now (pay paid p) s).1.invoice.status ≡ paid
unfolding may_change
status-pay_paid now p s e = ground (arith, status-update_status now (pay paid p) s)

speed_of-held_payment : (p : Payment) (s : State) → speed_of (held_payment shared p s) ≡ speed_of p
unfolding held_payment
speed_of-held_payment p s = ground arith

-- What the first branches of the handlers come to on a pending invoice.
electrum_unconfirmed :
    (now n : ℕ) (session : Session) (p : Payment) (raw : RawStatus) (s : State)
    → s.invoice.status ≡ pending
    → convert_status raw ≡ known unconfirmed
    → (process_electrum_status now session p n raw s).1 ≡ process_unconfirmed now session p s
unfolding process_electrum_status dispatch
electrum_unconfirmed now n session p raw s e u =
    let b : is_pending_status s.invoice.status ≡ true = ap is_pending_status e in rw (b, u)

-- The call that marks a pending invoice as paid sends a round of messages about it.
told_paid :
    (now : ℕ) (p : Payment) (s : State)
    → s.invoice.status ≡ pending
    → let s' = (update_status now (pay paid p) s).1 in
      s'.sent ≡ s.sent ++ round s'.invoice s'.email_enabled
unfolding may_change
told_paid now p s e =
    let changed : (update_status now (pay paid p) s).0 ≡ true =
      ground (arith, status-update_status now (pay paid p) s) in
    sent-update_status now (pay paid p) s ∙ rw changed refl

-- The second call adds messages to those that were sent.
sent-update_confirmations :
    (now : ℕ) (p : Payment) (n : ℕ) (s : State)
    → (rest : List Message) × ((update_confirmations now p n s).sent ≡ s.sent ++ rest)
unfolding update_confirmations
sent-update_confirmations now p n s = (_, sent-update_status now _ s)

-- A pending invoice whose payment the poll reports as unconfirmed is marked as paid, and a round of
-- messages about it as paid is sent, and then, if the store waits for a confirmation, it is pending again.
pub poll_takes_back :
    (now n : ℕ) (p : Payment) (raw : RawStatus) (tx_hashes : List ℕ) (amount : ℕ) (s : State)
    → s.invoice.status ≡ pending
    → convert_status raw ≡ known unconfirmed
    → 0 < speed_of p
    → let t = check_pending now p n (found raw tx_hashes amount) s in
      (told : State) × (rest : List Message) × (told.invoice.status ≡ paid)
      × (t.sent ≡ (s.sent ++ round told.invoice told.email_enabled) ++ rest)
      × (t.invoice.status ≡ pending)
unfolding check_pending process_unconfirmed held_invoice
poll_takes_back now n p raw tx_hashes amount s e u h =
    let p' : Payment = record p { tx_hashes = tx_hashes; sent_amount = amount } in
    let b : same s.invoice.status expired ≡ false = ap (λ x. same x expired) e in
    let s' = (update_status now (pay paid p') s).1 in
    let (rest, adds) = sent-update_confirmations now p' 0 (held_invoice detached s s') in
    rw (b, electrum_unconfirmed now n detached p' raw s e u)
      (
        s',
        rest,
        status-pay_paid now p' s e,
        adds ∙ ap (λ ms. ms ++ rest) (told_paid now p' s e),
        status-update_confirmations_zero now p' (held_invoice detached s s') h ∙ e,
      )

-- The same report on an event of the daemon leaves the invoice paid.
pub event_keeps :
    (now n : ℕ) (p : Payment) (raw : RawStatus) (s : State)
    → s.invoice.status ≡ pending
    → convert_status raw ≡ known unconfirmed
    → 0 < speed_of p
    → (process_electrum_status now shared p n raw s).1.invoice.status ≡ paid
unfolding process_unconfirmed
event_keeps now n p raw s e u h =
    let s' = (update_status now (pay paid p) s).1 in
    rw (electrum_unconfirmed now n shared p raw s e u) (
      status-update_confirmations_zero now (held_payment shared p s') s'
        (rw (speed_of-held_payment p s') h)
      ∙ status-pay_paid now p s e)
