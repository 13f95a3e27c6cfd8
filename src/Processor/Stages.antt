-- ===== src/Processor/Stages.antt =====
-- The stages of an invoice, and how far one call of the service takes it.
use bitcart.Base.{ℕ, ◌+◌, ◌≤◌, ◌≡◌, refl, Bool, true, false, arith, ◌&&◌, if◌then◌else◌, leb, ltb}
use bitcart.Invoice.{
  InvoiceStatus, pending, paid, unconfirmed, confirmed, expired, invalid, complete, refunded,
}
use bitcart.Invoice.Update.{
  State, Call, Payment, may_change, update_status, update_confirmations, confirmed_status,
}
use bitcart.Invoice.Update.Status.{status-update_status}
use bitcart.Invoice.Update.Messages.{completions, completions-update_status}

-- How far an invoice has come.
unfoldable pub stage : InvoiceStatus → ℕ
stage pending = 0
stage paid = 1
stage unconfirmed = 1
stage confirmed = 2
stage complete = 3
stage expired = 4
stage invalid = 4
stage refunded = 5

-- One call took the invoice forward, and announced its completion at most once, when it left the
-- open stages.
pub record Advances (s t : State) : Type 0 where
  pub forward : stage s.invoice.status ≤ stage t.invoice.status
  pub announced :
      completions t.sent
      ≤ completions s.sent
        + (if ltb (stage s.invoice.status) 3 && leb 3 (stage t.invoice.status) then 1 else 0)

pub Advances-refl : (s : State) → Advances s s
Advances-refl s = omega arith

pub Advances-trans : {s t u : State} → Advances s t → Advances t u → Advances s u
Advances-trans a b = ground arith

pub Advances-if :
    {s : State} (b : Bool) (t u : State)
    → (b ≡ true → Advances s t)
    → (b ≡ false → Advances s u)
    → Advances s (if b then t else u)
Advances-if true t u ht hu = ht refl
Advances-if false t u ht hu = hu refl

pub Advances-update_status :
    (now : ℕ) (c : Call) (s : State)
    → (may_change s.invoice.status c.status ≡ true → stage s.invoice.status ≤ stage c.status)
    → Advances s (update_status now c s).1
unfolding stage may_change
Advances-update_status now c s h =
    ground (arith, completions-update_status now c s, status-update_status now c s)

-- Confirmations take an invoice that is not complete yet forward, or leave it.
pub Advances-update_confirmations :
    (now : ℕ) (p : Payment) (n : ℕ) (s : State)
    → stage s.invoice.status ≤ 2
    → Advances s (update_confirmations now p n s)
unfolding update_confirmations stage may_change confirmed_status
Advances-update_confirmations now p n s h = Advances-update_status now _ s (ground arith)
