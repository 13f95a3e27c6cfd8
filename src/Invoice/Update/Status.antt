-- ===== src/Invoice/Update/Status.antt =====
-- What `update_status` does to the status and the stock, in every branch.
use bitcart.Base.{
  ℕ, ◌≡◌, ◌≢◌, refl, ap, true, false, arith, ◌&&◌, if◌then◌else◌, Bool-cases, inl, inr,
}
use bitcart.Stock.{update_stock_levels}
use bitcart.Invoice.{InvoiceStatus, pending, complete, refunded, same}
use bitcart.Invoice.Update.{
  State, merge, partial_payment, full_payment, enter_status, process_notifications, claim,
  may_change, Call, prepare, change, update_status,
}

-- Neither `merge` nor a partial payment changes the status, the stock or what was bought.
status-prepare :
    (now : ℕ) (c : Call) (s : State) → (prepare now c s).invoice.status ≡ s.invoice.status
unfolding prepare partial_payment merge claim process_notifications
status-prepare now c s = ground arith

products-prepare : (now : ℕ) (c : Call) (s : State) → (prepare now c s).products ≡ s.products
unfolding prepare partial_payment merge process_notifications
products-prepare now c s = ground arith

order-prepare :
    (now : ℕ) (c : Call) (s : State) → (prepare now c s).invoice.products ≡ s.invoice.products
unfolding prepare partial_payment merge claim process_notifications
order-prepare now c s = ground arith

status-change : (now : ℕ) (c : Call) (s : State) → (change now c s).invoice.status ≡ c.status
unfolding change enter_status process_notifications
status-change now c s = refl

products-change :
    (now : ℕ) (c : Call) (s : State)
    → (change now c s).products ≡ (
        if same c.status complete
        then update_stock_levels s.invoice.products s.products
        else s.products)
unfolding change enter_status process_notifications full_payment claim
products-change now c s = ground arith

-- The guard may be read off the state before the call.
pub update_status_lem :
    (now : ℕ) (c : Call) (s : State)
    → update_status now c s ≡ (
        if may_change s.invoice.status c.status
        then (true, change now c (prepare now c s))
        else (false, prepare now c s))
unfolding update_status
update_status_lem now c s = rw status-prepare

-- The result says whether the status was changed; the status is then the one asked for, and
-- otherwise as it was.
pub status-update_status :
    (now : ℕ) (c : Call) (s : State)
    → let (changed, s') = update_status now c s in
      (changed ≡ may_change s.invoice.status c.status)
      × (s'.invoice.status ≡ (if changed then c.status else s.invoice.status))
status-update_status now c s = elim (Bool-cases (may_change s.invoice.status c.status)) [
  | inl e ↦ rw (update_status_lem, e) (refl, status-change now c (prepare now c s))
  | inr e ↦ rw (update_status_lem, e) (refl, status-prepare now c s)
]

-- The stock is reduced by the invoice's order exactly when the call completes the invoice.
pub products-update_status :
    (now : ℕ) (c : Call) (s : State)
    → let (changed, s') = update_status now c s in
      s'.products ≡ (
        if changed && same c.status complete
        then update_stock_levels s.invoice.products s.products
        else s.products)
products-update_status now c s = elim (Bool-cases (may_change s.invoice.status c.status)) [
  | inl e ↦ rw (update_status_lem, e) (rw (products-change, order-prepare, products-prepare))
  | inr e ↦ rw (update_status_lem, e) (products-prepare now c s)
]

-- A partial payment is only noted on a pending invoice, by a pending call.
prepare-eq-merge :
    (now : ℕ) (c : Call) (s : State)
    → same c.status pending && same s.invoice.status pending ≡ false
    → prepare now c s ≡ merge c.method s
unfolding prepare partial_payment merge
prepare-eq-merge now c s h = ground arith

may_change-complete :
    (old status : InvoiceStatus)
    → old ≡ complete
    → status ≢ refunded
    → may_change old status ≡ false
unfolding may_change
may_change-complete old status h n = ground arith

-- A complete invoice is left as it was, and nothing is sent, by every call but a refund.
pub complete_is_final :
    (now : ℕ) (c : Call) (s : State)
    → s.invoice.status ≡ complete
    → c.status ≢ refunded
    → update_status now c s ≡ (false, merge c.method s)
complete_is_final now c s h n =
    rw (update_status_lem, may_change-complete s.invoice.status c.status h n)
      (ap (λ t. (false, t)) (prepare-eq-merge now c s (ground (arith, h))))
