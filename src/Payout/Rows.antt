-- ===== src/Payout/Rows.antt =====
-- What the operations on payouts leave as it was, and what they write.
use bitcart.Base.{
  ℕ, ◌≡◌, refl, false, some, [], ◌∷◌, ◌++◌, arith, if◌then◌else◌, Option-cases, inl, inr, ◌==◌,
}
use bitcart.Base.Dict.{lookup, insert, lookup-insert}
use bitcart.Invoice.{refunded}
use bitcart.Invoice.Update.{State, update_status, may_change}
use bitcart.Invoice.Update.Status.{status-update_status}
use bitcart.Processor.{plain}
use bitcart.Payout.{
  sent, PayoutRow, RefundRow, World, refund_of, process_sent_payout, is_settled,
  enter_payout_status, update_payout_status, mark_payout_sent,
}

-- The parts of the world that no refund changes.
pub record Same (w w' : World) : Type 0 where
  pub payouts : w'.payouts ≡ w.payouts
  pub network : w'.network ≡ w.network
  pub opened : w'.opened ≡ w.opened
  pub closed : w'.closed ≡ w.closed

Same-refl : (w : World) → Same w w
Same-refl w = record { payouts = refl; network = refl; opened = refl; closed = refl }

process_sent_payout-Same : (now k : ℕ) (w : World) → Same w (process_sent_payout now k w)
unfolding process_sent_payout
process_sent_payout-Same now k w = elim (Option-cases (refund_of k w.refunds)) [
  | inl e ↦ rw (e, process_sent_payout) (Same-refl w)
  | inr (r, e) ↦ elim (Option-cases (lookup r.invoice_id w.invoices)) [
    | inl f ↦ rw (e, process_sent_payout, f) (Same-refl w)
    | inr (s, f) ↦
        rw (e, process_sent_payout, f)
          record { payouts = refl; network = refl; opened = refl; closed = refl }
  ]
]

-- An unsettled payout that is marked as sent gets the status and the hash, and nothing is
-- broadcast, opened or closed.
pub record Marked (p : PayoutRow) (h : ℕ) (w w' : World) : Type 0 where
  pub row :
      (k : ℕ)
      → lookup k w'.payouts ≡ (
          if p.id == k
          then some (record p { status = sent; tx_hash = some h })
          else lookup k w.payouts)
  pub network : w'.network ≡ w.network
  pub opened : w'.opened ≡ w.opened
  pub closed : w'.closed ≡ w.closed

pub mark_payout_sent-Marked :
    (now h : ℕ) (p : PayoutRow) (w : World)
    → is_settled p.status sent ≡ false
    → Marked p h w (mark_payout_sent now p h w)
unfolding mark_payout_sent update_payout_status enter_payout_status
mark_payout_sent-Marked now h p w n =
    let p' : PayoutRow = record p { tx_hash = some h } in
    let p'' : PayoutRow = record p { tx_hash = some h; status = sent } in
    let w' : World = record w {
      payouts = insert p.id p'' (insert p.id p' w.payouts);
      messages = w.messages ++ (p.id, sent) ∷ [];
    } in
    let same = process_sent_payout-Same now p.id w' in
    rw n record {
      row = λ k. rw (same.payouts) (
          ground (
            arith,
            lookup-insert p.id k p'' (insert p.id p' w.payouts),
            lookup-insert p.id k p' w.payouts,
          ));
      network = same.network;
      opened = same.opened;
      closed = same.closed;
    }

invoices-process_sent_payout :
    (now k : ℕ) (r : RefundRow) (s : State) (w : World)
    → refund_of k w.refunds ≡ some r
    → lookup r.invoice_id w.invoices ≡ some s
    → (process_sent_payout now k w).invoices
      ≡ insert r.invoice_id (update_status now (plain refunded) s).1 w.invoices
unfolding process_sent_payout
invoices-process_sent_payout now k r s w e f = rw (e, process_sent_payout, f)

-- A call of `update_status` without a payment, for the status `refunded`, gets it.
refunds : (now : ℕ) (s : State) → (update_status now (plain refunded) s).1.invoice.status ≡ refunded
unfolding may_change
refunds now s = ground (arith, status-update_status now (plain refunded) s)

-- A payout that is marked as sent refunds the invoice of the refund that asked for it.
pub refunds_invoice :
    (now h : ℕ) (p : PayoutRow) (r : RefundRow) (s : State) (w : World)
    → is_settled p.status sent ≡ false
    → refund_of p.id w.refunds ≡ some r
    → lookup r.invoice_id w.invoices ≡ some s
    → (s' : State) × (lookup r.invoice_id (mark_payout_sent now p h w).invoices ≡ some s')
      × (s'.invoice.status ≡ refunded)
unfolding mark_payout_sent update_payout_status enter_payout_status
refunds_invoice now h p r s w n e f =
    let s' = (update_status now (plain refunded) s).1 in
    let p' : PayoutRow = record p { tx_hash = some h } in
    let p'' : PayoutRow = record p { tx_hash = some h; status = sent } in
    let w' : World = record w {
      payouts = insert p.id p'' (insert p.id p' w.payouts);
      messages = w.messages ++ (p.id, sent) ∷ [];
    } in
    rw (n, invoices-process_sent_payout now p.id r s w' e f)
      (s', ground (arith, lookup-insert r.invoice_id r.invoice_id s' w.invoices), refunds now s)
