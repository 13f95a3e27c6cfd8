-- ===== src/Invoice/Update/Binding.antt =====
-- Which payment method an invoice is bound to, and what a payment writes.
use bitcart.Base.{
  ℕ, ◌≡◌, ◌≢◌, ap, true, false, Option, some, List, [], ◌∷◌, arith, ◌||◌, ◌==◌, if◌then◌else◌,
  Bool-cases, inl, inr, or_else, ◌∙◌,
}
use bitcart.Invoice.{nominal, paid_over, is_paid_status, PaymentMethod, Invoice, ExceptionStatus}
use bitcart.Invoice.Update.{
  State, used_payment, load_one, put_payment, merge, partial_payment, full_payment, enter_status,
  process_notifications, is_free, may_change, Call, prepare, change, update_status,
}
use bitcart.Invoice.Update.Status.{update_status_lem}

-- What a payment writes on the invoice, as the code's clients see it.
pub record Paid : Type 0 where
  pub payment_id : Option ℕ
  pub paid_currency : Option ℕ
  pub discount : Option ℕ
  pub tx_hashes : List ℕ
  pub sent_amount : ℕ
  pub paid_date : Option ℕ

pub receipt : Invoice → Paid
receipt i = record {
  payment_id = i.payment_id;
  paid_currency = i.paid_currency;
  discount = i.discount;
  tx_hashes = i.tx_hashes;
  sent_amount = i.sent_amount;
  paid_date = i.paid_date;
}

-- A method that is none of the invoice's used ones.
used_payment-put_unused :
    (m : PaymentMethod) (k : ℕ) (ps : List PaymentMethod)
    → m.id ≢ k
    → m.is_used ≡ false
    → used_payment ps ≡ some k
    → used_payment (put_payment m ps) ≡ some k
unfolding put_payment
used_payment-put_unused m k [] n u e = e
used_payment-put_unused m k (p ∷ ps) n u e = ground (arith, used_payment-put_unused m k ps n u)

-- What is written for a method needs the invoice to be free for it.
receipt-prepare_bound :
    (now k : ℕ) (c : Call) (s : State) (m : PaymentMethod)
    → used_payment s.invoice.payments ≡ some k
    → c.method ≡ some m
    → m.id ≢ k
    → receipt (prepare now c s).invoice ≡ receipt (load_one s.invoice)
unfolding prepare merge partial_payment receipt load_one
receipt-prepare_bound now k c s m u e n = ground arith

payment_id-prepare :
    (now k : ℕ) (c : Call) (s : State) (m : PaymentMethod)
    → used_payment s.invoice.payments ≡ some k
    → c.method ≡ some m
    → m.id ≢ k
    → (prepare now c s).invoice.payment_id ≡ some k
unfolding prepare merge partial_payment load_one
payment_id-prepare now k c s m u e n = ground arith

receipt-change_bound :
    (now k : ℕ) (c : Call) (s : State) (m : PaymentMethod)
    → s.invoice.payment_id ≡ some k
    → c.method ≡ some m
    → m.id ≢ k
    → receipt (change now c s).invoice ≡ receipt s.invoice
unfolding change enter_status process_notifications full_payment receipt
receipt-change_bound now k c s m u e n = ground arith

-- Once a payment method is used, a call for another method leaves what the invoice shows of its
-- payment as it was, whatever the status becomes.
pub bound_to_first :
    (now k : ℕ) (c : Call) (s : State) (m : PaymentMethod)
    → used_payment s.invoice.payments ≡ some k
    → c.method ≡ some m
    → m.id ≢ k
    → receipt (update_status now c s).1.invoice ≡ receipt (load_one s.invoice)
bound_to_first now k c s m u e n =
    let kept = receipt-prepare_bound now k c s m u e n in
    let bound : (prepare now c s).invoice.payment_id ≡ some k =
      payment_id-prepare now k c s m u e n in
    elim (Bool-cases (may_change s.invoice.status c.status)) [
      | inl b ↦
          rw (update_status_lem, b)
            (receipt-change_bound now k c (prepare now c s) m bound e n ∙ kept)
      | inr b ↦ rw (update_status_lem, b) kept
    ]

-- The verdict on the amount: exact, or Lightning, which cannot be overpaid.
pub amount_verdict : ℕ → PaymentMethod → ExceptionStatus
amount_verdict amount m = if amount == m.amount || m.lightning then nominal else paid_over

module _ (now : ℕ) (c : Call) (m : PaymentMethod) where
  paid_receipt : Option ℕ → Paid
  paid_receipt date = record {
    payment_id = some m.id;
    paid_currency = some m.name;
    discount = m.discount;
    tx_hashes = c.tx_hashes;
    sent_amount = c.sent_amount;
    paid_date = some (or_else date now);
  }

  change_paid :
      (s : State)
      → c.method ≡ some m
      → is_free s.invoice.payment_id m.id ≡ true
      → is_paid_status c.status ≡ true
      → (receipt (change now c s).invoice ≡ paid_receipt s.invoice.paid_date)
        × ((change now c s).invoice.exception_status
            ≡ or_else c.set_exception_status (amount_verdict c.sent_amount m))
  unfolding change enter_status process_notifications full_payment receipt paid_receipt
      amount_verdict
  change_paid s e free paid = ground arith

  prepare_changing :
      (s : State)
      → c.method ≡ some m
      → may_change s.invoice.status c.status ≡ true
      → ((prepare now c s).invoice.payment_id ≡ used_payment s.invoice.payments)
        × ((prepare now c s).invoice.paid_date ≡ s.invoice.paid_date)
  unfolding prepare merge partial_payment load_one may_change
  prepare_changing s e b = ground arith

-- A payment that takes the invoice to a paid status, by a method that it is bound to or free for,
-- binds it to the method, records the payment, dates it if it has no date yet, and sets the
-- verdict on the amount unless the caller sets another one.
pub paid_in_full :
    (now : ℕ) (c : Call) (s : State) (m : PaymentMethod)
    → c.method ≡ some m
    → is_free (used_payment s.invoice.payments) m.id ≡ true
    → is_paid_status c.status ≡ true
    → may_change s.invoice.status c.status ≡ true
    → let (_, s') = update_status now c s in
      (receipt s'.invoice ≡ record {
        payment_id = some m.id;
        paid_currency = some m.name;
        discount = m.discount;
        tx_hashes = c.tx_hashes;
        sent_amount = c.sent_amount;
        paid_date = some (or_else s.invoice.paid_date now);
      })
      × (s'.invoice.exception_status
          ≡ or_else c.set_exception_status (amount_verdict c.sent_amount m))
unfolding paid_receipt
paid_in_full now c s m e free paid b =
    let (bound, date) = prepare_changing now c m s e b in
    let (written, verdict) = change_paid now c m (prepare now c s) e (rw bound free) paid in
    rw (update_status_lem, b) (written ∙ ap (paid_receipt now c m) date, verdict)
