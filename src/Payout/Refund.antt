-- ===== src/Payout/Refund.antt =====
-- Refunds: `create_refund` and `submit_refund` of api/services/crud/refunds.py, with `prepare_create`
-- and `validate` of api/services/crud/payouts.py. `none` is an exception, after which nothing is
-- written. The ids that the database draws are arguments.
use bitcart.Base.{
  ℕ, ◌≡◌, refl, false, Option, none, some, List, [], ◌∷◌, arith, if◌then◌else◌, Option-cases,
  Bool-cases, inl, inr, ◌==◌, ◌>>=◌, find, is_some,
}
use bitcart.Base.Dict.{Dict, lookup, insert, lookup-insert}
use bitcart.Invoice.{PaymentMethod, refunded}
use bitcart.Invoice.Update.{State, load_one}
use bitcart.Payout.{
  exactly, pending, sent, PayoutRow, RefundRow, World, refund_of, mark_payout_sent, is_settled,
}
use bitcart.Payout.Rows.{refunds_invoice}

-- `match_payment`
match_payment : List PaymentMethod → ℕ → Option PaymentMethod
match_payment ps payment_id = find (λ m. m.id == payment_id) ps

-- `create_refund`: the wallet of a payment method is a column that only refunds read.
create_refund : ℕ → (ℕ → Option ℕ) → ℕ → ℕ → World → Option (RefundRow × World)
create_refund id wallet_of amount invoice_id w = do
  s ← lookup invoice_id w.invoices
  let i = load_one s.invoice
  payment_id ← i.payment_id
  payment ← match_payment i.payments payment_id
  let r : RefundRow = record {
    id = id;
    amount = amount;
    wallet_id = wallet_of payment.id;
    invoice_id = invoice_id;
    payout_id = none;
    destination = none;
  }
  some (r, record w { refunds = insert id r w.refunds })

-- The payout that a refund asks for, at an address that the coin's daemon has normalized.
abbrev payout_for : ℕ → ℕ → ℕ → RefundRow → PayoutRow
payout_for id store address r = record {
  id = id;
  amount = exactly r.amount;
  destination = address;
  status = pending;
  store_id = some store;
  wallet_id = r.wallet_id;
  max_fee = none;
  tx_hash = none;
  used_fee = none;
}

abbrev submitted : ℕ → (ℕ → ℕ) → ℕ → RefundRow → RefundRow
submitted id normalize destination r = record r {
  payout_id = some id;
  destination = some destination;
  amount = normalize r.amount;
}

-- `submit_refund`: `check_address` is the daemon's check with its normal form, `normalize` the
-- rounding of an amount of the refund's currency, and `store` the invoice's store.
unfoldable pub submit_refund : ℕ → ℕ → (ℕ → Option ℕ) → (ℕ → ℕ) → ℕ → ℕ → World → Option World
submit_refund id store check_address normalize refund_id destination w = do
  r ← lookup refund_id w.refunds
  if is_some r.payout_id then none else (do
    s ← lookup r.invoice_id w.invoices
    address ← check_address destination
    some (record w {
      payouts = insert id (payout_for id store address r) w.payouts;
      refunds = insert r.id (submitted id normalize destination r) w.refunds;
    }))

-- What `submit_refund` writes when it returns.
record Submission (id store refund_id destination : ℕ) (check_address : ℕ → Option ℕ)
    (normalize : ℕ → ℕ) (w w' : World) : Type 0 where
  refund : RefundRow
  invoice : State
  address : ℕ
  found : lookup refund_id w.refunds ≡ some refund
  fresh : refund.payout_id ≡ none
  of_invoice : lookup refund.invoice_id w.invoices ≡ some invoice
  checked : check_address destination ≡ some address
  written : w' ≡ record w {
    payouts = insert id (payout_for id store address refund) w.payouts;
    refunds = insert refund.id (submitted id normalize destination refund) w.refunds;
  }

submit_refund-Submission :
    (id store refund_id destination : ℕ) (check_address : ℕ → Option ℕ) (normalize : ℕ → ℕ)
    (w w' : World)
    → submit_refund id store check_address normalize refund_id destination w ≡ some w'
    → Submission id store refund_id destination check_address normalize w w'
unfolding submit_refund
submit_refund-Submission id store k d check normalize w w' h =
    elim (Option-cases (lookup k w.refunds)) [
      | inl e ↦ absurd (ground (arith, h, e))
      | inr (r, e) ↦ elim (Option-cases r.payout_id) [
        | inr (i, f) ↦ absurd (ground (arith, h, e, f))
        | inl f ↦ elim (Option-cases (lookup r.invoice_id w.invoices)) [
          | inl g ↦ absurd (ground (arith, h, e, f, g))
          | inr (s, g) ↦ elim (Option-cases (check d)) [
            | inl a ↦ absurd (ground (arith, h, e, f, g, a))
            | inr (address, a) ↦ record {
              refund = r;
              invoice = s;
              address = address;
              found = e;
              fresh = f;
              of_invoice = g;
              checked = a;
              written = ground (arith, h, e, f, g, a);
            }
          ]
        ]
      ]
    ]

-- A refund is submitted once: after a submission every other one is refused, whatever its address
-- and its payout's id.
pub submitted_once :
    (id store refund_id destination : ℕ) (check_address : ℕ → Option ℕ) (normalize : ℕ → ℕ)
    (w w' : World)
    → ((r : RefundRow) → lookup refund_id w.refunds ≡ some r → r.id ≡ refund_id)
    → submit_refund id store check_address normalize refund_id destination w ≡ some w'
    → (id' store' destination' : ℕ) (check' : ℕ → Option ℕ) (normalize' : ℕ → ℕ)
    → submit_refund id' store' check' normalize' refund_id destination' w' ≡ none
unfolding submit_refund
submitted_once id store k d check normalize w w' keyed h id' store' d' check' normalize' =
    let s = submit_refund-Submission id store k d check normalize w w' h in
    let r' = submitted id normalize d s.refund in
    let now : lookup k w'.refunds ≡ some r' =
      rw (s.written)
        (ground (arith, lookup-insert s.refund.id k r' w.refunds, keyed s.refund s.found)) in
    rw now refl

refund_of-insert :
    (payout k : ℕ) (r : RefundRow) (d : Dict RefundRow)
    → refund_of payout d ≡ none
    → r.payout_id ≡ some payout
    → refund_of payout (insert k r d) ≡ some r
unfolding refund_of insert
refund_of-insert payout k r [] e p = ground (arith, p)
refund_of-insert payout k r ((j, q) ∷ d) e p = elim (Bool-cases (j == k)) [
  | inl b ↦ rw (b, p) (ground arith)
  | inr b ↦ rw b (ground (arith, e, refund_of-insert payout k r d))
]

unsettled : is_settled pending sent ≡ false
unfolding is_settled
unsettled = refl

-- A refund comes back to its invoice: the submission of a refund that no payout serves yet adds a
-- pending payout of its amount to the given address, and when that payout is
-- marked as sent, the invoice of the refund gets the status `refunded`.
pub refund_round_trip :
    (id store refund_id destination now h : ℕ) (check_address : ℕ → Option ℕ) (normalize : ℕ → ℕ)
    (w w' : World)
    → submit_refund id store check_address normalize refund_id destination w ≡ some w'
    → refund_of id w.refunds ≡ none
    → (r : RefundRow) × (p : PayoutRow) × (s' : State) × (lookup refund_id w.refunds ≡ some r)
      × (lookup id w'.payouts ≡ some p)
      × (p.status ≡ pending)
      × (p.amount ≡ exactly r.amount)
      × (check_address destination ≡ some p.destination)
      × (lookup r.invoice_id (mark_payout_sent now p h w').invoices ≡ some s')
      × (s'.invoice.status ≡ refunded)
refund_round_trip id store k d now h check normalize w w' e n =
    let s = submit_refund-Submission id store k d check normalize w w' e in
    let r = s.refund in
    let r' = submitted id normalize d r in
    let p = payout_for id store s.address r in
    let serves : refund_of id w'.refunds ≡ some r' =
      rw (s.written) (refund_of-insert id r.id r' w.refunds n refl) in
    let invoice : lookup r.invoice_id w'.invoices ≡ some s.invoice =
      rw (s.written) (s.of_invoice) in
    let row : lookup id w'.payouts ≡ some p =
      rw (s.written) (ground (arith, lookup-insert id id p w.payouts)) in
    let (s', l, f) = refunds_invoice now h p r' s.invoice w' unsettled serves invoice in
    (r, p, s', s.found, row, refl, refl, s.checked, l, f)
