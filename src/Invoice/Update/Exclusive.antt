-- ===== src/Invoice/Update/Exclusive.antt =====
-- Which payment methods of an invoice are used.
use bitcart.Base.{
  ℕ, ◌≡◌, true, Option, none, some, List, [], ◌∷◌, arith, Bool-cases, Option-cases, inl, inr,
  or_else, All,
}
use bitcart.Invoice.{PaymentMethod, Invoice}
use bitcart.Invoice.Update.{
  State, used_payment, load_one, put_payment, merge, partial_payment, full_payment, enter_status,
  process_notifications, is_free, may_change, Call, prepare, change, update_status,
}
use bitcart.Invoice.Update.Status.{update_status_lem}

-- Every used method of the list is the one of id `k`.
abbrev UsedOnly : ℕ → List PaymentMethod → Type 0
UsedOnly k ps = All (λ p. p.is_used ≡ true → p.id ≡ k) ps

UsedOnly-put_payment :
    (k : ℕ) (m : PaymentMethod) (ps : List PaymentMethod)
    → (m.is_used ≡ true → m.id ≡ k)
    → UsedOnly k ps
    → UsedOnly k (put_payment m ps)
unfolding put_payment
UsedOnly-put_payment k m [] hm h = tt
UsedOnly-put_payment k m (p ∷ ps) hm h = ground (arith, UsedOnly-put_payment k m ps hm h.1)

UsedOnly-unused : (k : ℕ) (ps : List PaymentMethod) → used_payment ps ≡ none → UsedOnly k ps
UsedOnly-unused k [] h = tt
UsedOnly-unused k (p ∷ ps) h = ground (arith, UsedOnly-unused k ps)

used_payment_of_UsedOnly :
    (k j : ℕ) (ps : List PaymentMethod) → UsedOnly k ps → used_payment ps ≡ some j → j ≡ k
used_payment_of_UsedOnly k j [] h e = cc
used_payment_of_UsedOnly k j (p ∷ ps) h e = ground (arith, used_payment_of_UsedOnly k j ps h.1)

-- At most one payment method of the list is used.
abbrev pub IsExclusive : List PaymentMethod → Type 0
IsExclusive ps = (k : ℕ) × UsedOnly k ps

-- The used method, or `d` if there is none.
abbrev bound_id : ℕ → List PaymentMethod → ℕ
bound_id d ps = or_else (used_payment ps) d

UsedOnly-bound_id : (d : ℕ) (ps : List PaymentMethod) → IsExclusive ps → UsedOnly (bound_id d ps) ps
UsedOnly-bound_id d ps (k, h) = elim (Option-cases (used_payment ps)) [
  | inl e ↦ UsedOnly-unused _ ps e
  | inr (j, e) ↦ rw (e, used_payment_of_UsedOnly k j ps h e) h
]

-- A method that is handed to a call is a row of the invoice, so it is marked as used only if it is
-- the one that the invoice is bound to.
abbrev IsRow : Option PaymentMethod → List PaymentMethod → Type 0
IsRow none ps = Unit
IsRow (some m) ps = m.is_used ≡ true → used_payment ps ≡ some m.id

module _ (now k : ℕ) (c : Call) (m : PaymentMethod) where
  UsedOnly-partial_payment :
      (t : State)
      → (is_free t.invoice.payment_id m.id ≡ true → m.id ≡ k)
      → UsedOnly k t.invoice.payments
      → UsedOnly k
          (partial_payment now c.status (some m) c.tx_hashes c.sent_amount t).invoice.payments
  unfolding partial_payment
  UsedOnly-partial_payment t free h =
      ground (arith, UsedOnly-put_payment k (record m { is_used = true }) t.invoice.payments)

  UsedOnly-full_payment :
      (i : Invoice)
      → (is_free i.payment_id m.id ≡ true → m.id ≡ k)
      → UsedOnly k i.payments
      → UsedOnly k (full_payment now c.status (some m) c.tx_hashes c.sent_amount i).payments
  unfolding full_payment
  UsedOnly-full_payment i free h =
      ground (arith, UsedOnly-put_payment k (record m { is_used = true }) i.payments)

module _ (now : ℕ) (c : Call) (s : State) where
  payments-no_method_prepared :
      c.method ≡ none → (prepare now c s).invoice.payments ≡ s.invoice.payments
  unfolding prepare merge partial_payment load_one
  payments-no_method_prepared e = ground arith

  payments-no_method_changed :
      c.method ≡ none → (change now c s).invoice.payments ≡ s.invoice.payments
  unfolding change enter_status process_notifications full_payment
  payments-no_method_changed e = ground arith

  module _ (k : ℕ) (m : PaymentMethod) (e : c.method ≡ some m) where
    is_free-prepare :
        is_free (prepare now c s).invoice.payment_id m.id
        ≡ is_free (used_payment s.invoice.payments) m.id
    unfolding prepare merge partial_payment load_one
    is_free-prepare = ground arith

    UsedOnly-prepare :
        (is_free (used_payment s.invoice.payments) m.id ≡ true → m.id ≡ k)
        → (m.is_used ≡ true → m.id ≡ k)
        → UsedOnly k s.invoice.payments
        → UsedOnly k (prepare now c s).invoice.payments
    unfolding prepare merge load_one
    UsedOnly-prepare free row h = rw e (
        UsedOnly-partial_payment now k c m (merge (some m) s) free
          (UsedOnly-put_payment k m s.invoice.payments row h))

    UsedOnly-change :
        (is_free s.invoice.payment_id m.id ≡ true → m.id ≡ k)
        → UsedOnly k s.invoice.payments
        → UsedOnly k (change now c s).invoice.payments
    unfolding change enter_status process_notifications
    UsedOnly-change free h = rw e (UsedOnly-full_payment now k c m s.invoice free h)

bound_of_free :
    (m : PaymentMethod) (ps : List PaymentMethod)
    → is_free (used_payment ps) m.id ≡ true
    → m.id ≡ bound_id m.id ps
bound_of_free m ps h = ground arith

bound_of_row :
    (m : PaymentMethod) (ps : List PaymentMethod)
    → (m.is_used ≡ true → used_payment ps ≡ some m.id)
    → m.is_used ≡ true
    → m.id ≡ bound_id m.id ps
bound_of_row m ps row u = rw (row u)

-- If at most one method of the invoice is used, and a method handed to the call is a row of the
-- invoice, then at most one is used after the call.
update_status-IsExclusive :
    (now : ℕ) (c : Call) (s : State)
    → IsRow c.method s.invoice.payments
    → IsExclusive s.invoice.payments
    → IsExclusive (update_status now c s).1.invoice.payments
update_status-IsExclusive now c s row h = elim (Option-cases c.method) [
  | inl e ↦ elim (Bool-cases (may_change s.invoice.status c.status)) [
    | inl b ↦
        rw
          (
            update_status_lem,
            b,
            payments-no_method_changed now c (prepare now c s) e,
            payments-no_method_prepared now c s e,
          )
          h
    | inr b ↦ rw (update_status_lem, b, payments-no_method_prepared now c s e) h
  ]
  | inr (m, e) ↦
      let ps = s.invoice.payments in
      let k : ℕ = bound_id m.id ps in
      let row' : m.is_used ≡ true → used_payment ps ≡ some m.id = rw e at row in
      let h' : UsedOnly k (prepare now c s).invoice.payments =
        UsedOnly-prepare now c s k m e (bound_of_free m ps) (bound_of_row m ps row')
          (UsedOnly-bound_id m.id ps h) in
      let free : is_free (prepare now c s).invoice.payment_id m.id ≡ true → m.id ≡ k =
        rw (is_free-prepare now c s k m e) (bound_of_free m ps) in
      elim (Bool-cases (may_change s.invoice.status c.status)) [
        | inl b ↦
            rw (update_status_lem, b) (k, UsedOnly-change now c (prepare now c s) k m e free h')
        | inr b ↦ rw (update_status_lem, b) (k, h')
      ]
]
