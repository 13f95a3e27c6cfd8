-- ===== src/Invoice/Batch/Again.antt =====
-- An invoice that is marked as invalid and then as complete.
use bitcart.Base.{
  ℕ, ◌+◌, ◌≡◌, refl, true, none, some, List, [], ◌∷◌, ◌++◌, map, ◌∙◌, ap, arith, ◌==◌,
  if◌then◌else◌,
}
use bitcart.Base.Dict.{lookup, insert, lookup-insert}
use bitcart.Stock.{update_stock_levels}
use bitcart.Invoice.{PaymentMethod, invalid}
use bitcart.Invoice.Update.{Message, State, Call, update_status, may_change}
use bitcart.Invoice.Update.Messages.{completions, completions-append, completions-update_status}
use bitcart.Invoice.Update.Status.{status-update_status, products-update_status}
use bitcart.Invoice.Batch.{
  Row, Shop, view, update_row, Options, for_all, done, picked, choose_method, completing, get,
  mark_one, mark_all, process_mark_complete, mark_invalid, and_then,
}

-- The messages that were sent for an invoice.
pub told : ℕ → List (ℕ × Message) → List Message
told id [] = []
told id ((j, m) ∷ ms) = let rest = told id ms in if j == id then m ∷ rest else rest

told-append : (id : ℕ) (xs ys : List (ℕ × Message)) → told id (xs ++ ys) ≡ told id xs ++ told id ys
unfolding told
told-append id [] ys = refl
told-append id ((j, m) ∷ xs) ys = ground (arith, told-append id xs ys)

told-map : (id : ℕ) (ms : List Message) → told id (map (λ (m : Message). (id, m)) ms) ≡ ms
unfolding told
told-map id [] = refl
told-map id (m ∷ ms) = ground (arith, told-map id ms)

-- The options that are taken when none are given.
abbrev pub defaults : Options
defaults = record { payment_method_id = none; sent_amount = none; tx_hashes = none }

-- A row with the status that `mark_invalid` writes.
abbrev invalidated : Row → Row
invalidated r = record r { invoice = record (r.invoice) { status = invalid } }

mark_one-picked :
    (now user id : ℕ) (o : Options) (shop : Shop) (r : Row) (m : PaymentMethod)
    → get id user shop ≡ some r
    → choose_method o r.invoice ≡ picked m
    → mark_one now user (id, o) shop ≡ (done, update_row now (completing o m) id r shop)
unfolding mark_one
mark_one-picked now user id o shop r m found method = rw (found, mark_one) (rw method refl)

module _ (now user id : ℕ) (r : Row) (m : PaymentMethod) (ms : List PaymentMethod) (shop : Shop)
    (found : lookup id shop.rows ≡ some r) (owned : r.user_id ≡ user)
    (offers : r.invoice.payments ≡ m ∷ ms) where
  get-found : get id user shop ≡ some r
  unfolding get
  get-found = ground (arith, found, owned)

  mark_invalid_lem :
      mark_invalid user (id ∷ []) shop ≡ record shop { rows = insert id (invalidated r) shop.rows }
  unfolding mark_invalid
  mark_invalid_lem = rw (get-found, mark_invalid) refl

  abbrev after_invalid : Shop
  after_invalid = record shop { rows = insert id (invalidated r) shop.rows }

  abbrev completion : Call
  completion = completing defaults m

  get-after_invalid : get id user after_invalid ≡ some (invalidated r)
  unfolding get
  get-after_invalid = ground (arith, lookup-insert id id (invalidated r) shop.rows, owned)

  choose-after_invalid : choose_method defaults (invalidated r).invoice ≡ picked m
  unfolding choose_method
  choose-after_invalid = rw (offers, choose_method) refl

  process_mark_complete-after_invalid :
      process_mark_complete now user (id ∷ []) (for_all defaults) after_invalid
      ≡ (done, update_row now completion id (invalidated r) after_invalid)
  unfolding process_mark_complete mark_all
  process_mark_complete-after_invalid =
      ap (λ t. and_then t (λ s. (done, s)))
        (mark_one-picked now user id defaults after_invalid (invalidated r) m get-after_invalid
          choose-after_invalid)

  -- The state that the second action works on.
  abbrev before : State
  before = view (invalidated r) after_invalid

  changes : (update_status now completion before).0 ≡ true
  unfolding may_change
  changes = (status-update_status now completion before).0

  takes_stock :
      (update_status now completion before).1.products
      ≡ update_stock_levels r.invoice.products shop.products
  takes_stock = ground (arith, products-update_status now completion before, changes)

  announces : completions (update_status now completion before).1.sent ≡ 1
  unfolding completions
  announces = ground (arith, completions-update_status now completion before, changes)

  -- An invoice of the user that offers a payment method is marked as invalid, which sends nothing, and
  -- then as complete. Whatever it was before, also if it was complete: the second action ends well,
  -- takes the invoice's order from the stock, and announces the invoice as complete.
  pub completes_again :
      let shop' = mark_invalid user (id ∷ []) shop in
      let (ending, shop'') = process_mark_complete now user (id ∷ []) (for_all defaults) shop' in
      (shop'.sent ≡ shop.sent)
      × (ending ≡ done)
      × (shop''.products ≡ update_stock_levels r.invoice.products shop.products)
      × (completions (told id shop''.sent) ≡ completions (told id shop.sent) + 1)
  unfolding update_row
  completes_again = rw (mark_invalid_lem) (
      rw (process_mark_complete-after_invalid) (
        refl,
        refl,
        takes_stock,
        ap completions (told-append id shop.sent _)
            ∙ (completions-append (told id shop.sent) _
                ∙ omega (
                  arith,
                  announces,
                  ap completions (told-map id (update_status now completion before).1.sent),
                )),
      ))
