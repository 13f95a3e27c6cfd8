-- ===== src/Invoice/Batch.antt =====
-- The actions on several invoices at once: `process_mark_complete` and `process_batch_action` of
-- api/services/crud/invoices.py. Each call of `update_status` is committed on its own, so what a batch
-- has done stays when it ends with an error.
pub mod Order
pub mod Again
use bitcart.Base.{
  ℕ, Bool, true, false, Option, none, some, List, [], ◌∷◌, ◌++◌, map, ◌==◌, if◌then◌else◌, or_else,
  length,
}
use bitcart.Base.Dict.{Dict, lookup, insert}
use bitcart.Stock.{Product}
use bitcart.Invoice.{InvoiceStatus, invalid, complete, PaymentMethod, Invoice}
use bitcart.Invoice.Update.{State, Message, Call, update_status}

-- The row of an invoice with its owner and whether its store has an e-mail.
pub record Row : Type 0 where
  pub invoice : Invoice
  pub user_id : ℕ
  pub email_enabled : Bool

-- The invoices share the products; a message is sent for the invoice with the given id.
pub record Shop : Type 0 where
  pub rows : Dict Row
  pub products : List Product
  pub sent : List (ℕ × Message)

-- The part of the shop that `update_status` of one invoice reads and writes.
abbrev pub view : Row → Shop → State
view r shop = record {
  invoice = r.invoice;
  products = shop.products;
  email_enabled = r.email_enabled;
  sent = [];
}

unfoldable pub update_row : ℕ → Call → ℕ → Row → Shop → Shop
update_row now c id r shop =
    let s = (update_status now c (view r shop)).1 in
    record {
      rows = insert id (record r { invoice = s.invoice }) shop.rows;
      products = s.products;
      sent = shop.sent ++ map (λ (m : Message). (id, m)) s.sent;
    }

-- `MarkCompleteOptions`
pub record Options : Type 0 where
  pub payment_method_id : Option ℕ
  pub sent_amount : Option ℕ
  pub tx_hashes : Option (List ℕ)

-- `settings.options`: one for all invoices, or a list.
pub data OptionsData : Type 0 where
  for_all : Options → OptionsData
  one_each : List Options → OptionsData

-- How a batch ends: 422 for the options, 404 for an invoice, 422 for a payment method.
pub data Ending : Type 0 where
  done wrong_options : Ending
  no_invoice no_method : ℕ → Ending

-- `match_payment`
unfoldable pub match_payment : ℕ → List PaymentMethod → Option PaymentMethod
match_payment id [] = none
match_payment id (p ∷ ps) = let rest = match_payment id ps in if p.id == id then some p else rest

abbrev first_payment : List PaymentMethod → Option PaymentMethod
first_payment [] = none
first_payment (p ∷ ps) = some p

-- The method of the options: it has to be there if they name it.
pub data Chosen : Type 0 where
  missing skipped : Chosen
  picked : PaymentMethod → Chosen

unfoldable pub choose_method : Options → Invoice → Chosen
unfolding match_payment
choose_method o i = elim o.payment_method_id [
  | some id ↦ elim (match_payment id i.payments) [ none ↦ missing | some m ↦ picked m ]
  | none ↦ elim (first_payment i.payments) [ none ↦ skipped | some m ↦ picked m ]
]

abbrev pub completing : Options → PaymentMethod → Call
completing o m = record {
  status = complete;
  method = some m;
  tx_hashes = or_else o.tx_hashes [];
  sent_amount = or_else o.sent_amount m.amount;
  set_exception_status = none;
}

-- `self.get(invoice_id, user)`
unfoldable pub get : ℕ → ℕ → Shop → Option Row
get id user shop = elim (lookup id shop.rows) [
  | none ↦ none
  | some r ↦ if r.user_id == user then some r else none
]

-- The body of the loop.
unfoldable pub mark_one : ℕ → ℕ → ℕ × Options → Shop → Ending × Shop
mark_one now user (id, o) shop = elim (get id user shop) [
  | none ↦ (no_invoice id, shop)
  | some r ↦ elim (choose_method o r.invoice) [
    | missing ↦ (no_method id, shop)
    | skipped ↦ (done, shop)
    | picked m ↦ (done, update_row now (completing o m) id r shop)
  ]
]

-- What follows a step, if that ends well.
abbrev pub and_then : Ending × Shop → (Shop → Ending × Shop) → Ending × Shop
and_then (done, shop) f = f shop
and_then (ending, shop) f = (ending, shop)

unfoldable pub mark_all : ℕ → ℕ → List (ℕ × Options) → Shop → Ending × Shop
mark_all now user [] shop = (done, shop)
mark_all now user (x ∷ xs) shop =
    and_then (mark_one now user x shop) (λ shop'. mark_all now user xs shop')

unfoldable pub zip : List ℕ → List Options → List (ℕ × Options)
zip [] os = []
zip (i ∷ is) [] = []
zip (i ∷ is) (o ∷ os) = (i, o) ∷ zip is os

unfoldable pub process_mark_complete : ℕ → ℕ → List ℕ → OptionsData → Shop → Ending × Shop
unfolding mark_all zip
process_mark_complete now user ids (for_all o) shop =
    mark_all now user (map (λ (i : ℕ). (i, o)) ids) shop
process_mark_complete now user ids (one_each os) shop =
    if length os == length ids then mark_all now user (zip ids os) shop else (wrong_options, shop)

-- The action `mark_invalid`: an update of the user's rows with these ids, and of nothing else.
unfoldable pub mark_invalid : ℕ → List ℕ → Shop → Shop
unfolding get
mark_invalid user [] shop = shop
mark_invalid user (id ∷ ids) shop = mark_invalid user ids (elim (get id user shop) [
  | none ↦ shop
  | some r ↦ record shop {
    rows = insert id (record r { invoice = record (r.invoice) { status = invalid } }) shop.rows;
  }
])
