-- ===== src/Tests/Batches.antt =====
-- Actions on several invoices.
use bitcart.Base.{◌+◌, ◌≡◌, refl, [], ◌∷◌, true}
use bitcart.Base.Dict.{lookup, insert}
use bitcart.Stock.{update_stock_levels}
use bitcart.Invoice.Update.Messages.{completions}
use bitcart.Invoice.Batch.{
  Row, Shop, done, no_invoice, for_all, mark_all, mark_invalid, process_mark_complete, get,
  mark_one, choose_method, update_row,
}
use bitcart.Invoice.Batch.Order.{error_of, mark_all-error}
use bitcart.Invoice.Batch.Again.{told, defaults, completes_again}
use bitcart.Tests.Shop.{done as completed, shelf, cart, bitcoin, litecoin}

abbrev row : Row
row = record { invoice = completed.invoice; user_id = 3; email_enabled = true }

abbrev shop : Shop
shop = record { rows = (1, row) ∷ []; products = shelf; sent = [] }

completes_again_example :
    let shop' = mark_invalid 3 (1 ∷ []) shop in
    let (ending, shop'') = process_mark_complete 50 3 (1 ∷ []) (for_all defaults) shop' in
    (shop'.sent ≡ [])
    × (ending ≡ done)
    × (shop''.products ≡ update_stock_levels cart shelf)
    × (completions (told 1 shop''.sent) ≡ completions (told 1 []) + 1)
unfolding lookup
completes_again_example = completes_again 50 3 1 row bitcoin (litecoin ∷ []) shop refl refl refl

-- The second invoice of the batch does not exist.
abbrev after_first : Shop
after_first = (mark_all 50 3 ((1, defaults) ∷ []) shop).1

mark_all-error_example :
    mark_all 50 3 ((1, defaults) ∷ (2, defaults) ∷ (1, defaults) ∷ []) shop
    ≡ (no_invoice 2, after_first)
unfolding lookup insert error_of mark_all mark_one get choose_method update_row
mark_all-error_example =
    mark_all-error 50 3 ((1, defaults) ∷ []) ((1, defaults) ∷ []) (2, defaults) (no_invoice 2) shop
      after_first refl refl
