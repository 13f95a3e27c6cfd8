-- ===== src/Tests/Invoices.antt =====
-- `update_status` at concrete invoices.
use bitcart.Base.{◌≡◌, refl, arith}
use bitcart.Invoice.{complete}
use bitcart.Invoice.Update.{load_one, update_status}
use bitcart.Invoice.Update.Binding.{receipt, bound_to_first}
use bitcart.Tests.Shop.{half_paid, litecoin, pay_litecoin}

bound_to_first_example :
    receipt (update_status 50 (pay_litecoin complete) half_paid).1.invoice
    ≡ receipt (load_one half_paid.invoice)
bound_to_first_example =
    bound_to_first 50 21 (pay_litecoin complete) half_paid litecoin refl refl (omega arith)
