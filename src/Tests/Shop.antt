-- ===== src/Tests/Shop.antt =====
-- An invoice over two methods, its order and the stock, for the tests of the invoice's life.
use bitcart.Base.{true, false, none, some, List, [], ◌∷◌}
use bitcart.Base.Int.{pos, negsuc}
use bitcart.Stock.{Product, Order}
use bitcart.Invoice.{pending, complete, nominal, PaymentMethod, Invoice, InvoiceStatus}
use bitcart.Invoice.Update.{State, Call, Payment}

abbrev pub shelf : List Product
shelf =
    record { id = 7; quantity = pos 5 }
    ∷ record { id = 8; quantity = negsuc 0 }
    ∷ record { id = 9; quantity = pos 1 }
    ∷ []

abbrev pub cart : Order
cart = (7, 3) ∷ (8, 2) ∷ []

abbrev pub bitcoin : PaymentMethod
bitcoin = record {
  id = 21;
  name = 100;
  amount = 5000;
  discount = none;
  lightning = false;
  confirmations = 0;
  is_used = false;
}

abbrev pub litecoin : PaymentMethod
litecoin = record {
  id = 22;
  name = 101;
  amount = 90000;
  discount = some 4;
  lightning = false;
  confirmations = 0;
  is_used = false;
}

abbrev bitcoin_used : PaymentMethod
bitcoin_used = record bitcoin { is_used = true }

abbrev fresh : Invoice
fresh = record {
  id = 1;
  status = pending;
  exception_status = nominal;
  sent_amount = 0;
  paid_currency = none;
  discount = none;
  tx_hashes = [];
  paid_date = none;
  payments = bitcoin ∷ litecoin ∷ [];
  products = cart;
  payment_id = none;
}

abbrev pub opened : State
opened = record { invoice = fresh; products = shelf; email_enabled = true; sent = [] }

abbrev pub half_paid : State
half_paid = record opened {
  invoice = record fresh {
    payments = bitcoin_used ∷ litecoin ∷ [];
    sent_amount = 2000;
    payment_id = some 21;
  };
}

abbrev pub done : State
done = record opened { invoice = record fresh { status = complete } }

abbrev pub pay_bitcoin : InvoiceStatus → Call
pay_bitcoin status = record {
  status = status;
  method = some bitcoin;
  tx_hashes = 77 ∷ [];
  sent_amount = 5000;
  set_exception_status = none;
}

abbrev pub pay_litecoin : InvoiceStatus → Call
pay_litecoin status = record (pay_bitcoin status) { method = some litecoin }

abbrev pub payment_of_bitcoin : Payment
payment_of_bitcoin = record {
  method = bitcoin;
  wallet_speed = none;
  store_speed = 2;
  tx_hashes = 77 ∷ [];
  sent_amount = 5000;
}
