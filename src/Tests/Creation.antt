-- ===== src/Tests/Creation.antt =====
-- An invoice created from a draft, and its discount.
use bitcart.Base.{ℕ, ◌≡◌, refl, Bool, false, Option, none, some, List, [], ◌∷◌}
use bitcart.Base.Int.{pos, ◌-ℤ◌}
use bitcart.Invoice.{PaymentMethod}
use bitcart.Invoice.Create.{
  Discount, applies, match_discount, WalletRow, StoreRow, Draft, refused, anonymous,
  create_invoice_flow, greatest,
}
use bitcart.Tests.Shop.{shelf, cart, bitcoin}

abbrev shop : StoreRow
shop = record {
  allow_anonymous_invoice_creation = false;
  randomize_wallet_selection = false;
  wallets = 1 ∷ 2 ∷ [];
}

abbrev draft : Draft
draft = record { products = cart; payment_methods = none }

-- Every wallet offers bitcoin; no second method by lightning.
abbrev core : WalletRow → Bool → Option (Option PaymentMethod)
core w lightning = some (some bitcoin)

abbrev wallets_of : List ℕ → List WalletRow
wallets_of [] = []
wallets_of (i ∷ ids) = record { currency = i; lightning = false } ∷ wallets_of ids

abbrev symbol_of : WalletRow → Option ℕ
symbol_of w = some w.currency

abbrev choice : List WalletRow → WalletRow
choice [] = record { currency = 0; lightning = false }
choice (w ∷ ws) = w

strangers_are_refused :
    create_invoice_flow 4 false shop draft shelf wallets_of symbol_of choice core
    ≡ refused anonymous
unfolding create_invoice_flow
strangers_are_refused = refl

abbrev sale : ℕ → ℕ → Option ℕ → Discount
sale i p code = record { id = i; percent = p; promocode = code; currencies = []; end_date = 90 }

abbrev sales : List Discount
sales = sale 1 10 none ∷ sale 2 30 (some 7) ∷ sale 3 20 none ∷ []

without_the_code : match_discount 100 none sales ≡ (pos 100 -ℤ pos 20, some 3)
unfolding match_discount applies greatest
without_the_code = refl
