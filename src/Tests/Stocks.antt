-- ===== src/Tests/Stocks.antt =====
-- The stock at concrete orders.
use bitcart.Base.{◌≡◌, refl, none, some, [], ◌∷◌}
use bitcart.Base.Int.{pos, ◌-ℤ◌, ◌≤ℤ◌}
use bitcart.Stock.{ordered, validate_stock_levels, update_stock_levels, stock}
use bitcart.Stock.Laws.{sold_exactly}
use bitcart.Tests.Shop.{shelf, cart}

cart_passes : validate_stock_levels cart shelf ≡ none
unfolding validate_stock_levels ordered ◌-ℤ◌
cart_passes = refl

cart_fails : validate_stock_levels ((9, 2) ∷ []) shelf ≡ some 9
unfolding validate_stock_levels ordered ◌-ℤ◌
cart_fails = refl

sold_exactly_example :
    (stock 7 (update_stock_levels cart shelf) ≡ some (pos 5 -ℤ pos 3)) × (pos 0 ≤ℤ pos 5 -ℤ pos 3)
unfolding validate_stock_levels ordered stock
sold_exactly_example = sold_exactly 7 3 (pos 5) cart shelf cart_passes refl refl
