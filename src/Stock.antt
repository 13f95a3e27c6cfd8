-- ===== src/Stock.antt =====
-- The stock of the store's products: `validate_stock_levels` of api/services/crud/invoices.py and
-- `update_stock_levels` of api/services/crud/products.py. A quantity of -1 is unlimited.
pub mod Laws
use bitcart.Base.{
  ℕ, Bool, true, false, Option, none, some, List, [], ◌∷◌, map, ◌==◌, ◌&&◌, not, if◌then◌else◌,
}
use bitcart.Base.Int.{ℤ, pos, negsuc, ◌-ℤ◌, ltb_ℤ, eqb_ℤ, max_ℤ}

pub record Product : Type 0 where
  pub id : ℕ
  pub quantity : ℤ

-- The items of an order, (product's id, count): a dict, and in the database a table whose primary
-- key holds the product's id.
abbrev pub Order : Type 0
Order = List (ℕ × ℕ)

unfoldable pub ordered : ℕ → Order → Option ℕ
ordered k [] = none
ordered k ((j, n) ∷ o) = let rest = ordered k o in if j == k then some n else rest

abbrev pub unlimited : ℤ
unlimited = negsuc 0

-- `quantity != -1 and quantity < products[product_id]`
abbrev pub is_short : ℤ → ℕ → Bool
is_short q n = not (eqb_ℤ q unlimited) && ltb_ℤ q (pos n)

pub short_of : Product → Option ℕ → Bool
short_of p none = false
short_of p (some n) = is_short p.quantity n

-- The loop over the ordered products. `some k` is the 422 error that names the product `k`.
unfoldable pub validate_stock_levels : Order → List Product → Option ℕ
unfolding short_of
validate_stock_levels o [] = none
validate_stock_levels o (p ∷ ps) =
    let rest = validate_stock_levels o ps in if short_of p (ordered p.id o) then some p.id else rest

-- The body of the loop of `update_stock_levels`.
pub reduce : ℤ → Option ℕ → ℤ
reduce q none = q
reduce q (some n) = if eqb_ℤ q unlimited then q else max_ℤ (pos 0) (q -ℤ pos n)

sell : Order → Product → Product
unfolding reduce
sell o p = record p { quantity = reduce p.quantity (ordered p.id o) }

pub update_stock_levels : Order → List Product → List Product
unfolding sell
update_stock_levels o = map (sell o)

-- The quantity that the table holds of a product.
unfoldable pub stock : ℕ → List Product → Option ℤ
stock k [] = none
stock k (p ∷ ps) = let rest = stock k ps in if p.id == k then some p.quantity else rest
