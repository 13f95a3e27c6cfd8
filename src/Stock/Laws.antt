-- ===== src/Stock/Laws.antt =====
-- What the validation and the sale of an order say of the stock.
use mathlib.Core.Option
use bitcart.Base.{
  ℕ, ◌<◌, ◌+◌, ◌≡◌, ◌≢◌, refl, false, Option, none, some, List, [], ◌∷◌, arith, ◌↔◌, All,
  if◌then◌else◌,
}
use bitcart.Base.Int.{ℤ, pos, ◌-ℤ◌, ◌≤ℤ◌, eqb_ℤ}
use bitcart.Stock.{
  Product, Order, ordered, unlimited, is_short, short_of, validate_stock_levels, reduce,
  update_stock_levels, stock,
}

-- Every product of the table is reduced by what is ordered of it, and no other changes.
pub stock-update_stock_levels :
    (k : ℕ) (o : Order) (ps : List Product)
    → stock k (update_stock_levels o ps) ≡ Option.map (λ q. reduce q (ordered k o)) (stock k ps)
unfolding stock update_stock_levels
stock-update_stock_levels k o [] = refl
stock-update_stock_levels k o (p ∷ ps) = ground (arith, stock-update_stock_levels k o ps)

-- A stock is a count, or the mark of an unlimited one.
abbrev IsStock : ℤ → Type 0
IsStock q = unlimited ≤ℤ q

-- A sale leaves a stock, an unlimited one unlimited and a limited one limited.
reduce-IsStock :
    (q : ℤ) (o : Option ℕ)
    → IsStock q
    → IsStock (reduce q o) × (eqb_ℤ (reduce q o) unlimited ≡ eqb_ℤ q unlimited)
unfolding reduce ◌-ℤ◌
reduce-IsStock q none h = ground arith
reduce-IsStock q (some n) h = ground arith

-- What a sale takes from a stock that is neither unlimited nor short.
reduce_exact :
    (q : ℤ) (n : ℕ)
    → q ≢ unlimited
    → is_short q n ≡ false
    → (reduce q (some n) ≡ q -ℤ pos n) × (pos 0 ≤ℤ reduce q (some n))
unfolding reduce ◌-ℤ◌
reduce_exact q n h s = ground arith

not_short_of_valid :
    (k n : ℕ) (q : ℤ) (o : Order) (ps : List Product)
    → validate_stock_levels o ps ≡ none
    → ordered k o ≡ some n
    → stock k ps ≡ some q
    → is_short q n ≡ false
unfolding validate_stock_levels stock
not_short_of_valid k n q o [] v e s = cc
not_short_of_valid k n q o (p ∷ ps) v e s = ground (arith, not_short_of_valid k n q o ps)

-- If the stock from which an order is taken is one on which the order passes the validation, then of
-- each ordered product with a limited stock exactly the ordered count is taken and what is left is not
-- negative, and an unlimited stock stays.
pub sold_exactly :
    (k n : ℕ) (q : ℤ) (o : Order) (ps : List Product)
    → validate_stock_levels o ps ≡ none
    → ordered k o ≡ some n
    → stock k ps ≡ some q
    → (stock k (update_stock_levels o ps) ≡ some (if eqb_ℤ q unlimited then q else q -ℤ pos n))
      × (pos 0 ≤ℤ (if eqb_ℤ q unlimited then pos 0 else q -ℤ pos n))
unfolding reduce ◌-ℤ◌
sold_exactly k n q o ps v e s =
    ground (arith, not_short_of_valid k n q o ps v e s, stock-update_stock_levels k o ps)

-- An order passes exactly when no product of the table is ordered beyond its stock.
pub validate_stock_levels_iff :
    (o : Order) (ps : List Product)
    → (validate_stock_levels o ps ≡ none) ↔ All (λ p. short_of p (ordered p.id o) ≡ false) ps
unfolding validate_stock_levels
validate_stock_levels_iff o [] = (λ h. tt, λ h. refl)
validate_stock_levels_iff o (p ∷ ps) = ground (arith, validate_stock_levels_iff o ps)

-- If two orders pass on the same stock and together ask for more than it holds, then after both
-- sales the stock shows 0: the update does not refuse the second one.
pub oversold :
    (k n m : ℕ) (q : ℕ) (o o' : Order) (ps : List Product)
    → validate_stock_levels o ps ≡ none
    → validate_stock_levels o' ps ≡ none
    → ordered k o ≡ some n
    → ordered k o' ≡ some m
    → stock k ps ≡ some (pos q)
    → q < n + m
    → stock k (update_stock_levels o' (update_stock_levels o ps)) ≡ some (pos 0)
unfolding reduce ◌-ℤ◌
oversold k n m q o o' ps v v' e e' s h = ground (
  arith,
  stock-update_stock_levels k o ps,
  stock-update_stock_levels k o' (update_stock_levels o ps),
  not_short_of_valid k n (pos q) o ps v e s,
)
