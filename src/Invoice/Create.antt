-- ===== src/Invoice/Create.antt =====
-- The creation of an invoice: `create_invoice_flow`, `update_invoice_payments`,
-- `create_payment_method`, `create_method_for_wallet`, `match_discount` and `get_methods_inds` of
-- api/services/crud/invoices.py. The payment method that `_create_payment_method` builds for a wallet
-- is an argument: nothing where it raises an exception, and no method where the coin or a plugin
-- skips it. The wallets are those of the ids that the database holds, in the order of the ids.
pub mod Laws
use bitcart.Base.{
  ℕ, Bool, true, false, Option, none, some, List, [], ◌∷◌, ◌++◌, not, ◌&&◌, ◌||◌, ◌==◌, leb, ltb,
  if◌then◌else◌, or_else, is_some, suc, holds, contains, filter, ◌>>=◌,
}
use bitcart.Base.Int.{ℤ, pos, ◌-ℤ◌}
use bitcart.Base.Dict.{Dict, lookup, insert}
use bitcart.Stock.{Product, Order, validate_stock_levels}
use bitcart.Invoice.{pending, nominal, PaymentMethod, Invoice}

-- `currencies` is empty where the column is empty.
pub record Discount : Type 0 where
  pub id : ℕ
  pub percent : ℕ
  pub promocode : Option ℕ
  pub currencies : List ℕ
  pub end_date : ℕ

-- `promocode == x.promocode or not x.promocode`
abbrev fits_promocode : Option ℕ → Option ℕ → Bool
fits_promocode given none = true
fits_promocode given (some c) = holds given c

has_some : List ℕ → Bool
has_some [] = false
has_some (x ∷ xs) = true

-- The filter of `match_discount`.
unfoldable pub applies : ℕ → Option ℕ → Discount → Bool
unfolding has_some
applies currency promocode d =
    (not (has_some d.currencies) || contains currency d.currencies)
    && fits_promocode promocode d.promocode

-- `max(..., key=attrgetter("percent"))`: the first of the greatest.
unfoldable pub greatest : List Discount → Option Discount
greatest [] = none
greatest (d ∷ ds) =
    let rest = greatest ds in
    elim rest [ none ↦ some d | some e ↦ if ltb d.percent e.percent then some e else some d ]

-- `match_discount`: the percentage of the price that is left, and the id of the discount.
unfoldable pub match_discount : ℕ → Option ℕ → List Discount → ℤ × Option ℕ
match_discount currency promocode discounts =
    elim (greatest (filter (applies currency promocode) discounts)) [
      | none ↦ (pos 100, none)
      | some d ↦ (pos 100 -ℤ pos d.percent, some d.id)
    ]

-- `if method is not None: results.append(method)`
abbrev as_list : Option PaymentMethod → List PaymentMethod
as_list none = []
as_list (some m) = m ∷ []

-- `create_payment_method`: `core` is `_create_payment_method` without and with lightning, and
-- `lightning` whether the coin and the wallet support it.
unfoldable pub create_payment_method :
    (Bool → Option (Option PaymentMethod)) → Bool → Option (List PaymentMethod)
create_payment_method core lightning = core false >>= λ onchain.
    if lightning
    then (core true >>= λ offchain. some (as_list onchain ++ as_list offchain))
    else some (as_list onchain)

-- What creation knows of a wallet.
pub record WalletRow : Type 0 where
  pub currency : ℕ
  pub lightning : Bool

-- The results of `create_method_for_wallet`, which catches every exception, in a row.
unfoldable pub create_methods :
    (WalletRow → Bool → Option (Option PaymentMethod)) → List WalletRow → List PaymentMethod
create_methods core [] = []
create_methods core (w ∷ ws) =
    or_else (create_payment_method (core w) w.lightning) [] ++ create_methods core ws

-- The rows of the methods: no confirmations, and the column `is_used` with its default.
unfoldable pub insert_rows : List PaymentMethod → List PaymentMethod
insert_rows [] = []
insert_rows (m ∷ ms) = record m { confirmations = 0; is_used = false } ∷ insert_rows ms

-- `symbols[symbol].append(wallet)`, in the order in which the symbols first appear.
add_symbol : ℕ → WalletRow → Dict (List WalletRow) → Dict (List WalletRow)
add_symbol s w [] = (s, w ∷ []) ∷ []
add_symbol s w ((t, ws) ∷ d) =
    let rest = add_symbol s w d in if t == s then (t, ws ++ w ∷ []) ∷ d else (t, ws) ∷ rest

-- The loop over the wallets, where a symbol that is not known is suppressed.
pub by_symbol :
    (WalletRow → Option ℕ) → List WalletRow → Dict (List WalletRow) → Dict (List WalletRow)
by_symbol symbol_of [] d = d
by_symbol symbol_of (w ∷ ws) d =
    by_symbol symbol_of ws (elim (symbol_of w) [ none ↦ d | some s ↦ add_symbol s w d ])

-- One wallet for each symbol, by `secrets.choice`.
pub chosen : (List WalletRow → WalletRow) → Dict (List WalletRow) → List WalletRow
chosen choice [] = []
chosen choice ((s, ws) ∷ d) = choice ws ∷ chosen choice d

-- `update_invoice_payments`: the rows of the payment methods.
unfoldable pub update_invoice_payments :
    Bool
    → (WalletRow → Option ℕ)
    → (List WalletRow → WalletRow)
    → (WalletRow → Bool → Option (Option PaymentMethod))
    → List WalletRow
    → List PaymentMethod
update_invoice_payments randomize_selection symbol_of choice core ws = insert_rows (
    create_methods core
      (if randomize_selection then chosen choice (by_symbol symbol_of ws []) else ws))

-- What creation reads of the store, and what the request holds.
pub record StoreRow : Type 0 where
  pub allow_anonymous_invoice_creation : Bool
  pub randomize_wallet_selection : Bool
  pub wallets : List ℕ

pub record Draft : Type 0 where
  pub products : Order
  pub payment_methods : Option (List ℕ)

-- 403, 422 without a wallet, and 422 for the product that is short.
pub data Refusal : Type 0 where
  anonymous no_wallet : Refusal
  out_of_stock : ℕ → Refusal

pub data Created : Type 0 where
  refused : Refusal → Created
  created : Invoice → Created

-- The row that `create_base` writes, with the methods that are added to it.
abbrev pub new_invoice : ℕ → Order → List PaymentMethod → Invoice
new_invoice id products payments = record {
  id = id;
  status = pending;
  exception_status = nominal;
  sent_amount = 0;
  paid_currency = none;
  discount = none;
  tx_hashes = [];
  paid_date = none;
  payments = payments;
  products = products;
  payment_id = none;
}

abbrev pub has_wallets : List ℕ → Bool
has_wallets [] = false
has_wallets (w ∷ ws) = true

-- `create_invoice_flow`: `wallets_of` are the wallets of a list of ids, `symbol_of` the symbol of a
-- wallet, if its coin answers, and `choice` the random choice.
unfoldable pub create_invoice_flow :
    ℕ
    → Bool
    → StoreRow
    → Draft
    → List Product
    → (List ℕ → List WalletRow)
    → (WalletRow → Option ℕ)
    → (List WalletRow → WalletRow)
    → (WalletRow → Bool → Option (Option PaymentMethod))
    → Created
create_invoice_flow id has_user store draft table wallets_of symbol_of choice core =
    if not store.allow_anonymous_invoice_creation && not has_user
    then refused anonymous
    else if not (has_wallets store.wallets)
    then refused no_wallet
    else elim (validate_stock_levels draft.products table) [
      | some k ↦ refused (out_of_stock k)
      | none ↦ created (
          new_invoice id draft.products (
            update_invoice_payments store.randomize_wallet_selection symbol_of choice core
              (wallets_of (or_else draft.payment_methods store.wallets))))
    ]

-- What `get_methods_inds` reads of a payment method.
pub record Offer : Type 0 where
  pub symbol : ℕ
  pub label : Bool
  pub lightning : Bool

-- `not item.label and not item.lightning`
is_counted : Offer → Bool
is_counted o = not o.label && not o.lightning

-- `counts[symbol] += 1`, and `counts[symbol]`, in a `defaultdict(int)`.
increment : ℕ → Dict ℕ → Dict ℕ
increment s d = insert s (suc (or_else (lookup s d) 0)) d

currency_counts : List Offer → Dict ℕ → Dict ℕ
unfolding is_counted increment
currency_counts [] d = d
currency_counts (o ∷ os) d = currency_counts os (if is_counted o then increment o.symbol d else d)

indices : Dict ℕ → Dict ℕ → List Offer → List (Option ℕ)
unfolding is_counted increment
indices currencies met [] = []
indices currencies met (o ∷ os) =
    let met' = if is_counted o then increment o.symbol met else met in
    let index = or_else (lookup o.symbol met') 0 in
    (if ltb 1 (or_else (lookup o.symbol currencies) 0) then some index else none)
    ∷ indices currencies met' os

-- `get_methods_inds`
get_methods_inds : List Offer → List (Option ℕ)
unfolding indices currency_counts
get_methods_inds os = indices (currency_counts os []) [] os
