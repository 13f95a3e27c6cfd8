-- ===== src/Invoice/Create/Laws.antt =====
-- What a new invoice looks like, and which discount it gets.
use bitcart.Base.{
  ℕ, ◌≡◌, ◌≤◌, ◌⊎◌, refl, Bool, true, Option, none, some, List, [], ◌∷◌, if◌then◌else◌, not, ◌&&◌,
  ◌||◌, ltb, or_else, contains, filter, map, All, Option-cases, Bool-cases, inl, inr, arith,
}
use bitcart.Base.Int.{pos, ◌-ℤ◌}
use bitcart.Stock.{Product, validate_stock_levels}
use bitcart.Invoice.{pending, PaymentMethod, Invoice}
use bitcart.Invoice.Update.{used_payment}
use bitcart.Invoice.Create.{
  Discount, applies, greatest, match_discount, WalletRow, StoreRow, Draft, created, new_invoice,
  has_wallets, insert_rows, update_invoice_payments, chosen, by_symbol, create_methods,
  create_invoice_flow,
}

used_payment-insert_rows : (ms : List PaymentMethod) → used_payment (insert_rows ms) ≡ none
unfolding insert_rows
used_payment-insert_rows [] = refl
used_payment-insert_rows (m ∷ ms) = used_payment-insert_rows ms

unused_methods :
    (randomize : Bool) (symbol_of : WalletRow → Option ℕ) (choice : List WalletRow → WalletRow)
    (core : WalletRow → Bool → Option (Option PaymentMethod)) (ws : List WalletRow)
    → used_payment (update_invoice_payments randomize symbol_of choice core ws) ≡ none
unfolding update_invoice_payments
unused_methods randomize symbol_of choice core ws =
    used_payment-insert_rows
      (create_methods core (if randomize then chosen choice (by_symbol symbol_of ws []) else ws))

-- A new invoice: its order fits the stock, it is pending, none of its methods is used, and the
-- caller may create it.
pub record IsNew (has_user : Bool) (store : StoreRow) (table : List Product) (i : Invoice)
    : Type 0 where
  pub in_stock : validate_stock_levels i.products table ≡ none
  pub status : i.status ≡ pending
  pub unused : used_payment i.payments ≡ none
  pub may_create : (store.allow_anonymous_invoice_creation || has_user) ≡ true

-- Every invoice that the flow creates is new in this sense.
pub create_invoice_flow-IsNew :
    (id : ℕ) (has_user : Bool) (store : StoreRow) (draft : Draft) (table : List Product)
    (wallets_of : List ℕ → List WalletRow) (symbol_of : WalletRow → Option ℕ)
    (choice : List WalletRow → WalletRow) (core : WalletRow → Bool → Option (Option PaymentMethod))
    (i : Invoice)
    → create_invoice_flow id has_user store draft table wallets_of symbol_of choice core ≡ created i
    → IsNew has_user store table i
unfolding create_invoice_flow
create_invoice_flow-IsNew id has_user store draft table wallets_of symbol_of choice core i h =
    let ws = wallets_of (or_else draft.payment_methods store.wallets) in
    let rows = update_invoice_payments store.randomize_wallet_selection symbol_of choice core ws in
    let new = new_invoice id draft.products rows in
    elim (Bool-cases (not store.allow_anonymous_invoice_creation && not has_user)) [
      | inl a ↦ absurd (ground (arith, h, a))
      | inr a ↦ elim (Bool-cases (has_wallets store.wallets)) [
        | inr b ↦ absurd (ground (arith, h, a, b))
        | inl b ↦ elim (Option-cases (validate_stock_levels draft.products table)) [
          | inr (k, e) ↦ absurd (ground (arith, h, a, b, e))
          | inl e ↦
              let same : i ≡ new = ground (arith, h, a, b, e) in
              rw same record {
                in_stock = e;
                status = refl;
                unused = unused_methods store.randomize_wallet_selection symbol_of choice core ws;
                may_create = ground (arith, a);
              }
        ]
      ]
    ]

All-weaken :
    (m n : ℕ) (ds : List Discount)
    → m ≤ n
    → All (λ e. e.percent ≤ m) ds
    → All (λ e. e.percent ≤ n) ds
All-weaken m n [] h a = tt
All-weaken m n (d ∷ ds) h (p, a) = (omega (arith, h, p), All-weaken m n ds h a)

-- `d` is one of the discounts, by its id, and none of them has a greater percentage.
pub IsGreatest : Discount → List Discount → Type 0
IsGreatest d ds = (contains d.id (map (λ e. e.id) ds) ≡ true) × All (λ e. e.percent ≤ d.percent) ds

greatest_of :
    (ds : List Discount)
    → ((ds ≡ []) × (greatest ds ≡ none))
      ⊎ ((d : Discount) × (greatest ds ≡ some d) × IsGreatest d ds)
unfolding greatest IsGreatest
greatest_of [] = inl (refl, refl)
greatest_of (d ∷ ds) = elim (greatest_of ds) [
  | inl (e, g) ↦ rw (g, e) (inr (d, refl, (ground arith, (omega arith, tt))))
  | inr (f, g, (c, a)) ↦ elim (Bool-cases (ltb d.percent f.percent)) [
    | inl b ↦ rw (g, b) (inr (f, refl, (ground (arith, c), (ground (arith, b), a))))
    | inr b ↦
        rw (g, b)
          (inr (
            d,
            refl,
            (ground arith, (omega arith, All-weaken f.percent d.percent ds (ground (arith, b)) a)),
          ))
  ]
]

-- The discount of a payment method is the greatest of those that apply, and the price stays if
-- none applies.
pub match_discount_lem :
    (currency : ℕ) (promocode : Option ℕ) (discounts : List Discount)
    → let fitting = filter (applies currency promocode) discounts in
      ((fitting ≡ []) × (match_discount currency promocode discounts ≡ (pos 100, none)))
      ⊎ ((d : Discount) × (match_discount currency promocode discounts
            ≡ (pos 100 -ℤ pos d.percent, some d.id))
          × IsGreatest d fitting)
unfolding match_discount
match_discount_lem currency promocode discounts =
    elim (greatest_of (filter (applies currency promocode) discounts)) [
      | inl (e, g) ↦ inl (e, rw (g, match_discount) refl)
      | inr (d, g, m) ↦ inr (d, rw (g, match_discount) refl, m)
    ]
