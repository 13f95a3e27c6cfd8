-- ===== src/Invoice.antt =====
-- The statuses of an invoice (api/invoices.py) and the rows that its life reads and writes
-- (api/models.py). The operations and their theorems are in the modules below.
-- Identifiers, names and hashes are only compared, so they are numbers. Amounts of coins are
-- counted in the last of the 18 decimal places that the database keeps, and are not negative.
pub mod Update
pub mod Create
pub mod Batch
use bitcart.Base.{ℕ, Bool, Option, List, ◌==◌, or_else}

pub data InvoiceStatus : Type 0 where
  pending paid unconfirmed confirmed expired invalid complete refunded : InvoiceStatus

-- `InvoiceExceptionStatus`; `nominal` is its `NONE`.
pub data ExceptionStatus : Type 0 where
  nominal paid_partial paid_over failed_confirm : ExceptionStatus

abbrev status_code : InvoiceStatus → ℕ
status_code pending = 0
status_code paid = 1
status_code unconfirmed = 2
status_code confirmed = 3
status_code expired = 4
status_code invalid = 5
status_code complete = 6
status_code refunded = 7

-- `a == b` on statuses.
abbrev pub same : InvoiceStatus → InvoiceStatus → Bool
same a b = status_code a == status_code b

-- `status in PAID_STATUSES`
abbrev pub is_paid_status : InvoiceStatus → Bool
is_paid_status paid = Bool.true
is_paid_status confirmed = Bool.true
is_paid_status complete = Bool.true
is_paid_status _ = Bool.false

-- `status in DEFAULT_PENDING_STATUSES`
abbrev pub is_pending_status : InvoiceStatus → Bool
is_pending_status pending = Bool.true
is_pending_status paid = Bool.true
is_pending_status _ = Bool.false

-- `name` is the value of `get_name()`, which reads columns that nothing here changes.
pub record PaymentMethod : Type 0 where
  pub id : ℕ
  pub name : ℕ
  pub amount : ℕ
  pub discount : Option ℕ
  pub lightning : Bool
  pub confirmations : ℕ
  pub is_used : Bool

-- `payment_id` is no column: `load_one` computes it. `products` are the associations with a
-- product, as (product's id, count).
pub record Invoice : Type 0 where
  pub id : ℕ
  pub status : InvoiceStatus
  pub exception_status : ExceptionStatus
  pub sent_amount : ℕ
  pub paid_currency : Option ℕ
  pub discount : Option ℕ
  pub tx_hashes : List ℕ
  pub paid_date : Option ℕ
  pub payments : List PaymentMethod
  pub products : List (ℕ × ℕ)
  pub payment_id : Option ℕ
