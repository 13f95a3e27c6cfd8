-- ===== src/Processor/Convert.antt =====
-- `convert_status` and `STATUS_MAPPING` of api/invoices.py.
use Prim.Native.String.{String}
use text.Mathlib.Text.{◌==◌ as str_eq}
use bitcart.Base.{ℕ, zero, suc, if◌then◌else◌}
use bitcart.Invoice.{
  InvoiceStatus, pending, paid, unconfirmed, confirmed, expired, invalid, complete, refunded,
}

-- A status as a daemon reports it: an Electrum number, or a text.
pub data RawStatus : Type 0 where
  number : ℕ → RawStatus
  word : String → RawStatus

-- What is returned: a status of an invoice, another text, or a number with no entry.
pub data Converted : Type 0 where
  known : InvoiceStatus → Converted
  other : String → Converted
  unmapped : ℕ → Converted

-- The texts of `InvoiceStatus`.
status_text : InvoiceStatus → String
status_text pending = "pending"
status_text paid = "paid"
status_text unconfirmed = "unconfirmed"
status_text confirmed = "confirmed"
status_text expired = "expired"
status_text invalid = "invalid"
status_text complete = "complete"
status_text refunded = "refunded"

-- A text with no entry is returned as it is, and may be a status's own text.
as_status : String → Converted
as_status s =
    if str_eq s "pending"
    then known pending
    else if str_eq s "paid"
    then known paid
    else if str_eq s "unconfirmed"
    then known unconfirmed
    else if str_eq s "confirmed"
    then known confirmed
    else if str_eq s "expired"
    then known expired
    else if str_eq s "invalid"
    then known invalid
    else if str_eq s "complete"
    then known complete
    else if str_eq s "refunded"
    then known refunded
    else other s

convert_word : String → Converted
unfolding as_status
convert_word s =
    if str_eq s "Pending"
    then known pending
    else if str_eq s "Unpaid"
    then known pending
    else if str_eq s "Paid"
    then known complete
    else if str_eq s "Unknown"
    then known invalid
    else if str_eq s "Expired"
    then known expired
    else if str_eq s "Unconfirmed"
    then known unconfirmed
    else if str_eq s ""
    then known expired
    else as_status s

convert_number : ℕ → Converted
convert_number zero = known pending
convert_number (suc zero) = known expired
convert_number (suc (suc zero)) = known invalid
convert_number (suc (suc (suc zero))) = known complete
convert_number (suc (suc (suc (suc zero)))) = other "In progress"
convert_number (suc (suc (suc (suc (suc zero))))) = other "Failed"
convert_number (suc (suc (suc (suc (suc (suc zero)))))) = other "routing"
convert_number (suc (suc (suc (suc (suc (suc (suc zero))))))) = known unconfirmed
convert_number n = unmapped n

unfoldable pub convert_status : RawStatus → Converted
unfolding convert_word convert_number
convert_status (number n) = convert_number n
convert_status (word s) = convert_word s
