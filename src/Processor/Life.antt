-- ===== src/Processor/Life.antt =====
-- The events of an invoice's life as steps, and what holds of every life.
use bitcart.Base.{ℕ, ◌≤◌, ◌≡◌, true}
use bitcart.Invoice.{PaymentMethod, invalid, refunded, is_pending_status}
use bitcart.Invoice.Update.{State, Payment, update_status}
use bitcart.Invoice.Batch.{Options, completing}
use bitcart.Processor.{
  shared, Answer, not_found, check_pending, process_electrum_status, process_new_block, plain,
  process_expire_task,
}
use bitcart.Processor.Convert.{RawStatus}
use bitcart.Processor.Stages.{stage}

abbrev pub invalidated : State → State
invalidated s = record s { invoice = record (s.invoice) { status = invalid } }

-- One event of an invoice's life, at a time `now`: a payment that a daemon reports, a poll, a block, an
-- invoice that the daemon has lost, the timeout, a refund, and the batch actions, where `mark_complete`
-- is for an invoice up to the stage of completion, and `mark_invalid` for one that is not refunded.
pub data Step (s : State) : State → Type 0 where
  payment :
      (now : ℕ) (p : Payment) (n : ℕ) (raw : RawStatus)
      → Step s (process_electrum_status now shared p n raw s).1
  polled :
      (now : ℕ) (p : Payment) (n : ℕ) (answer : Answer)
      → (answer ≡ not_found → is_pending_status s.invoice.status ≡ true)
      → Step s (check_pending now p n answer s)
  block : (now : ℕ) (p : Payment) (n : ℕ) → Step s (process_new_block now p n s)
  timeout : (now : ℕ) → Step s (process_expire_task now s).1
  refund : (now : ℕ) → Step s (update_status now (plain refunded) s).1
  marked_complete :
      (now : ℕ) (o : Options) (m : PaymentMethod)
      → stage s.invoice.status ≤ 3
      → Step s (update_status now (completing o m) s).1
  marked_invalid : stage s.invoice.status ≤ 4 → Step s (invalidated s)

pub data Reach (s : State) : State → Type 0 where
  here : Reach s s
  next : {t u : State} → Reach s t → Step t u → Reach s u
