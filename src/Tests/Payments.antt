-- ===== src/Tests/Payments.antt =====
-- The payment processor at concrete events.
use bitcart.Base.{◌++◌, List, ◌≡◌, refl, [], ◌∷◌, arith}
use bitcart.Invoice.{pending, paid}
use bitcart.Invoice.Update.{State, Message, round}
use bitcart.Processor.{shared, process_electrum_status, process_new_block, found, check_pending}
use bitcart.Processor.Convert.{number, word, convert_status}
use bitcart.Processor.Polling.{poll_takes_back}
use bitcart.Tests.Shop.{opened, payment_of_bitcoin}

-- Seen in the mempool, then in two blocks.
abbrev seen : State
seen = (process_electrum_status 50 shared payment_of_bitcoin 0 (number 7) opened).1

abbrev mined : State
mined = process_new_block 60 payment_of_bitcoin 2 seen

poll_takes_back_example :
    let t =
      check_pending 50 payment_of_bitcoin 0 (found (word "Unconfirmed") (77 ∷ []) 5000) opened in
    (told : State) × (rest : List Message) × (told.invoice.status ≡ paid)
    × (t.sent ≡ ([] ++ round told.invoice told.email_enabled) ++ rest)
    × (t.invoice.status ≡ pending)
unfolding convert_status
poll_takes_back_example =
    poll_takes_back 50 0 payment_of_bitcoin (word "Unconfirmed") (77 ∷ []) 5000 opened refl refl
      (omega arith)
