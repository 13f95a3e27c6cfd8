-- ===== src/Payout/Batch.antt =====
-- The batch actions on payouts: `process_batch_action` and `send_payouts` of
-- api/services/crud/payouts.py, and `send_batch_payouts` of api/services/payout_manager.py.
use bitcart.Base.{
  ℕ, Bool, true, false, Option, none, some, List, [], ◌∷◌, ◌+◌, not, ◌&&◌, contains, min,
  if◌then◌else◌, ◌>>=◌,
}
use bitcart.Base.Dict.{Dict}
use bitcart.Payout.{
  Amount, send_all, exactly, PayoutStatus, pending, approved, cancelled, failed, PayoutRow, World,
  is, mark_payout_sent, update_payout_status,
}
use bitcart.Payout.Send.{
  Coin, broadcast_tx_flow, is_skipped, request_amount, close_wallet, sent_to_network,
}

-- An SQL update of the status of the rows that satisfy a condition.
unfoldable pub update_rows : (PayoutRow → Bool) → PayoutStatus → Dict PayoutRow → Dict PayoutRow
update_rows c status [] = []
update_rows c status ((k, p) ∷ ps) =
    let rest = update_rows c status ps in
    (k, if c p then record p { status = status } else p) ∷ rest

-- The commands `approve` and `cancel`, for ids of payouts of the user.
unfoldable pub approve : List ℕ → World → World
approve ids w = record w {
  payouts = update_rows (λ p. contains p.id ids && is p.status pending) approved w.payouts;
}

unfoldable pub cancel : List ℕ → World → World
cancel ids w = record w { payouts = update_rows (λ p. contains p.id ids) cancelled w.payouts }

-- What `prepare_payout_details` gives for one payout of a batch: nothing for a skipped one, and else
-- the conversion at the payout's rate, the destination and the amount.
abbrev Details : Type 0
Details = (ℕ → ℕ) × (ℕ × Amount)

unfoldable pub prepare_all :
    (PayoutRow → Option (ℕ → ℕ)) → List PayoutRow → Option (List (Option Details))
prepare_all convert [] = some []
prepare_all convert (p ∷ ps) =
    let rest = prepare_all convert ps in
    if is_skipped p
    then (rest >>= λ ds. some (none ∷ ds))
    else convert p >>= λ c.
        rest >>= λ ds. some (some (c, (p.destination, request_amount c p.amount)) ∷ ds)

-- How many wallets the preparation opens, and how many of them it closes on an exception.
pub count : (PayoutRow → Bool) → List PayoutRow → ℕ
count c [] = 0
count c (p ∷ ps) = let rest = count c ps in if c p then rest + 1 else rest

-- `outputs`, unless one of them is `SEND_ALL`.
pub outputs_of : List (Option Details) → Option (List (ℕ × ℕ))
outputs_of [] = some []
outputs_of (none ∷ ds) = outputs_of ds
outputs_of (some (c, (d, send_all)) ∷ ds) = none
outputs_of (some (c, (d, exactly n)) ∷ ds) = outputs_of ds >>= λ os. some ((d, n) ∷ os)

-- The least of the limits on the fee, if there are any.
pub least_fee : List PayoutRow → Option ℕ
least_fee [] = none
least_fee (p ∷ ps) =
    let rest = least_fee ps in
    elim p.max_fee [ none ↦ rest | some m ↦ elim rest [ none ↦ some m | some n ↦ some (min m n) ] ]

unfoldable pub mark_all : ℕ → ℕ → List PayoutRow → World → World
mark_all now h [] w = w
mark_all now h (p ∷ ps) w = mark_all now h ps (mark_payout_sent now p h w)

unfoldable pub fail_all : ℕ → List PayoutRow → World → World
fail_all now [] w = w
fail_all now (p ∷ ps) w = fail_all now ps (update_payout_status now p failed w)

-- The wallets that the preparation opens, and those that an unknown rate closes.
unfoldable pub prepared : (PayoutRow → Option (ℕ → ℕ)) → List PayoutRow → World → World
prepared convert ps w = record w {
  opened = w.opened + count (λ p. not (is_skipped p)) ps;
  closed =
      w.closed
      + count (λ p. not (is_skipped p) && elim (convert p) [ none ↦ true | some c ↦ false ]) ps;
}

-- The `try` of `send_batch_payouts`, with its two calls of `close_wallet`.
unfoldable pub pay_batch : ℕ → Coin → (ℕ → ℕ) → List (ℕ × ℕ) → List PayoutRow → World → Bool × World
pay_batch now coin convert outputs ps w = elim (coin.pay_to_many outputs) [
  | none ↦ (false, close_wallet w)
  | some raw ↦ elim (broadcast_tx_flow coin convert raw (least_fee ps)) [
    | none ↦ (false, close_wallet (close_wallet w))
    | some none ↦ (true, close_wallet (close_wallet w))
    | some (some h) ↦ (true, close_wallet (mark_all now h ps (sent_to_network h (close_wallet w))))
  ]
]

unfoldable pub send_batch_payouts :
    ℕ → Coin → (PayoutRow → Option (ℕ → ℕ)) → List PayoutRow → World → Bool × World
send_batch_payouts now coin convert ps w =
    let w' = prepared convert ps w in
    elim (prepare_all convert ps) [
      | none ↦ (false, w')
      | some [] ↦ (false, w')
      | some (none ∷ ds) ↦ (true, w')
      | some (some (c, o) ∷ ds) ↦ elim (outputs_of (some (c, o) ∷ ds)) [
        | none ↦ (false, w')
        | some outputs ↦ pay_batch now coin c outputs ps w'
      ]
    ]

-- The body of the loop of `send_payouts` over the payouts of one wallet.
unfoldable pub send_group : ℕ → Coin → (PayoutRow → Option (ℕ → ℕ)) → List PayoutRow → World → World
send_group now coin convert ps w =
    let (ok, w') = send_batch_payouts now coin convert ps w in if ok then w' else fail_all now ps w'
