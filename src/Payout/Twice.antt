-- ===== src/Payout/Twice.antt =====
-- What the batch actions do to payouts, also to those that were sent already.
use mathlib.Core.Option
use bitcart.Base.{
  ℕ, ◌≡◌, refl, Bool, true, false, Option, none, some, List, [], ◌∷◌, ◌++◌, arith, if◌then◌else◌,
  Bool-cases, inl, inr, ◌==◌, ◌&&◌, ◌∙◌, contains, ap,
}
use bitcart.Base.Dict.{Dict, lookup, lookup-insert}
use bitcart.Payout.{
  PayoutStatus, pending, approved, cancelled, failed, sent, PayoutRow, World, is, is_settled,
  enter_payout_status, update_payout_status,
}
use bitcart.Payout.Rows.{mark_payout_sent-Marked}
use bitcart.Payout.Once.{idle_once_sent}
use bitcart.Payout.Send.{
  Coin, prepare_tx, broadcast_tx_flow, is_skipped, request_amount, open_wallet, close_wallet,
  sent_to_network, send_payout, send_one,
}
use bitcart.Payout.Batch.{
  update_rows, approve, cancel, prepare_all, prepared, send_batch_payouts, fail_all, send_group,
}

lookup-update_rows :
    (k : ℕ) (c : PayoutRow → Bool) (status : PayoutStatus) (d : Dict PayoutRow)
    → lookup k (update_rows c status d)
      ≡ Option.map (λ p. if c p then record p { status = status } else p) (lookup k d)
unfolding update_rows lookup
lookup-update_rows k c status [] = refl
lookup-update_rows k c status ((j, p) ∷ d) = elim (Bool-cases (j == k)) [
  | inl e ↦ rw e refl
  | inr e ↦ rw e (lookup-update_rows k c status d)
]

-- Approving changes exactly the pending payouts among the selected ones, and a payout that is not
-- pending, such as a sent one, stays.
pub lookup-approve :
    (k : ℕ) (ids : List ℕ) (w : World) (p : PayoutRow)
    → lookup k w.payouts ≡ some p
    → lookup k (approve ids w).payouts
      ≡ some
          (if contains p.id ids && is p.status pending then record p { status = approved } else p)
unfolding approve
lookup-approve k ids w p e =
    lookup-update_rows k (λ q. contains q.id ids && is q.status pending) approved w.payouts
    ∙ ap (Option.map _) e

lookup-cancel :
    (k : ℕ) (ids : List ℕ) (w : World) (p : PayoutRow)
    → lookup k w.payouts ≡ some p
    → contains p.id ids ≡ true
    → lookup k (cancel ids w).payouts ≡ some (record p { status = cancelled })
unfolding cancel
lookup-cancel k ids w p e c =
    lookup-update_rows k (λ q. contains q.id ids) cancelled w.payouts
    ∙ (ap (Option.map _) e ∙ (rw c refl))

is_skipped-cancelled :
    (p : PayoutRow) (i j : ℕ)
    → p.wallet_id ≡ some i
    → p.store_id ≡ some j
    → is_skipped (record p { status = cancelled }) ≡ false
unfolding is_skipped
is_skipped-cancelled p i j e f = rw (e, f)

not_settled_cancelled : is_settled cancelled sent ≡ false
unfolding is_settled
not_settled_cancelled = refl

network-cancel :
    (w : World) (h k : ℕ)
    → (sent_to_network h (close_wallet (open_wallet (cancel (k ∷ []) w)))).network
      ≡ w.network ++ h ∷ []
unfolding cancel
network-cancel w h k = refl

-- A payout that was sent already and then cancelled is sent once more: the action `send` broadcasts
-- a second transaction for it.
pub cancelled_is_sent_again :
    (now k i j raw h : ℕ) (coin : Coin) (convert : ℕ → ℕ) (w : World) (p : PayoutRow)
    → lookup k w.payouts ≡ some p
    → p.id ≡ k
    → p.status ≡ sent
    → p.wallet_id ≡ some i
    → p.store_id ≡ some j
    → coin.convert ≡ some convert
    → prepare_tx coin p.destination (request_amount convert p.amount) ≡ some raw
    → broadcast_tx_flow coin convert raw p.max_fee ≡ some (some h)
    → (send_one now coin k w ≡ w)
      × ((send_one now coin k (cancel (k ∷ []) w)).network ≡ w.network ++ h ∷ [])
unfolding send_one send_payout
cancelled_is_sent_again now k i j raw h coin convert w p e n s wallet store c t b =
    let p' : PayoutRow = record p { status = cancelled } in
    let w' = sent_to_network h (close_wallet (open_wallet (cancel (k ∷ []) w))) in
    let unsettled : is_settled p'.status sent ≡ false = not_settled_cancelled in
    let found : lookup k (cancel (k ∷ []) w).payouts ≡ some p' =
      lookup-cancel k (k ∷ []) w p e (ground (arith, n)) in
    (
      idle_once_sent now k coin w p e s,
      rw (found, send_one, is_skipped-cancelled p i j wallet store, c, send_payout, t, b)
          ((mark_payout_sent-Marked now h p' w' unsettled).network ∙ network-cancel w h k),
    )

unknown_rate :
    (now : ℕ) (coin : Coin) (convert : PayoutRow → Option (ℕ → ℕ)) (q : PayoutRow)
    (ps : List PayoutRow) (w : World)
    → is_skipped q ≡ false
    → convert q ≡ none
    → prepare_all convert (q ∷ ps) ≡ none
unfolding prepare_all
unknown_rate now coin convert q ps w n c = rw (n, c)

group_fails :
    (now : ℕ) (coin : Coin) (convert : PayoutRow → Option (ℕ → ℕ)) (ps : List PayoutRow) (w : World)
    → prepare_all convert ps ≡ none
    → send_group now coin convert ps w ≡ fail_all now ps (prepared convert ps w)
unfolding send_group send_batch_payouts
group_fails now coin convert ps w e = rw (e, send_group, send_batch_payouts)

lookup-failed :
    (now : ℕ) (p : PayoutRow) (w : World)
    → p.status ≡ sent
    → lookup p.id (update_payout_status now p failed w).payouts
      ≡ some (record p { status = failed })
unfolding update_payout_status enter_payout_status is_settled
lookup-failed now p w s =
    let p' : PayoutRow = record p { status = failed } in
    rw s (ground (arith, lookup-insert p.id p.id p' w.payouts))

-- If the rate of one payout of a batch is unknown, then every payout of the batch is marked as
-- failed, a payout that was sent already too, which the action `send` then takes for unsent.
failed_batch_unsends :
    (now i j : ℕ) (coin : Coin) (convert : PayoutRow → Option (ℕ → ℕ)) (q p : PayoutRow) (w : World)
    → p.status ≡ sent
    → p.wallet_id ≡ some i
    → p.store_id ≡ some j
    → is_skipped q ≡ false
    → convert q ≡ none
    → let p' : PayoutRow = record p { status = failed } in
      (lookup p.id (send_group now coin convert (q ∷ p ∷ []) w).payouts ≡ some p')
      × (is_skipped p' ≡ false)
unfolding fail_all is_skipped
failed_batch_unsends now i j coin convert q p w s wallet store n c =
    let lost = unknown_rate now coin convert q (p ∷ []) w n c in
    let w' = update_payout_status now q failed (prepared convert (q ∷ p ∷ []) w) in
    (
      rw (group_fails now coin convert (q ∷ p ∷ []) w lost) (lookup-failed now p w' s),
      rw (wallet, store),
    )
