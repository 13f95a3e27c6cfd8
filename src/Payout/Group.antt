-- ===== src/Payout/Group.antt =====
-- What a batch broadcasts, and what the rows of its payouts hold afterwards.
use bitcart.Base.{
  ℕ, ◌≡◌, refl, Bool, true, false, Option, none, some, List, [], ◌∷◌, ◌++◌, arith, if◌then◌else◌,
  Option-cases, Bool-cases, inl, inr, ◌==◌, ◌⊎◌, ◌∙◌, All, ap,
}
use bitcart.Base.Dict.{lookup, insert, lookup-insert}
use bitcart.Payout.{
  failed, sent, PayoutRow, World, is_settled, update_payout_status, mark_payout_sent,
}
use bitcart.Payout.Rows.{mark_payout_sent-Marked}
use bitcart.Payout.Once.{Quiet-failed}
use bitcart.Payout.Send.{Coin, broadcast_tx_flow, close_wallet, sent_to_network}
use bitcart.Payout.Batch.{
  prepare_all, outputs_of, least_fee, mark_all, fail_all, prepared, pay_batch, send_batch_payouts,
  send_group,
}

-- The row of the payout `k` holds the hash `h`.
abbrev Carries : ℕ → ℕ → World → Type 0
Carries k h w = (p : PayoutRow) × (lookup k w.payouts ≡ some p) × (p.tx_hash ≡ some h)

abbrev marked_row : ℕ → PayoutRow → PayoutRow
marked_row h p = record p {
  tx_hash = some h;
  status = if is_settled p.status sent then p.status else sent;
}

mark_settled :
    (now h : ℕ) (p : PayoutRow) (w : World)
    → is_settled p.status sent ≡ true
    → mark_payout_sent now p h w
      ≡ record w { payouts = insert p.id (record p { tx_hash = some h }) w.payouts }
unfolding mark_payout_sent update_payout_status
mark_settled now h p w e = rw e

-- The row that `mark_payout_sent` leaves, whatever the status was.
lookup-mark_payout_sent :
    (now h k : ℕ) (p : PayoutRow) (w : World)
    → let w' = mark_payout_sent now p h w in
      (w'.network ≡ w.network)
      × (lookup k w'.payouts ≡ (if p.id == k then some (marked_row h p) else lookup k w.payouts))
lookup-mark_payout_sent now h k p w = elim (Bool-cases (is_settled p.status sent)) [
  | inl e ↦
      rw (mark_settled now h p w e, e)
        (refl, lookup-insert p.id k (record p { tx_hash = some h }) w.payouts)
  | inr e ↦ let m = mark_payout_sent-Marked now h p w e in rw e (m.network, m.row k)
]

Carries-mark_payout_sent :
    (now h k : ℕ) (p : PayoutRow) (w : World)
    → Carries k h w
    → Carries k h (mark_payout_sent now p h w)
Carries-mark_payout_sent now h k p w (q, e, t) =
    let row = (lookup-mark_payout_sent now h k p w).1 in
    elim (Bool-cases (p.id == k)) [
      | inl b ↦ (marked_row h p, row ∙ rw b refl, refl)
      | inr b ↦ (q, row ∙ rw b e, t)
    ]

Carries-marked :
    (now h : ℕ) (p : PayoutRow) (w : World) → Carries p.id h (mark_payout_sent now p h w)
Carries-marked now h p w =
    (marked_row h p, (lookup-mark_payout_sent now h p.id p w).1 ∙ ground arith, refl)

Carries-mark_all :
    (now h k : ℕ) (ps : List PayoutRow) (w : World)
    → Carries k h w
    → Carries k h (mark_all now h ps w)
unfolding mark_all
Carries-mark_all now h k [] w c = c
Carries-mark_all now h k (p ∷ ps) w c =
    Carries-mark_all now h k ps (mark_payout_sent now p h w)
      (Carries-mark_payout_sent now h k p w c)

All-mark_all :
    (now h : ℕ) (ps : List PayoutRow) (w : World)
    → All (λ p. Carries p.id h (mark_all now h ps w)) ps
unfolding mark_all
All-mark_all now h [] w = tt
All-mark_all now h (p ∷ ps) w =
    let w' = mark_payout_sent now p h w in
    (Carries-mark_all now h p.id ps w' (Carries-marked now h p w), All-mark_all now h ps w')

network-mark_all :
    (now h : ℕ) (ps : List PayoutRow) (w : World) → (mark_all now h ps w).network ≡ w.network
unfolding mark_all
network-mark_all now h [] w = refl
network-mark_all now h (p ∷ ps) w =
    network-mark_all now h ps (mark_payout_sent now p h w) ∙ (lookup-mark_payout_sent now h 0 p w).0

network-fail_all :
    (now : ℕ) (ps : List PayoutRow) (w : World) → (fail_all now ps w).network ≡ w.network
unfolding fail_all
network-fail_all now [] w = refl
network-fail_all now (p ∷ ps) w =
    network-fail_all now ps (update_payout_status now p failed w) ∙ (Quiet-failed now p w).0

-- The outcome of a batch: nothing is broadcast, or exactly one transaction, whose hash is then on
-- the row of every payout of the batch.
abbrev pub Paid : List PayoutRow → World → World → Type 0
Paid ps w w' =
    (w'.network ≡ w.network)
    ⊎ ((h : ℕ) × (w'.network ≡ w.network ++ h ∷ []) × All (λ p. Carries p.id h w') ps)

Paid-pay_batch :
    (now : ℕ) (coin : Coin) (convert : ℕ → ℕ) (outputs : List (ℕ × ℕ)) (ps : List PayoutRow)
    (w : World)
    → ((pay_batch now coin convert outputs ps w).1.network ≡ w.network)
      ⊎ ((h : ℕ) × ((pay_batch now coin convert outputs ps w).0 ≡ true)
          × ((pay_batch now coin convert outputs ps w).1.network ≡ w.network ++ h ∷ [])
          × All (λ p. Carries p.id h (pay_batch now coin convert outputs ps w).1) ps)
unfolding pay_batch
Paid-pay_batch now coin convert outputs ps w = elim (Option-cases (coin.pay_to_many outputs)) [
  | inl e ↦ inl (rw (e, pay_batch) refl)
  | inr (raw, e) ↦ elim (Option-cases (broadcast_tx_flow coin convert raw (least_fee ps))) [
    | inl f ↦ inl (rw (e, pay_batch, f) refl)
    | inr (none, f) ↦ inl (rw (e, pay_batch, f) refl)
    | inr (some h, f) ↦
        let w' = sent_to_network h (close_wallet w) in
        rw (e, pay_batch, f) (inr (h, refl, network-mark_all now h ps w', All-mark_all now h ps w'))
  ]
]

Paid-prepared :
    (now : ℕ) (ps : List PayoutRow) (w w' w'' : World) (ok : Bool)
    → w'.network ≡ w.network
    → (w''.network ≡ w'.network)
      ⊎ ((h : ℕ) × (ok ≡ true)
          × (w''.network ≡ w'.network ++ h ∷ [])
          × All (λ p. Carries p.id h w'') ps)
    → Paid ps w (if ok then w'' else fail_all now ps w'')
Paid-prepared now ps w w' w'' true n (inl q) = inl (q ∙ n)
Paid-prepared now ps w w' w'' false n (inl q) = inl (network-fail_all now ps w'' ∙ (q ∙ n))
Paid-prepared now ps w w' w'' true n (inr (h, _, q, a)) = inr (h, q ∙ ap (λ x. x ++ h ∷ []) n, a)
Paid-prepared now ps w w' w'' false n (inr (h, e, q, a)) = absurd (ground (arith, e))

network-prepared :
    (convert : PayoutRow → Option (ℕ → ℕ)) (ps : List PayoutRow) (w : World)
    → (prepared convert ps w).network ≡ w.network
unfolding prepared
network-prepared convert ps w = refl

-- A batch broadcasts nothing, or exactly one transaction, whose hash is then on the row of every
-- payout of the batch.
pub batch_is_paid_once :
    (now : ℕ) (coin : Coin) (convert : PayoutRow → Option (ℕ → ℕ)) (ps : List PayoutRow) (w : World)
    → Paid ps w (send_group now coin convert ps w)
unfolding send_group send_batch_payouts
batch_is_paid_once now coin convert ps w =
    let w' = prepared convert ps w in
    let n = network-prepared convert ps w in
    elim (Option-cases (prepare_all convert ps)) [
      | inl e ↦
          rw (e, send_group, send_batch_payouts) (Paid-prepared now ps w w' w' false n (inl refl))
      | inr ([], e) ↦
          rw (e, send_group, send_batch_payouts) (Paid-prepared now ps w w' w' false n (inl refl))
      | inr (none ∷ ds, e) ↦
          rw (e, send_group, send_batch_payouts) (Paid-prepared now ps w w' w' true n (inl refl))
      | inr (some (c, o) ∷ ds, e) ↦ elim (Option-cases (outputs_of (some (c, o) ∷ ds))) [
        | inl f ↦
            rw (e, send_group, send_batch_payouts, f)
              (Paid-prepared now ps w w' w' false n (inl refl))
        | inr (outputs, f) ↦
            rw (e, send_group, send_batch_payouts, f)
              (Paid-prepared now ps w w' (pay_batch now coin c outputs ps w').1
                (pay_batch now coin c outputs ps w').0 n (Paid-pay_batch now coin c outputs ps w'))
      ]
    ]
