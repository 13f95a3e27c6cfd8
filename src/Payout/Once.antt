-- ===== src/Payout/Once.antt =====
-- What a payout sends, and how often.
use bitcart.Base.{
  ℕ, ◌≡◌, refl, Bool, true, false, none, some, [], ◌∷◌, ◌++◌, ◌+◌, ◌≤◌, arith, if◌then◌else◌,
  Option-cases, Bool-cases, inl, inr, ◌⊎◌, ◌∙◌, sym, List,
}
use bitcart.Base.Dict.{lookup}
use bitcart.Payout.{
  failed, sent, PayoutRow, World, is_settled, enter_payout_status, update_payout_status,
  mark_payout_sent,
}
use bitcart.Payout.Rows.{Marked, mark_payout_sent-Marked}
use bitcart.Payout.Send.{
  Coin, prepare_tx, broadcast_tx_flow, is_skipped, request_amount, open_wallet, close_wallet,
  sent_to_network, send_payout, send_one,
}

-- Nothing is broadcast, and every wallet that was opened is closed.
record Quiet (w w' : World) : Type 0 where
  network : w'.network ≡ w.network
  payouts : w'.payouts ≡ w.payouts
  pub closes : w'.opened + w.closed ≤ w'.closed + w.opened

abbrev paid_out : ℕ → ℕ → PayoutRow → World → World
paid_out now h p w = mark_payout_sent now p h (sent_to_network h (close_wallet (open_wallet w)))

Quiet-refl : (w : World) → Quiet w w
Quiet-refl w = record { network = refl; payouts = refl; closes = omega arith }

Quiet-closed : (w : World) → Quiet w (close_wallet (open_wallet w))
Quiet-closed w = record { network = refl; payouts = refl; closes = omega arith }

Quiet-closed_twice : (w : World) → Quiet w (close_wallet (close_wallet (open_wallet w)))
Quiet-closed_twice w = record { network = refl; payouts = refl; closes = omega arith }

-- `send_payout` broadcasts nothing, or it broadcasts one transaction of a payout that is not
-- skipped, and marks it as sent.
send_payout-cases :
    (now : ℕ) (coin : Coin) (p : PayoutRow) (w : World)
    → Quiet w (send_payout now coin p w).1
      ⊎ ((h : ℕ) × (is_skipped p ≡ false) × (send_payout now coin p w ≡ (true, paid_out now h p w)))
unfolding send_payout
send_payout-cases now coin p w = elim (Bool-cases (is_skipped p)) [
  | inl e ↦ inl (rw e (Quiet-refl w))
  | inr e ↦ elim (Option-cases coin.convert) [
    | inl f ↦ inl (rw (e, f, send_payout) (Quiet-closed w))
    | inr (convert, f) ↦
        elim (Option-cases (prepare_tx coin p.destination (request_amount convert p.amount))) [
          | inl g ↦ inl (rw (e, f, send_payout, g) (Quiet-closed w))
          | inr (raw, g) ↦ elim (Option-cases (broadcast_tx_flow coin convert raw p.max_fee)) [
            | inl i ↦ inl (rw (e, f, send_payout, g, i) (Quiet-closed_twice w))
            | inr (none, i) ↦ inl (rw (e, f, send_payout, g, i) (Quiet-closed w))
            | inr (some h, i) ↦ inr (h, e, rw (e, f, send_payout, g, i))
          ]
        ]
  ]
]

not_settled : (p : PayoutRow) → is_skipped p ≡ false → is_settled p.status sent ≡ false
unfolding is_skipped is_settled
not_settled p e = ground arith

skipped_once_sent : (p : PayoutRow) → p.status ≡ sent → is_skipped p ≡ true
unfolding is_skipped
skipped_once_sent p e = ground arith

-- What happened to the payout `k`: nothing was broadcast, or exactly one transaction, whose hash
-- the payout's row now holds with the status `sent`. Every wallet that was opened is closed.
pub record Attempt (k : ℕ) (w w' : World) : Type 0 where
  pub closes : w'.opened + w.closed ≤ w'.closed + w.opened
  pub result :
      (w'.network ≡ w.network)
      ⊎ ((h : ℕ) × (p : PayoutRow) × (w'.network ≡ w.network ++ h ∷ [])
          × (lookup k w'.payouts ≡ some p)
          × (p.status ≡ sent)
          × (p.tx_hash ≡ some h))

Attempt-paid_out :
    (now h : ℕ) (p : PayoutRow) (w : World)
    → is_skipped p ≡ false
    → Attempt p.id w (paid_out now h p w)
Attempt-paid_out now h p w e =
    let w' = sent_to_network h (close_wallet (open_wallet w)) in
    let marked : Marked p h w' (paid_out now h p w) =
      mark_payout_sent-Marked now h p w' (not_settled p e) in
    record {
      closes = omega (arith, marked.opened, marked.closed);
      result = inr (
        h,
        record p { status = sent; tx_hash = some h },
        marked.network,
        ground (arith, marked.row p.id),
        refl,
        refl,
      );
    }

-- A payout that fails changes only its own row and the messages.
pub Quiet-failed :
    (now : ℕ) (p : PayoutRow) (w : World)
    → ((update_payout_status now p failed w).network ≡ w.network)
      × ((update_payout_status now p failed w).opened ≡ w.opened)
      × ((update_payout_status now p failed w).closed ≡ w.closed)
unfolding update_payout_status enter_payout_status
Quiet-failed now p w = elim (Bool-cases (is_settled p.status failed)) [
  | inl e ↦ rw e (refl, refl, refl)
  | inr e ↦ rw e (refl, refl, refl)
]

-- After the loop's body, whether `send_payout` returned or raised an exception.
Attempt-rest :
    (now k : ℕ) (p : PayoutRow) (w w' : World) (ok : Bool)
    → Quiet w w'
    → Attempt k w (if ok then w' else update_payout_status now p failed w')
Attempt-rest now k p w w' true q = record { closes = q.closes; result = inl q.network }
Attempt-rest now k p w w' false q =
    let (n, o, c) = Quiet-failed now p w' in
    record { closes = omega (arith, q.closes, o, c); result = inl (n ∙ q.network) }

-- Sending a payout closes every wallet that it opens, and broadcasts nothing, or exactly one
-- transaction, whose hash the row of the payout then holds with the status `sent`.
pub send_one-Attempt :
    (now k : ℕ) (coin : Coin) (w : World)
    → ((p : PayoutRow) → lookup k w.payouts ≡ some p → p.id ≡ k)
    → Attempt k w (send_one now coin k w)
unfolding send_one
send_one-Attempt now k coin w keyed = elim (Option-cases (lookup k w.payouts)) [
  | inl e ↦ rw (e, send_one) record { closes = omega arith; result = inl refl }
  | inr (p, e) ↦ elim (send_payout-cases now coin p w) [
    | inl q ↦
        rw (e, send_one)
          (Attempt-rest now k p w (send_payout now coin p w).1 (send_payout now coin p w).0 q)
    | inr (h, s, f) ↦ rw (e, send_one, f, sym (keyed p e)) (Attempt-paid_out now h p w s)
  ]
]

pub idle_once_sent :
    (now k : ℕ) (coin : Coin) (w : World) (p : PayoutRow)
    → lookup k w.payouts ≡ some p
    → p.status ≡ sent
    → send_one now coin k w ≡ w
unfolding send_one send_payout
idle_once_sent now k coin w p e s = rw (e, send_one, skipped_once_sent p s)

-- The row of the id `k` has this id.
abbrev pub Keyed : ℕ → World → Type 0
Keyed k w = (p : PayoutRow) → lookup k w.payouts ≡ some p → p.id ≡ k

-- A payout is sent again and again, each time at a time and with the answers of the coin's daemon then.
unfoldable pub send_repeatedly : ℕ → List (ℕ × Coin) → World → World
send_repeatedly k [] w = w
send_repeatedly k ((now, coin) ∷ calls) w = send_repeatedly k calls (send_one now coin k w)

-- A transaction is broadcast only if the fee that the daemon predicts for it is known and at most
-- the limit of the payout, converted like the amount, if it has one.
pub fee_is_limited :
    (coin : Coin) (convert : ℕ → ℕ) (raw limit h : ℕ)
    → broadcast_tx_flow coin convert raw (some limit) ≡ some (some h)
    → (fee : ℕ) × (coin.get_default_fee raw ≡ some fee) × (fee ≤ convert limit)
unfolding broadcast_tx_flow
fee_is_limited coin convert raw limit h e = elim (Option-cases (coin.get_default_fee raw)) [
  | inl f ↦ absurd (ground (arith, e, f))
  | inr (fee, f) ↦ (fee, f, ground (arith, e, f))
]
