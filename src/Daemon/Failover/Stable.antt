-- ===== src/Daemon/Failover/Stable.antt =====
-- The way back to the preferred nodes.
use bitcart.Base.{
  ℕ, zero, suc, ◌-◌, ◌<◌, ◌≡◌, refl, Bool, true, false, Bool-cases, arith, inl, inr, ◌==◌, ◌∙◌, ap,
}
use bitcart.Daemon.Failover.{Pool, reset, prev_rpc, prev_rpc_idx, is_stable, stable_round}
use bitcart.Daemon.Failover.Order.{IsValid, count-edit, prev_rpc-IsValid}

-- As many rounds as the number says.
pub rounds : ℕ → (ℕ → ℕ → Bool) → Pool → Pool
rounds zero pings p = p
rounds (suc n) pings p = rounds n pings (stable_round pings p)

is_stable-answered :
    (n : ℕ) (pings : ℕ → Bool) → ((k : ℕ) → pings k ≡ true) → is_stable n pings ≡ true
unfolding is_stable
is_stable-answered zero pings h = refl
is_stable-answered (suc n) pings h = ground (arith, h n, is_stable-answered n pings h)

prev_rpc-inner :
    (p : Pool) (i : ℕ) → p.current_rpc_idx ≡ suc i → IsValid p → (prev_rpc p).current_rpc_idx ≡ i
unfolding prev_rpc prev_rpc_idx
prev_rpc-inner p i e h = grind (arith, count-edit p.current_rpc_idx reset p)

stable_round-inner :
    (pings : ℕ → ℕ → Bool) (p : Pool) (i : ℕ)
    → p.current_rpc_idx ≡ suc i
    → is_stable 6 (pings i) ≡ true
    → stable_round pings p ≡ prev_rpc p
unfolding stable_round
stable_round-inner pings p i e up =
    let (other, before) : ((p.current_rpc_idx == 0) ≡ false) × (p.current_rpc_idx - 1 ≡ i) =
      (ground arith, omega arith) in
    rw (other, before) (rw up)

-- While the nodes before the current one answer every ping, the first node is the current one after
-- as many rounds as there are nodes before it.
pub rounds-first :
    (n : ℕ) (pings : ℕ → ℕ → Bool) (p : Pool)
    → IsValid p
    → p.current_rpc_idx ≡ n
    → ((i k : ℕ) → i < n → pings i k ≡ true)
    → (rounds n pings p).current_rpc_idx ≡ 0
unfolding rounds
rounds-first zero pings p h e up = e
rounds-first (suc n) pings p h e up =
    let up' = is_stable-answered 6 (pings n) (λ k. up n k (omega arith)) in
    let moved = stable_round-inner pings p n e up' in
    ap (λ q. (rounds n pings q).current_rpc_idx) moved
    ∙ (rounds-first n pings (prev_rpc p) (prev_rpc-IsValid p h).0 (prev_rpc-inner p n e h)
        (λ i k l. up i k (omega (arith, l))))

is_stable-missed :
    (n k : ℕ) (pings : ℕ → Bool) → k < n → pings k ≡ false → is_stable n pings ≡ false
unfolding is_stable
is_stable-missed zero k pings l h = absurd (omega (arith, l))
is_stable-missed (suc n) k pings l h = elim (Bool-cases (n == k)) [
  | inl e ↦ let same : n ≡ k = ground (arith, e) in rw (same, h) refl
  | inr e ↦ ground (arith, is_stable-missed n k pings)
]

stable_round-missed :
    (pings : ℕ → ℕ → Bool) (p : Pool) (i k : ℕ)
    → p.current_rpc_idx ≡ suc i
    → k < 6
    → pings i k ≡ false
    → stable_round pings p ≡ p
unfolding stable_round
stable_round-missed pings p i k e l down =
    let (other, before) : ((p.current_rpc_idx == 0) ≡ false) × (p.current_rpc_idx - 1 ≡ i) =
      (ground arith, omega arith) in
    rw (other, before) (rw (is_stable-missed 6 k (pings i) l down))

-- A node that misses one of its pings in each round blocks the way back: the pool is as it was after
-- any number of rounds, also where every node before that one is up.
pub rounds-blocked :
    (n i k : ℕ) (pings : ℕ → ℕ → Bool) (p : Pool)
    → p.current_rpc_idx ≡ suc i
    → k < 6
    → pings i k ≡ false
    → rounds n pings p ≡ p
unfolding rounds
rounds-blocked zero i k pings p e l down = refl
rounds-blocked (suc n) i k pings p e l down =
    rw (stable_round-missed pings p i k e l down) (rounds-blocked n i k pings p e l down)
