-- ===== src/Daemon/Failover.antt =====
-- Several nodes for one coin: the class MultipleProviderRPC of daemons/utils.py. A request is sent
-- to the current node and, where it fails, to the next ones in a circle. What the nodes answer is an
-- argument; a call is atomic.
pub mod Order
pub mod Switch
pub mod Stable
use bitcart.Base.{
  ℕ, zero, suc, ◌+◌, ◌-◌, ◌%◌, Bool, true, false, ◌&&◌, Option, none, some, List, [], ◌∷◌, ltb,
  ◌==◌, if◌then◌else◌, length, get_or,
}
use bitcart.Base.Int.{ℤ, pos, negsuc, ◌+ℤ◌, pos_part}

-- The nodes are known by their index.
pub record Pool : Type 0 where
  pub current_rpc_idx : ℕ
  pub failed_stats : List ℕ

abbrev pub count : Pool → ℕ
count p = length p.failed_stats

abbrev pub next_rpc_switch_times : ℕ
next_rpc_switch_times = 5

abbrev pub rpc_up_check_times : ℕ
rpc_up_check_times = 5

unfoldable pub prev_rpc_idx : Pool → ℕ → ℕ
prev_rpc_idx p idx = (idx + count p - 1) % count p

unfoldable pub next_rpc_idx : Pool → ℕ → ℕ
next_rpc_idx p idx = (idx + 1) % count p

-- The argument `delta` of `_edit_failed_stats`.
pub data Delta : Type 0 where
  reset : Delta
  by : ℤ → Delta

unfoldable pub edited : Delta → ℕ → ℕ
unfolding ◌+ℤ◌
edited reset n = 0
edited (by d) n = pos_part (pos n +ℤ d)

-- A counter out of range, which is an exception, does not occur: a valid index is given.
unfoldable pub edit_at : Delta → List ℕ → ℕ → List ℕ
unfolding edited
edit_at d [] i = []
edit_at d (n ∷ ns) zero = edited d n ∷ ns
edit_at d (n ∷ ns) (suc i) = n ∷ edit_at d ns i

unfoldable pub edit_failed_stats : ℕ → Delta → Pool → Pool
unfolding edit_at
edit_failed_stats idx d p = record p { failed_stats = edit_at d p.failed_stats idx }

unfoldable pub prev_rpc : Pool → Pool
unfolding edit_failed_stats prev_rpc_idx
prev_rpc p =
    let p' = edit_failed_stats p.current_rpc_idx reset p in
    record p' { current_rpc_idx = prev_rpc_idx p' p.current_rpc_idx }

unfoldable pub next_rpc : Pool → Pool
unfolding edit_failed_stats next_rpc_idx
next_rpc p =
    let p' = edit_failed_stats p.current_rpc_idx reset p in
    record p' { current_rpc_idx = next_rpc_idx p' p.current_rpc_idx }

-- The handler of a failed attempt, up to the choice of the next node.
unfoldable pub after_failure : ℕ → Pool → Pool
unfolding next_rpc edit_failed_stats
after_failure idx p =
    let p' = edit_failed_stats idx (by (pos 1)) p in
    if ltb next_rpc_switch_times (get_or 0 p'.failed_stats idx) then next_rpc p' else p'

-- How a request ends: with the reply of a node, or with the exception of the last one.
pub data Outcome {ℓ} (A : Type ℓ) : Type ℓ where
  reply : ℕ → A → Outcome A
  failure : Outcome A

module _ {A : Type 0} (answers : ℕ → Option A) where
  -- The loop, with fuel; `none` if it ran out.
  unfoldable pub attempts : ℕ → ℕ → ℕ → Pool → Option (Outcome A × Pool)
  unfolding after_failure next_rpc_idx
  attempts zero start idx p = none
  attempts (suc fuel) start idx p = elim (answers idx) [
    | some a ↦ some (reply idx a, edit_failed_stats idx (by (negsuc 0)) p)
    | none ↦
        let p' = after_failure idx p in
        let idx' = next_rpc_idx p' idx in
        let rest = attempts fuel start idx' p' in if idx' == start then some (failure, p') else rest
  ]

  -- One unit of fuel for each node.
  unfoldable pub send_request : Pool → Option (Outcome A × Pool)
  send_request p = attempts (count p) p.current_rpc_idx p.current_rpc_idx p

-- `range(RPC_UP_CHECK_TIMES + 1)`: every ping is answered.
unfoldable pub is_stable : ℕ → (ℕ → Bool) → Bool
is_stable zero pings = true
is_stable (suc n) pings = pings n && is_stable n pings

-- One round of `maintain_stable_rpc`; `pings i k` says whether node `i` answers the ping number `k`.
unfoldable pub stable_round : (ℕ → ℕ → Bool) → Pool → Pool
unfolding prev_rpc is_stable
stable_round pings p =
    if p.current_rpc_idx == 0
    then p
    else if is_stable (rpc_up_check_times + 1) (pings (p.current_rpc_idx - 1))
    then prev_rpc p
    else p
