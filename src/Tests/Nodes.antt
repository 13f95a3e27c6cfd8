-- ===== src/Tests/Nodes.antt =====
-- Requests over three nodes of a coin, and the events of wallets.
use bitcart.Base.{
  ℕ, ◌≡◌, refl, Bool, true, false, Option, none, some, List, [], ◌∷◌, arith, ◌==◌, if◌then◌else◌,
}
use bitcart.Daemon.Failover.{Pool, count, reply, send_request}
use bitcart.Daemon.Failover.Order.{IsValid, order, first_reply, send_request-order}
use bitcart.Daemon.Failover.Switch.{failures, moves_to_failing}
use bitcart.Daemon.Failover.Stable.{rounds, rounds-first}
use bitcart.Daemon.Events.{Feed, load_wallet, get_updates, run, Step, reports, polls}
use bitcart.Daemon.Events.Polled.{last, due, get_updates-due}

abbrev nodes : Pool
nodes = record { current_rpc_idx = 0; failed_stats = 2 ∷ 5 ∷ 0 ∷ [] }

-- Only the third node answers.
abbrev third : ℕ → Option ℕ
third n = if n == 2 then some 9 else none

third_replies : order nodes ≡ 0 ∷ 1 ∷ 2 ∷ []
unfolding order
third_replies = refl

send_request-order_example :
    (p : Pool) × (send_request third nodes ≡ some (first_reply third (order nodes), p))
    × IsValid p
    × (count p ≡ 3)
send_request-order_example = send_request-order third nodes (omega arith)

moves_to_failing_example :
    (p : Pool) × (send_request third nodes ≡ some (reply 2 9, p))
    × (p.current_rpc_idx ≡ 1)
    × (failures 0 p ≡ 0)
    × (failures 1 p ≡ 6)
moves_to_failing_example =
    moves_to_failing third 0 9 nodes refl (omega arith) refl refl refl (omega arith) (omega arith)

abbrev on_third : Pool
on_third = record nodes { current_rpc_idx = 2 }

abbrev all_up : ℕ → ℕ → Bool
all_up i k = true

rounds-first_example : (rounds 2 all_up on_third).current_rpc_idx ≡ 0
rounds-first_example = rounds-first 2 all_up on_third (omega arith) refl (λ i k h. refl)

abbrev no_events : Feed ℕ
no_events = record {
  wallets = 4 ∷ [];
  wallets_updates = (4, []) ∷ [];
  websockets = record { id = 1; closed = false; xpub = some 4 } ∷ [];
  sent = [];
}

-- Three events of the wallet 5, one of another one, and a poll after the first.
abbrev day : List (Step ℕ)
day =
    reports 60 (some 5)
    ∷ polls 5
    ∷ reports 61 none
    ∷ reports 62 (some 4)
    ∷ reports 63 (some 5)
    ∷ reports 64 (some 5)
    ∷ []

due_today : due 5 [] day ≡ 61 ∷ 63 ∷ 64 ∷ []
unfolding due
due_today = refl

get_updates-due_example :
    (get_updates 5 (run 2 day (load_wallet 5 no_events))).0 ≡ some (last 2 (due 5 [] day))
get_updates-due_example = get_updates-due 2 5 day no_events (refl, tt) refl tt
