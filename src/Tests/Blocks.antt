-- ===== src/Tests/Blocks.antt =====
-- The blocks of a daemon over a few rounds.
use bitcart.Base.{◌≡◌, refl, false, some, none, [], ◌∷◌}
use bitcart.Daemon.Blocks.{Daemon, Gathers, task, no_tasks, left, right, ended, process_pending}

abbrev started : Daemon
started = record { latest_height = 100; synchronized = false; handled = [] }

abbrev first_round : Daemon
first_round = process_pending (some 102) (101 ∷ 102 ∷ []) started

abbrev later : Daemon
later = process_pending (some 104) (103 ∷ 104 ∷ []) (process_pending none [] first_round)

-- Two chunks at once.
out_of_order : Gathers ((1 ∷ 2 ∷ []) ∷ (3 ∷ 4 ∷ []) ∷ []) (1 ∷ 3 ∷ 2 ∷ 4 ∷ [])
out_of_order = task (task no_tasks (left (left ended))) (left (right (left (right ended))))

tried : later.handled ≡ 101 ∷ 102 ∷ 103 ∷ 104 ∷ []
unfolding process_pending
tried = refl
