-- ===== src/Daemon/Blocks/Window.antt =====
-- Which blocks a daemon has tried after any number of rounds of `process_pending`.
use bitcart.Base.{
  ℕ, ◌≡◌, refl, none, some, List, ◌+◌, ◌≤◌, ◌<◌, min, arith, leb, ltb, ◌&&◌, if◌then◌else◌,
}
use bitcart.Daemon.Blocks.{
  Daemon, Gathers, tasks_of, process_pending, process_block_by_chunks_lem, count, count-append,
  count-Gathers,
}

-- Rounds from `d` to a later daemon, with at most `m` new blocks each, whose chunks run in any order; in
-- some the height is not known.
pub data Rounds (m : ℕ) (d : Daemon) : Daemon → Type 0 where
  none_yet : Rounds m d d
  caught_up :
      {e : Daemon} (current : ℕ) (tried : List ℕ)
      → Rounds m d e
      → Gathers (tasks_of m current e) tried
      → e.latest_height ≤ current
      → current ≤ e.latest_height + m
      → Rounds m d (process_pending (some current) tried e)
  unknown : {e : Daemon} → Rounds m d e → Rounds m d (process_pending none List.[] e)

-- A round tries each block of its window once.
count-round :
    (n m current : ℕ) (tried : List ℕ) (e : Daemon)
    → Gathers (tasks_of m current e) tried
    → count n (process_pending (some current) tried e).handled
      ≡ count n e.handled
        + (if ltb e.latest_height n && leb n (min (e.latest_height + m) current) then 1 else 0)
unfolding process_pending tasks_of
count-round n m current tried e g = ground (
  arith,
  count-append n e.handled tried,
  count-Gathers n g,
  process_block_by_chunks_lem n (e.latest_height + 1) (min (e.latest_height + m) current),
)

latest-process_pending :
    (current : ℕ) (tried : List ℕ) (d : Daemon)
    → (process_pending (some current) tried d).latest_height ≡ current
unfolding process_pending
latest-process_pending current tried d = refl

unknown_idle : (d : Daemon) → process_pending none List.[] d ≡ d
unfolding process_pending
unknown_idle d = refl

pub no_block_is_missed :
    (m n : ℕ) (d e : Daemon)
    → Rounds m d e
    → (d.latest_height ≤ e.latest_height)
      × (count n e.handled
          ≡ count n d.handled + (if ltb d.latest_height n && leb n e.latest_height then 1 else 0))
no_block_is_missed m n d _ none_yet = (omega arith, ground arith)
no_block_is_missed m n d _ (unknown {e} r) = rw (unknown_idle e) (no_block_is_missed m n d e r)
no_block_is_missed m n d _ (caught_up {e} current tried r g low high) =
    let (le, eq) = no_block_is_missed m n d e r in
    rw (latest-process_pending current tried e)
      (omega (arith, le, low), ground (arith, count-round n m current tried e g, eq, le, low, high))

-- Blocks beyond the window of a round are skipped for good: they are not tried in the round, nor in
-- any number of later ones.
pub blocks_are_skipped :
    (m current n : ℕ) (tried : List ℕ) (d e : Daemon)
    → d.latest_height + m < n
    → n ≤ current
    → count n d.handled ≡ 0
    → Gathers (tasks_of m current d) tried
    → Rounds m (process_pending (some current) tried d) e
    → count n e.handled ≡ 0
blocks_are_skipped m current n tried d e h k c g r = ground (
  arith,
  (no_block_is_missed m n (process_pending (some current) tried d) e r).1,
  count-round n m current tried d g,
  latest-process_pending current tried d,
)
