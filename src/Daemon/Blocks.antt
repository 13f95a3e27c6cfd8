-- ===== src/Daemon/Blocks.antt =====
-- Which blocks a daemon processes: `process_block`, `process_block_by_chunks` and `process_pending`
-- of daemons/genericprocessor.py. Blocks are given by their heights; an error in a block is caught
-- block by block, so the heights that are tried do not depend on it. The chunks run concurrently: their
-- heights are tried in any order that keeps the order within each chunk.
pub mod Window
use bitcart.Base.{
  append_nil, ℕ, ◌≡◌, refl, Bool, true, false, Option, none, some, List, [], ◌∷◌, ◌++◌, ◌+◌, ◌-◌,
  ◌≤◌, suc, zero, min, arith, leb, if◌then◌else◌, Bool-cases, inl, inr, ◌∙◌, ap, sym, ◌<◌, ltb,
  ◌&&◌, ◌==◌,
}

abbrev chunk_size : ℕ
chunk_size = 30

-- `count` heights from `start`.
unfoldable pub heights : ℕ → ℕ → List ℕ
heights start zero = []
heights start (suc n) = start ∷ heights (suc start) n

-- The heights that `process_block` tries: `range(start_height, end_height + 1)`
unfoldable pub process_block : ℕ → ℕ → List ℕ
process_block start stop = heights start (stop + 1 - start)

-- The tasks of the loop over `range(start_height, end_height + 1, CHUNK_SIZE)`, on fuel.
unfoldable pub chunks : ℕ → ℕ → ℕ → List (List ℕ)
chunks zero start stop = []
chunks (suc n) start stop =
    let rest = chunks n (start + chunk_size) stop in
    if leb start stop then process_block start (min (start + chunk_size - 1) stop) ∷ rest else []

-- The tasks that `process_block_by_chunks` gathers. One unit of fuel for each block is enough, since a
-- chunk has at least one.
unfoldable pub process_block_by_chunks : ℕ → ℕ → List (List ℕ)
process_block_by_chunks start stop = chunks (stop + 1 - start) start stop

-- A run of two tasks at once, by the heights that they try.
pub data Merges : List ℕ → List ℕ → List ℕ → Type 0 where
  ended : Merges [] [] []
  left : {x : ℕ} {xs ys zs : List ℕ} → Merges xs ys zs → Merges (x ∷ xs) ys (x ∷ zs)
  right : {y : ℕ} {xs ys zs : List ℕ} → Merges xs ys zs → Merges xs (y ∷ ys) (y ∷ zs)

-- `asyncio.gather`: a run of all tasks at once.
pub data Gathers : List (List ℕ) → List ℕ → Type 0 where
  no_tasks : Gathers [] []
  task :
      {xs ys zs : List ℕ} {tasks : List (List ℕ)}
      → Gathers tasks ys
      → Merges xs ys zs
      → Gathers (xs ∷ tasks) zs

-- `handled` are the heights that were tried so far.
pub record Daemon : Type 0 where
  pub latest_height : ℕ
  pub synchronized : Bool
  pub handled : List ℕ

-- The tasks of a round of `process_pending` that finds the height `current`.
unfoldable pub tasks_of : ℕ → ℕ → Daemon → List (List ℕ)
tasks_of max_sync_blocks current d =
    process_block_by_chunks (d.latest_height + 1) (min (d.latest_height + max_sync_blocks) current)

-- The body of the loop of `process_pending`, with the heights that its tasks try, in their order; `none`
-- if the height of the chain is not known, which is an exception.
unfoldable pub process_pending : Option ℕ → List ℕ → Daemon → Daemon
process_pending none tried d = d
process_pending (some current) tried d = record {
  latest_height = current;
  synchronized = true;
  handled = d.handled ++ tried;
}

-- How often a height occurs.
unfoldable pub count : ℕ → List ℕ → ℕ
count n [] = 0
count n (x ∷ xs) = (if x == n then 1 else 0) + count n xs

pub count-append : (n : ℕ) (xs ys : List ℕ) → count n (xs ++ ys) ≡ count n xs + count n ys
unfolding count
count-append n [] ys = omega arith
count-append n (x ∷ xs) ys = omega (arith, count-append n xs ys)

unfoldable pub count_all : ℕ → List (List ℕ) → ℕ
unfolding count
count_all n [] = 0
count_all n (xs ∷ tasks) = count n xs + count_all n tasks

count-Merges : (n : ℕ) {xs ys zs : List ℕ} → Merges xs ys zs → count n zs ≡ count n xs + count n ys
unfolding count
count-Merges n ended = omega arith
count-Merges n (left m) = omega (arith, count-Merges n m)
count-Merges n (right m) = omega (arith, count-Merges n m)

-- A run tries a height as often as its tasks do.
pub count-Gathers :
    (n : ℕ) {tasks : List (List ℕ)} {tried : List ℕ}
    → Gathers tasks tried
    → count n tried ≡ count_all n tasks
unfolding count_all
count-Gathers n no_tasks = refl
count-Gathers n (task g m) = omega (arith, count-Gathers n g, count-Merges n m)

count-heights : (n a k : ℕ) → count n (heights a k) ≡ (if leb a n && ltb n (a + k) then 1 else 0)
unfolding heights count
count-heights n a zero = ground arith
count-heights n a (suc k) = ground (arith, count-heights n (suc a) k)

pub count-process_block :
    (n start stop : ℕ)
    → count n (process_block start stop) ≡ (if leb start n && leb n stop then 1 else 0)
unfolding process_block
count-process_block n start stop = ground (arith, count-heights n start (stop + 1 - start))

chunks-enough :
    (n fuel start stop : ℕ)
    → stop + 1 - start ≤ fuel
    → count_all n (chunks fuel start stop) ≡ (if leb start n && leb n stop then 1 else 0)
unfolding chunks count_all
chunks-enough n zero start stop h = ground (arith, h)
chunks-enough n (suc fuel) start stop h = elim (Bool-cases (leb start stop)) [
  | inr b ↦ rw b (ground (arith, b))
  | inl b ↦
      let rest = chunks-enough n fuel (start + chunk_size) stop (omega (arith, h)) in
      rw (b, rest, count-process_block n start (min (start + chunk_size - 1) stop))
        (ground (arith, b))
]

-- The chunks cut the range of blocks: each block of it is in one chunk, once.
pub process_block_by_chunks_lem :
    (n start stop : ℕ)
    → count_all n (process_block_by_chunks start stop)
      ≡ (if leb start n && leb n stop then 1 else 0)
unfolding process_block_by_chunks
process_block_by_chunks_lem n start stop =
    chunks-enough n (stop + 1 - start) start stop (omega arith)
