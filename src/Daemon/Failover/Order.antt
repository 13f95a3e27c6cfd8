-- ===== src/Daemon/Failover/Order.antt =====
-- The order in which a request tries the nodes, and the indexes that stay in range.
use bitcart.Base.{
  ℕ, zero, suc, ◌+◌, ◌-◌, ◌≤◌, ◌<◌, ◌≡◌, refl, Option, none, some, List, [], ◌∷◌, ◌++◌, arith,
  length, inl, inr, ◌==◌, Option-cases, ◌≢◌, ◌∙◌, false, true,
}
use bitcart.Base.Int.{pos, negsuc}
use bitcart.Daemon.Failover.{
  Pool, count, Delta, reset, by, edit_at, edit_failed_stats, next_rpc_idx, next_rpc, prev_rpc,
  prev_rpc_idx, after_failure, Outcome, reply, failure, attempts, send_request,
}

-- The index of the current node is one of a node.
abbrev pub IsValid : Pool → Type 0
IsValid p = p.current_rpc_idx < count p

-- `count` indexes from `first`.
unfoldable pub indexes : ℕ → ℕ → List ℕ
indexes first zero = []
indexes first (suc n) = first ∷ indexes (suc first) n

-- Each node once: from the current one to the last, then from the first one.
unfoldable pub order : Pool → List ℕ
unfolding indexes
order p = indexes p.current_rpc_idx (count p - p.current_rpc_idx) ++ indexes 0 p.current_rpc_idx

module _ {A : Type 0} (answers : ℕ → Option A) where
  -- The reply of the first node of a list that answers.
  pub first_reply : List ℕ → Outcome A
  first_reply [] = failure
  first_reply (i ∷ is) = elim (answers i) [ some a ↦ reply i a | none ↦ first_reply is ]

length-edit_at : (d : Delta) (ns : List ℕ) (i : ℕ) → length (edit_at d ns i) ≡ length ns
unfolding edit_at
length-edit_at d [] i = refl
length-edit_at d (n ∷ ns) zero = refl
length-edit_at d (n ∷ ns) (suc i) = omega (arith, length-edit_at d ns i)

pub count-edit : (i : ℕ) (d : Delta) (p : Pool) → count (edit_failed_stats i d p) ≡ count p
unfolding edit_failed_stats
count-edit i d p = length-edit_at d p.failed_stats i

next-last : (p : Pool) (i : ℕ) → i + 1 ≡ count p → next_rpc_idx p i ≡ 0
unfolding next_rpc_idx
next-last p i h = grind arith

pub next-inner : (p : Pool) (i : ℕ) → i + 1 < count p → next_rpc_idx p i ≡ i + 1
unfolding next_rpc_idx
next-inner p i h = grind arith

pub next_rpc-IsValid :
    (p : Pool) → IsValid p → IsValid (next_rpc p) × (count (next_rpc p) ≡ count p)
unfolding next_rpc next_rpc_idx
next_rpc-IsValid p h = grind (arith, count-edit p.current_rpc_idx reset p)

pub prev_rpc-IsValid :
    (p : Pool) → IsValid p → IsValid (prev_rpc p) × (count (prev_rpc p) ≡ count p)
unfolding prev_rpc prev_rpc_idx
prev_rpc-IsValid p h = grind (arith, count-edit p.current_rpc_idx reset p)

pub after_failure-IsValid :
    (i : ℕ) (p : Pool)
    → IsValid p
    → IsValid (after_failure i p) × (count (after_failure i p) ≡ count p)
unfolding after_failure edit_failed_stats
after_failure-IsValid i p h =
    let p' = edit_failed_stats i (by (pos 1)) p in
    ground (arith, count-edit i (by (pos 1)) p, next_rpc-IsValid p')

module _ {A : Type 0} (answers : ℕ → Option A) where
  -- A node answers.
  pub attempts-reply :
      (fuel start i : ℕ) (p : Pool) {a : A}
      → answers i ≡ some a
      → attempts answers (suc fuel) start i p
        ≡ some (reply i a, edit_failed_stats i (by (negsuc 0)) p)
  unfolding attempts
  attempts-reply fuel start i p e = rw (e, attempts)

  -- A node fails, and the next one is tried.
  pub attempts-next :
      (fuel start i j : ℕ) (p : Pool)
      → answers i ≡ none
      → next_rpc_idx (after_failure i p) i ≡ j
      → j ≢ start
      → attempts answers (suc fuel) start i p ≡ attempts answers fuel start j (after_failure i p)
  unfolding attempts
  attempts-next fuel start i j p e next other =
      let other' : (next_rpc_idx (after_failure i p) i == start) ≡ false =
        ground (arith, next, other) in
      rw (e, attempts) (rw (other', next))

module _ {A : Type 0} (answers : ℕ → Option A) where
  -- The request ends in a pool that is as valid, with this outcome.
  abbrev Ends : Pool → Outcome A → Option (Outcome A × Pool) → Type 0
  Ends p o result = (p' : Pool) × (result ≡ some (o, p')) × IsValid p' × (count p' ≡ count p)

  first_reply-some :
      (i : ℕ) (is : List ℕ) {a : A} → answers i ≡ some a → first_reply answers (i ∷ is) ≡ reply i a
  unfolding first_reply
  first_reply-some i is e = rw (e, first_reply)

  first_reply-none :
      (i : ℕ) (is : List ℕ)
      → answers i ≡ none
      → first_reply answers (i ∷ is) ≡ first_reply answers is
  unfolding first_reply
  first_reply-none i is e = rw (e, first_reply)

  -- The node answers.
  Ends-reply :
      (fuel start i : ℕ) (p : Pool) (a : A)
      → IsValid p
      → answers i ≡ some a
      → Ends p (reply i a) (attempts answers (suc fuel) start i p)
  unfolding edit_failed_stats
  Ends-reply fuel start i p a h e = (
    edit_failed_stats i (by (negsuc 0)) p,
    attempts-reply answers fuel start i p e,
    omega (arith, count-edit i (by (negsuc 0)) p),
    count-edit i (by (negsuc 0)) p,
  )

  -- The node fails and was the last one.
  Ends-failure :
      (fuel start i : ℕ) (p : Pool)
      → IsValid p
      → answers i ≡ none
      → next_rpc_idx (after_failure i p) i ≡ start
      → Ends p failure (attempts answers (suc fuel) start i p)
  unfolding attempts
  Ends-failure fuel start i p h e last =
      let last' : (next_rpc_idx (after_failure i p) i == start) ≡ true = ground (arith, last) in
      let (valid, same) = after_failure-IsValid i p h in
      (after_failure i p, rw (e, attempts) (rw last'), valid, same)

  -- The node fails, and the next one is tried.
  Ends-next :
      (fuel start i j : ℕ) (p : Pool) (o : Outcome A)
      → IsValid p
      → answers i ≡ none
      → next_rpc_idx (after_failure i p) i ≡ j
      → j ≢ start
      → Ends (after_failure i p) o (attempts answers fuel start j (after_failure i p))
      → Ends p o (attempts answers (suc fuel) start i p)
  unfolding attempts
  Ends-next fuel start i j p o h e next other (p', eq, valid, same) = (
    p',
    attempts-next answers fuel start i j p e next other ∙ eq,
    valid,
    same ∙ (after_failure-IsValid i p h).1,
  )

  -- The nodes before the one that the request started at.
  attempts-second :
      (left start fuel i : ℕ) (p : Pool)
      → IsValid p
      → i + suc left ≡ start
      → start < count p
      → left < fuel
      → Ends p (first_reply answers (indexes i (suc left))) (attempts answers fuel start i p)
  unfolding indexes first_reply
  attempts-second left start zero i p h e s f = absurd (omega (arith, f))
  attempts-second zero start (suc fuel) i p h e s f = elim (Option-cases (answers i)) [
    | inr (a, found) ↦ rw (first_reply-some i [] found) (Ends-reply fuel start i p a h found)
    | inl missing ↦
        let (valid, same) = after_failure-IsValid i p h in
        rw (first_reply-none i [] missing) (
          Ends-failure fuel start i p h missing
            (next-inner (after_failure i p) i (omega (arith, same, s, e)) ∙ omega (arith, e)))
  ]
  attempts-second (suc left) start (suc fuel) i p h e s f = elim (Option-cases (answers i)) [
    | inr (a, found) ↦
        rw (first_reply-some i (indexes (suc i) (suc left)) found)
          (Ends-reply fuel start i p a h found)
    | inl missing ↦
        let (valid, same) = after_failure-IsValid i p h in
        rw (first_reply-none i (indexes (suc i) (suc left)) missing) (
          Ends-next fuel start i (suc i) p _ h missing
            (next-inner (after_failure i p) i (omega (arith, same, s, e)) ∙ omega arith)
            (omega (arith, e))
            (attempts-second left start fuel (suc i) (after_failure i p) valid (omega (arith, e))
              (omega (arith, same, s)) (omega (arith, f))))
  ]

  -- The nodes from the one that the request started at.
  attempts-first :
      (left start fuel i : ℕ) (p : Pool)
      → IsValid p
      → i + suc left ≡ count p
      → start ≤ i
      → left + start < fuel
      → Ends p
          (first_reply answers (indexes i (suc left) ++ indexes 0 start))
          (attempts answers fuel start i p)
  unfolding indexes first_reply
  attempts-first left start zero i p h e s f = absurd (omega (arith, f))
  attempts-first zero zero (suc fuel) i p h e s f = elim (Option-cases (answers i)) [
    | inr (a, found) ↦ rw (first_reply-some i [] found) (Ends-reply fuel 0 i p a h found)
    | inl missing ↦
        let (valid, same) = after_failure-IsValid i p h in
        rw (first_reply-none i [] missing) (
          Ends-failure fuel 0 i p h missing
            (next-last (after_failure i p) i (omega (arith, same, e))))
  ]
  attempts-first zero (suc start) (suc fuel) i p h e s f = elim (Option-cases (answers i)) [
    | inr (a, found) ↦
        rw (first_reply-some i (indexes 0 (suc start)) found)
          (Ends-reply fuel (suc start) i p a h found)
    | inl missing ↦
        let (valid, same) = after_failure-IsValid i p h in
        rw (first_reply-none i (indexes 0 (suc start)) missing) (
          Ends-next fuel (suc start) i 0 p _ h missing
            (next-last (after_failure i p) i (omega (arith, same, e))) (omega arith)
            (attempts-second start (suc start) fuel 0 (after_failure i p) valid (omega arith)
              (omega (arith, same, s, e)) (omega (arith, f))))
  ]
  attempts-first (suc left) start (suc fuel) i p h e s f = elim (Option-cases (answers i)) [
    | inr (a, found) ↦
        rw (first_reply-some i (indexes (suc i) (suc left) ++ indexes 0 start) found)
          (Ends-reply fuel start i p a h found)
    | inl missing ↦
        let (valid, same) = after_failure-IsValid i p h in
        rw (first_reply-none i (indexes (suc i) (suc left) ++ indexes 0 start) missing) (
          Ends-next fuel start i (suc i) p _ h missing
            (next-inner (after_failure i p) i (omega (arith, same, e)) ∙ omega arith)
            (omega (arith, s))
            (attempts-first left start fuel (suc i) (after_failure i p) valid
              (omega (arith, same, e)) (omega (arith, s)) (omega (arith, f))))
  ]

  -- In a valid pool a request ends, with the reply of the first node that answers, from the current
  -- one to the last and then from the first one, and with a failure exactly if none answers; the
  -- pool stays valid and keeps its nodes.
  pub send_request-order :
      (p : Pool)
      → IsValid p
      → (p' : Pool) × (send_request answers p ≡ some (first_reply answers (order p), p'))
        × IsValid p'
        × (count p' ≡ count p)
  unfolding send_request order
  send_request-order p h =
      let left = count p - p.current_rpc_idx - 1 in
      let all : suc left ≡ count p - p.current_rpc_idx = omega (arith, h) in
      rw (← all) (
        attempts-first left p.current_rpc_idx (count p) p.current_rpc_idx p h (omega (arith, h))
          (omega arith) (omega (arith, h)))
