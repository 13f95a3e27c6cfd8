-- ===== src/Daemon/Failover/Switch.antt =====
-- When the current node changes.
use bitcart.Base.{
  ℕ, zero, suc, ◌+◌, ◌-◌, ◌<◌, ◌≤◌, ◌≡◌, refl, Option, none, some, arith, ◌==◌, if◌then◌else◌, ◌∙◌,
  ap, length, List, [], ◌∷◌, get_or, Bool-cases, inl, inr,
}
use bitcart.Base.Int.{pos, negsuc, ◌+ℤ◌}
use bitcart.Daemon.Failover.{
  Pool, count, Delta, reset, by, edited, edit_at, edit_failed_stats, next_rpc, next_rpc_idx,
  after_failure, Outcome, reply, attempts, send_request,
}
use bitcart.Daemon.Failover.Order.{
  count-edit, next_rpc-IsValid, after_failure-IsValid, next-inner, attempts-reply, attempts-next,
}

get-edit_at :
    (d : Delta) (ns : List ℕ) (i j : ℕ)
    → i < length ns
    → get_or 0 (edit_at d ns i) j ≡ (if i == j then edited d (get_or 0 ns i) else get_or 0 ns j)
unfolding edit_at
get-edit_at d [] i j h = absurd (omega (arith, h))
get-edit_at d (n ∷ ns) zero zero h = refl
get-edit_at d (n ∷ ns) zero (suc j) h = ground arith
get-edit_at d (n ∷ ns) (suc i) zero h = ground arith
get-edit_at d (n ∷ ns) (suc i) (suc j) h = ground (arith, get-edit_at d ns i j)

-- How often a node has failed, less its replies since, as the pool counts it.
abbrev pub failures : ℕ → Pool → ℕ
failures i p = get_or 0 p.failed_stats i

pub failures-edit :
    (i j : ℕ) (d : Delta) (p : Pool)
    → i < count p
    → failures j (edit_failed_stats i d p)
      ≡ (if i == j then edited d (failures i p) else failures j p)
unfolding edit_failed_stats
failures-edit i j d p h = get-edit_at d p.failed_stats i j h

edited-plus : (n : ℕ) → edited (by (pos 1)) n ≡ n + 1
unfolding edited ◌+ℤ◌
edited-plus n = ground arith

-- A failure that is not over the limit is only counted.
pub after_failure-counted :
    (i : ℕ) (p : Pool)
    → i < count p
    → failures i p < 5
    → after_failure i p ≡ edit_failed_stats i (by (pos 1)) p
unfolding after_failure edit_failed_stats
after_failure-counted i p h l =
    let q = edit_failed_stats i (by (pos 1)) p in
    ground (arith, failures-edit i i (by (pos 1)) p, edited-plus (failures i p))

-- A failure over the limit moves the pool from the current node to the next one, whichever node failed.
pub after_failure-moves :
    (i : ℕ) (p : Pool)
    → i < count p
    → 5 ≤ failures i p
    → after_failure i p ≡ next_rpc (edit_failed_stats i (by (pos 1)) p)
unfolding after_failure
after_failure-moves i p h l =
    ground (arith, failures-edit i i (by (pos 1)) p, edited-plus (failures i p))

-- What the move to the next node changes: the current node, and the counter of the one before.
pub failures-next_rpc :
    (j : ℕ) (p : Pool)
    → p.current_rpc_idx < count p
    → failures j (next_rpc p) ≡ (if p.current_rpc_idx == j then 0 else failures j p)
unfolding next_rpc edited
failures-next_rpc j p h = failures-edit p.current_rpc_idx j reset p h

pub current-next_rpc :
    (p : Pool)
    → p.current_rpc_idx + 1 < count p
    → (next_rpc p).current_rpc_idx ≡ p.current_rpc_idx + 1
unfolding next_rpc
current-next_rpc p h =
    let p' = edit_failed_stats p.current_rpc_idx reset p in
    next-inner p' p.current_rpc_idx (omega (arith, h, count-edit p.current_rpc_idx reset p))

count-cases : (p : Pool) (i : ℕ) → i + 2 ≤ count p → (m : ℕ) × (count p ≡ suc (suc m))
count-cases p i h = (count p - 2, omega (arith, h))

module _ {A : Type 0} (answers : ℕ → Option A) where
  -- The pool after a number of requests.
  pub after_requests : ℕ → Pool → Option Pool
  after_requests zero p = some p
  after_requests (suc n) p = elim (send_request answers p) [
    | none ↦ none
    | some (o, p') ↦ after_requests n p'
  ]

  module _ (i : ℕ) (a : A) (down : answers i ≡ none) (up : answers (i + 1) ≡ some a) where
    -- The current node fails, and the one after it replies.
    send_request-spare :
        (p : Pool)
        → p.current_rpc_idx ≡ i
        → i + 1 < count p
        → send_request answers p
          ≡ some (reply (i + 1) a, edit_failed_stats (i + 1) (by (negsuc 0)) (after_failure i p))
    unfolding send_request
    send_request-spare p e h =
        let (m, two) = count-cases p i (omega (arith, h)) in
        let valid = after_failure-IsValid i p (omega (arith, e, h)) in
        ap (λ k. attempts answers k p.current_rpc_idx p.current_rpc_idx p) two
        ∙ (ap (λ k. attempts answers (suc (suc m)) k k p) e
            ∙ (attempts-next answers (suc m) i i (i + 1) p down
                  (next-inner (after_failure i p) i (omega (arith, valid, h))) (omega arith)
                ∙ attempts-reply answers m i (i + 1) (after_failure i p) up))

    -- A request below the limit: the current node stays, with one more failure.
    counted :
        (p : Pool)
        → p.current_rpc_idx ≡ i
        → i + 1 < count p
        → failures i p < 5
        → (p' : Pool) × (send_request answers p ≡ some (reply (i + 1) a, p'))
          × (p'.current_rpc_idx ≡ i)
          × (i + 1 < count p')
          × (failures i p' ≡ failures i p + 1)
    unfolding edit_failed_stats
    counted p e h l =
        let q = edit_failed_stats i (by (pos 1)) p in
        let step =
          send_request-spare p e h
          ∙ ap (λ r. some (reply (i + 1) a, edit_failed_stats (i + 1) (by (negsuc 0)) r))
              (after_failure-counted i p (omega (arith, h)) l) in
        let same = count-edit i (by (pos 1)) p in
        (
          edit_failed_stats (i + 1) (by (negsuc 0)) q,
          step,
          e,
          omega (arith, same, h, count-edit (i + 1) (by (negsuc 0)) q),
          ground (
            arith,
            failures-edit (i + 1) i (by (negsuc 0)) q,
            failures-edit i i (by (pos 1)) p,
            edited-plus (failures i p),
            same,
          ),
        )

    -- The request over the limit: the node that replied is the current one.
    moved :
        (p : Pool)
        → p.current_rpc_idx ≡ i
        → i + 1 < count p
        → 5 ≤ failures i p
        → (p' : Pool) × (send_request answers p ≡ some (reply (i + 1) a, p'))
          × (p'.current_rpc_idx ≡ i + 1)
          × (failures i p' ≡ 0)
    unfolding edit_failed_stats
    moved p e h l =
        let q = edit_failed_stats i (by (pos 1)) p in
        let step =
          send_request-spare p e h
          ∙ ap (λ r. some (reply (i + 1) a, edit_failed_stats (i + 1) (by (negsuc 0)) r))
              (after_failure-moves i p (omega (arith, h)) l) in
        let same = count-edit i (by (pos 1)) p in
        (
          edit_failed_stats (i + 1) (by (negsuc 0)) (next_rpc q),
          step,
          current-next_rpc q (omega (arith, e, h, same)) ∙ omega (arith, e),
          ground (
            arith,
            failures-edit (i + 1) i (by (negsuc 0)) (next_rpc q),
            failures-next_rpc i q,
            next_rpc-IsValid q,
            same,
          ),
        )

    after_requests-suc :
        (n : ℕ) (p : Pool) {o : Outcome A} {p' : Pool}
        → send_request answers p ≡ some (o, p')
        → after_requests (suc n) p ≡ after_requests n p'
    unfolding after_requests
    after_requests-suc n p e = rw (e, after_requests)

    stays :
        (n : ℕ) (p : Pool)
        → p.current_rpc_idx ≡ i
        → i + 1 < count p
        → n + failures i p ≤ 5
        → (p' : Pool) × (after_requests n p ≡ some p')
          × (p'.current_rpc_idx ≡ i)
          × (failures i p' ≡ n + failures i p)
    unfolding after_requests
    stays zero p e h l = (p, refl, e, omega arith)
    stays (suc n) p e h l =
        let (q, step, e', h', f) = counted p e h (omega (arith, l)) in
        let (p', rest, e'', f') = stays n q e' h' (omega (arith, f, l)) in
        (p', after_requests-suc n p step ∙ rest, e'', omega (arith, f, f'))

    leaves :
        (n : ℕ) (p : Pool)
        → p.current_rpc_idx ≡ i
        → i + 1 < count p
        → n + failures i p ≡ 5
        → (p' : Pool) × (after_requests (suc n) p ≡ some p')
          × (p'.current_rpc_idx ≡ i + 1)
          × (failures i p' ≡ 0)
    unfolding after_requests
    leaves zero p e h l =
        let (p', step, e', f) = moved p e h (omega (arith, l)) in
        (p', after_requests-suc 0 p step, e', f)
    leaves (suc n) p e h l =
        let (q, step, e', h', f) = counted p e h (omega (arith, l)) in
        let (p', rest, e'', f') = leaves n q e' h' (omega (arith, f, l)) in
        (p', after_requests-suc (suc n) p step ∙ rest, e'', f')

    -- A node that has no failures, and is the current one, fails each request, and the node after it
    -- replies to each: after `n` requests with `n` up to 5 the node is still the current one and has
    -- `n` failures; after the sixth, the node after it is current and the counter is 0.
    pub left_on_sixth :
        (n : ℕ) (p : Pool)
        → p.current_rpc_idx ≡ i
        → i + 1 < count p
        → failures i p ≡ 0
        → n ≤ 6
        → (p' : Pool) × (after_requests n p ≡ some p')
          × (p'.current_rpc_idx ≡ (if n == 6 then i + 1 else i))
          × (failures i p' ≡ (if n == 6 then 0 else n))
    left_on_sixth n p e h z l = elim (Bool-cases (n == 6)) [
      | inl last ↦
          let six : n ≡ 6 = ground (arith, last) in rw six (leaves 5 p e h (omega (arith, z)))
      | inr below ↦
          let (p', all, e', f) = stays n p e h (ground (arith, below, z, l)) in
          (p', all, rw below e', rw below (f ∙ omega (arith, z)))
    ]

  -- Two nodes fail, one after the other, and the third one replies.
  send_request-two_fail :
      (i : ℕ) (a : A) (p q r : Pool)
      → p.current_rpc_idx ≡ i
      → i + 2 < count p
      → answers i ≡ none
      → answers (i + 1) ≡ none
      → answers (i + 2) ≡ some a
      → after_failure i p ≡ q
      → after_failure (i + 1) q ≡ r
      → count q ≡ count p
      → count r ≡ count p
      → send_request answers p ≡ some (reply (i + 2) a, edit_failed_stats (i + 2) (by (negsuc 0)) r)
  unfolding send_request
  send_request-two_fail i a p q r e h d d' u first second same same' =
      let m = count p - 3 in
      let three : count p ≡ suc (suc (suc m)) = omega (arith, h) in
      let to_second : next_rpc_idx (after_failure i p) i ≡ i + 1 =
        ap (λ t. next_rpc_idx t i) first ∙ next-inner q i (omega (arith, h, same)) in
      let to_third : next_rpc_idx (after_failure (i + 1) q) (i + 1) ≡ i + 2 =
        ap (λ t. next_rpc_idx t (i + 1)) second
        ∙ (next-inner r (i + 1) (omega (arith, h, same')) ∙ omega arith) in
      ap (λ k. attempts answers k p.current_rpc_idx p.current_rpc_idx p) three
      ∙ (ap (λ k. attempts answers (suc (suc (suc m))) k k p) e
          ∙ (attempts-next answers (suc (suc m)) i i (i + 1) p d to_second (omega arith)
              ∙ (ap (λ t. attempts answers (suc (suc m)) i (i + 1) t) first
                  ∙ (attempts-next answers (suc m) i (i + 1) (i + 2) q d' to_third (omega arith)
                      ∙ (ap (λ t. attempts answers (suc m) i (i + 2) t) second
                          ∙ attempts-reply answers m i (i + 2) r u)))))

  -- The current node fails and is below the limit; the next one fails over it, and the one after that
  -- replies: the pool moves to the node that has just failed over the limit, whose counter stays, and
  -- forgets the failures of the other.
  pub moves_to_failing :
      (i : ℕ) (a : A) (p : Pool)
      → p.current_rpc_idx ≡ i
      → i + 2 < count p
      → answers i ≡ none
      → answers (i + 1) ≡ none
      → answers (i + 2) ≡ some a
      → failures i p < 5
      → 5 ≤ failures (i + 1) p
      → (p' : Pool) × (send_request answers p ≡ some (reply (i + 2) a, p'))
        × (p'.current_rpc_idx ≡ i + 1)
        × (failures i p' ≡ 0)
        × (failures (i + 1) p' ≡ failures (i + 1) p + 1)
  unfolding edit_failed_stats
  moves_to_failing i a p e h d d' u low high =
      let q = edit_failed_stats i (by (pos 1)) p in
      let q' = edit_failed_stats (i + 1) (by (pos 1)) q in
      let same : count q ≡ count p = count-edit i (by (pos 1)) p in
      let same' : count q' ≡ count q = count-edit (i + 1) (by (pos 1)) q in
      let kept = failures-edit i (i + 1) (by (pos 1)) p (omega (arith, h)) in
      let after = next_rpc-IsValid q' (omega (arith, e, h, same, same')) in
      let second : after_failure (i + 1) q ≡ next_rpc q' =
        after_failure-moves (i + 1) q (omega (arith, h, same)) (ground (arith, kept, high)) in
      (
        edit_failed_stats (i + 2) (by (negsuc 0)) (next_rpc q'),
        send_request-two_fail i a p q (next_rpc q') e h d d' u
            (after_failure-counted i p (omega (arith, h)) low) second same
            (omega (arith, after, same, same')),
        current-next_rpc q' (omega (arith, e, h, same, same')) ∙ omega (arith, e),
        ground (
          arith,
          failures-edit (i + 2) i (by (negsuc 0)) (next_rpc q'),
          failures-next_rpc i q',
          after,
          same,
          same',
        ),
        ground (
          arith,
          failures-edit (i + 2) (i + 1) (by (negsuc 0)) (next_rpc q'),
          failures-next_rpc (i + 1) q',
          failures-edit (i + 1) (i + 1) (by (pos 1)) q,
          edited-plus (failures (i + 1) q),
          kept,
          after,
          same,
          same',
        ),
      )
