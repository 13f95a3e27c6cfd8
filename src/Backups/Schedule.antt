-- ===== src/Backups/Schedule.antt =====
-- When backups are made.
use bitcart.Base.{
  ℕ, ◌+◌, ◌≤◌, ◌<◌, ◌≡◌, ◌≢◌, refl, Bool, true, false, Option, none, some, arith, ◌⊎◌, inl, inr,
  ◌∙◌, Bool-cases, leb,
}
use mathlib.Core.Path.{subst}
use bitcart.Backups.{
  Frequency, seconds, same, Policy, Task, absent, sleeping, Manager, reset_task, start_backup_task,
  due, start, reset, process_new_policy, wake_up, restart,
}

-- No task sleeps.
abbrev pub is_idle : Task → Bool
is_idle (sleeping until) = false
is_idle _ = true

-- The next backup is due one second after the frequency has passed since the last run, or is overdue
-- at the time `now`.
abbrev pub IsDue : ℕ → ℕ → Frequency → ℕ → Type 0
IsDue now last f until =
    (until ≡ last + seconds f + 1) ⊎ ((last + seconds f + 1 ≤ until) × (until ≤ now))

-- What holds between two events at the time `now`: a schedule has a task that waits for the next
-- backup; without one nothing waits, and no run is noted.
pub data IsTimed (now : ℕ) (m : Manager) : Type 0 where
  waits :
      (last until : ℕ)
      → m.policy.scheduled ≡ true
      → m.last_run ≡ some last
      → 0 < last
      → last ≤ now
      → m.task ≡ sleeping until
      → IsDue now last m.policy.frequency until
      → IsTimed now m
  rests :
      m.policy.scheduled ≡ false
      → m.last_run ≡ none
      → is_idle m.task ≡ true
      → m.task ≢ Task.crashed
      → IsTimed now m

-- A start of a fresh schedule, and one that goes on with the last run.
pub start-fresh :
    (now : ℕ) (m : Manager)
    → m.policy.scheduled ≡ true
    → m.last_run ≡ none
    → m.task ≢ Task.crashed
    → start now m
      ≡ some (record m { last_run = some now; task = sleeping (due now now m.policy.frequency) })
unfolding start start_backup_task reset_task
start-fresh now m s l c = ground (arith, s, l, c)

start-again :
    (now last : ℕ) (m : Manager)
    → m.policy.scheduled ≡ true
    → m.last_run ≡ some last
    → 0 < last
    → m.task ≢ Task.crashed
    → start now m ≡ some (record m { task = sleeping (due now last m.policy.frequency) })
unfolding start start_backup_task reset_task
start-again now last m s l h c = ground (arith, s, l, h, c)

start-off : (now : ℕ) (m : Manager) → m.policy.scheduled ≡ false → start now m ≡ some m
unfolding start
start-off now m s = ground (arith, s)

due-IsDue : (now last : ℕ) (f : Frequency) → IsDue now last f (due now last f)
unfolding due
due-IsDue now last f = elim (Bool-cases (leb (last + seconds f + 1) now)) [
  | inl e ↦ rw e (inr (ground (arith, e), omega arith))
  | inr e ↦ rw e (inl refl)
]

-- What happens to the manager, from a state at one time to a state at a later one. A change of the
-- policy is handed the policy that is stored; a backup is made once its time has come.
pub data Step (now later : ℕ) (m : Manager) : Manager → Type 0 where
  changes :
      {m' : Manager} (new : Policy)
      → now ≤ later
      → 0 < later
      → process_new_policy later m.policy new m ≡ some m'
      → Step now later m m'
  restarts : {m' : Manager} → now ≤ later → restart later m ≡ some m' → Step now later m m'
  wakes :
      (until : ℕ)
      → m.task ≡ sleeping until
      → until ≤ later
      → now ≤ later
      → 0 < later
      → Step now later m (wake_up later true m)

-- What a call that succeeds leaves.
IsTimed-some :
    (now : ℕ) (o : Option Manager) (m m' : Manager)
    → o ≡ some m
    → o ≡ some m'
    → IsTimed now m
    → IsTimed now m'
IsTimed-some now o m m' e e' t = let same : m ≡ m' = cc in subst (IsTimed now) same t

fresh-IsTimed :
    (now : ℕ) (m : Manager)
    → 0 < now
    → m.policy.scheduled ≡ true
    → IsTimed now
        (record m { last_run = some now; task = sleeping (due now now m.policy.frequency) })
fresh-IsTimed now m h s =
    waits now (due now now m.policy.frequency) s refl h (omega arith) refl
      (due-IsDue now now m.policy.frequency)

later-IsTimed : (now later : ℕ) (m : Manager) → now ≤ later → IsTimed now m → IsTimed later m
later-IsTimed now later m h (waits last until s l p q t d) =
    waits last until s l p (omega (arith, q, h)) t (IsDue-later d)
  where
    IsDue-later :
        IsDue now last m.policy.frequency until → IsDue later last m.policy.frequency until
    IsDue-later (inl e) = inl e
    IsDue-later (inr (a, b)) = inr (a, omega (arith, b, h))
later-IsTimed now later m h (rests s l i c) = rests s l i c

wakes-IsTimed :
    (now later until : ℕ) (m : Manager)
    → 0 < later
    → m.task ≡ sleeping until
    → IsTimed now m
    → IsTimed later (wake_up later true m)
unfolding wake_up
wakes-IsTimed now later until m h t (waits last u s l p q t' d) = simp s (
    waits later (due later later m.policy.frequency) s refl h (omega arith) refl
      (due-IsDue later later m.policy.frequency))
wakes-IsTimed now later until m h t (rests s l i c) = absurd (ground (arith, t, i))

restart-IsTimed :
    (now later : ℕ) (m m' : Manager)
    → now ≤ later
    → IsTimed now m
    → restart later m ≡ some m'
    → IsTimed later m'
unfolding restart
restart-IsTimed now later m m' h (waits last until s l p q t d) e =
    let m0 = record m { task = absent } in
    IsTimed-some later (start later m0) _ m' (start-again later last m0 s l p (λ c. cc)) e (
      waits last (due later last m.policy.frequency) s l p (omega (arith, q, h)) refl
        (due-IsDue later last m.policy.frequency))
restart-IsTimed now later m m' h (rests s l i c) e =
    let m0 = record m { task = absent } in
    IsTimed-some later (start later m0) m0 m' (start-off later m0 s) e (rests s l refl (λ c'. cc))

reset_task-idle :
    (m : Manager) → m.task ≢ Task.crashed → reset_task m ≡ some (record m { task = absent })
unfolding reset_task
reset_task-idle m c = ground (arith, c)

reset_lem :
    (m : Manager)
    → m.task ≢ Task.crashed
    → reset m ≡ some (record m { task = absent; last_run = none })
unfolding reset
reset_lem m c = rw (reset_task-idle m c, reset) refl

-- The branches of `process_new_policy`.
module _ (later : ℕ) (old new : Policy) (m : Manager) where
  pub turns_on :
      old.scheduled ≡ false
      → new.scheduled ≡ true
      → process_new_policy later old new m ≡ start later (record m { policy = new })
  unfolding process_new_policy
  turns_on s n = ground (arith, s, n)

  pub turns_off :
      old.scheduled ≡ true
      → new.scheduled ≡ false
      → process_new_policy later old new m ≡ reset (record m { policy = new })
  unfolding process_new_policy
  turns_off s n = ground (arith, s, n)

  pub stays_off :
      old.scheduled ≡ false
      → new.scheduled ≡ false
      → process_new_policy later old new m ≡ some (record m { policy = new })
  unfolding process_new_policy
  stays_off s n = ground (arith, s, n)

  keeps_frequency :
      old.scheduled ≡ true
      → new.scheduled ≡ true
      → same old.frequency new.frequency ≡ true
      → process_new_policy later old new m ≡ some (record m { policy = new })
  unfolding process_new_policy
  keeps_frequency s n f = simp (s, n, f)

  changes_frequency :
      {m' : Manager}
      → old.scheduled ≡ true
      → new.scheduled ≡ true
      → same old.frequency new.frequency ≡ false
      → reset (record m { policy = new }) ≡ some m'
      → process_new_policy later old new m ≡ start later m'
  unfolding process_new_policy
  changes_frequency s n f r = simp (s, n, f, r)

-- The policy is changed while there is no schedule.
rests-changes :
    (later : ℕ) (m m' : Manager) (new : Policy)
    → 0 < later
    → m.policy.scheduled ≡ false
    → m.last_run ≡ none
    → is_idle m.task ≡ true
    → m.task ≢ Task.crashed
    → process_new_policy later m.policy new m ≡ some m'
    → IsTimed later m'
rests-changes later m m' new h s l i c e = elim (Bool-cases new.scheduled) [
  | inl on ↦
      IsTimed-some later _ _ m'
        (turns_on later m.policy new m s on ∙ start-fresh later (record m { policy = new }) on l c)
        e (fresh-IsTimed later (record m { policy = new }) h on)
  | inr off ↦ IsTimed-some later _ _ m' (stays_off later m.policy new m s off) e (rests off l i c)
]

same-seconds : (f g : Frequency) → same f g ≡ true → seconds f ≡ seconds g
same-seconds f g h = ground (arith, h)

-- The policy is changed while there is one.
waits-changes :
    (later last until : ℕ) (m m' : Manager) (new : Policy)
    → 0 < later
    → m.policy.scheduled ≡ true
    → m.last_run ≡ some last
    → 0 < last
    → last ≤ later
    → m.task ≡ sleeping until
    → IsDue later last m.policy.frequency until
    → process_new_policy later m.policy new m ≡ some m'
    → IsTimed later m'
waits-changes later last until m m' new h s l p q t d e =
    let awake : m.task ≢ Task.crashed = λ c. cc in
    let stopped = reset_lem (record m { policy = new }) awake in
    elim (Bool-cases new.scheduled) [
      | inr off ↦
          IsTimed-some later _ _ m' (turns_off later m.policy new m s off ∙ stopped) e
            (rests off refl refl (λ c. cc))
      | inl on ↦ elim (Bool-cases (same m.policy.frequency new.frequency)) [
        | inl f ↦ IsTimed-some later _ _ m' (keeps_frequency later m.policy new m s on f) e (
            waits last until on l p q t (
              subst (λ n. (until ≡ last + n + 1) ⊎ ((last + n + 1 ≤ until) × (until ≤ later)))
                (same-seconds m.policy.frequency new.frequency f) d))
        | inr f ↦
            let m0 = record m { policy = new; task = absent; last_run = none } in
            IsTimed-some later _ _ m'
              (changes_frequency later m.policy new m s on f stopped
                ∙ start-fresh later m0 on refl (λ c. cc))
              e (fresh-IsTimed later m0 h on)
      ]
    ]

Step-IsTimed :
    {now later : ℕ} {m m' : Manager} → Step now later m m' → IsTimed now m → IsTimed later m'
Step-IsTimed {now} {later} {m} (changes {m'} new h pos e) t = elim (later-IsTimed now later m h t) [
  | rests s l i c ↦ rests-changes later m m' new pos s l i c e
  | waits last until s l p q t' d ↦ waits-changes later last until m m' new pos s l p q t' d e
]
Step-IsTimed {now} {later} {m} (restarts {m'} h e) t = restart-IsTimed now later m m' h t e
Step-IsTimed {now} {later} {m} (wakes until s u h pos) t = wakes-IsTimed now later until m pos s t

-- A life of the manager, from a first state at the time 0.
pub data Life (m : Manager) : ℕ → Manager → Type 0 where
  begins : Life m 0 m
  goes_on :
      {now later : ℕ} {m' m'' : Manager} → Life m now m' → Step now later m' m'' → Life m later m''

-- From a manager without a schedule, whatever policies are stored one after another, each handled with the
-- policy that it replaces as the old one, whenever the worker is restarted, and while no backup raises an
-- exception: if backups are scheduled, the task sleeps until one second after the frequency has passed
-- since the last run, or is overdue already; if not, no task sleeps.
pub Life-IsTimed :
    {m : Manager} {now : ℕ} {m' : Manager}
    → m.policy.scheduled ≡ false
    → m.last_run ≡ none
    → m.task ≡ absent
    → Life m now m'
    → IsTimed now m'
Life-IsTimed s l t begins = rests s l (ground (arith, t)) (λ c. cc)
Life-IsTimed s l t (goes_on life step) = Step-IsTimed step (Life-IsTimed s l t life)
