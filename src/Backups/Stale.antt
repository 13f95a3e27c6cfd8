-- ===== src/Backups/Stale.antt =====
-- Where the schedule of the backups and the policy part.
use bitcart.Base.{ℕ, ◌≡◌, true, false, none, some, [], ◌∷◌, ◌++◌, arith, ◌∙◌}
use bitcart.Backups.{
  Policy, absent, sleeping, Manager, reset_task, due, reset, process_new_policy, wake_up,
}
use bitcart.Backups.Schedule.{turns_on, turns_off, stays_off, start-fresh}

-- Two changes of a policy without a schedule are handled one after the other, but both were asked for
-- while the first policy was stored: the first change turns the schedule on, and the second one off.
-- The policy that is stored then has no schedule, while the task goes on to sleep, and a backup is
-- made when it wakes up.
pub stale_change :
    (first second later : ℕ) (on off : Policy) (m : Manager)
    → m.policy.scheduled ≡ false
    → m.last_run ≡ none
    → m.task ≡ absent
    → on.scheduled ≡ true
    → off.scheduled ≡ false
    → (m' m'' : Manager) → process_new_policy first m.policy on m ≡ some m'
    → process_new_policy second m.policy off m' ≡ some m''
    → (m''.policy.scheduled ≡ false)
      × (m''.task ≡ sleeping (due first first on.frequency))
      × ((wake_up later true m'').backups ≡ m.backups ++ later ∷ [])
unfolding wake_up
stale_change first second later on off m s l t on' off' m' m'' e e' =
    let started =
      turns_on first m.policy on m s on'
      ∙ start-fresh first (record m { policy = on }) on' l (λ c. cc) in
    let kept = stays_off second m.policy off m' s off' in ground (arith, started, kept)

-- After a backup that raised an exception, the schedule cannot be turned off: the change of the policy
-- raises the exception of the task, and is not stored.
pub crashed_stays :
    (now later : ℕ) (new : Policy) (m : Manager)
    → m.policy.scheduled ≡ true
    → new.scheduled ≡ false
    → process_new_policy later m.policy new (wake_up now false m) ≡ none
unfolding wake_up reset reset_task
crashed_stays now later new m s n = turns_off later m.policy new (wake_up now false m) s n
