-- ===== src/Tests/Schedules.antt =====
-- The schedule of backups over a few events.
use bitcart.Base.{◌≡◌, refl, true, false, none, some, [], ◌∷◌, arith}
use bitcart.Backups.{
  daily, weekly, Policy, absent, sleeping, Manager, due, process_new_policy, wake_up, start,
  start_backup_task, reset_task,
}
use bitcart.Backups.Schedule.{IsTimed, begins, goes_on, changes, wakes, Life-IsTimed}
use bitcart.Backups.Stale.{stale_change}

abbrev never : Policy
never = record { provider = 0; scheduled = false; frequency = weekly }

abbrev every_day : Policy
every_day = record { provider = 0; scheduled = true; frequency = daily }

abbrev idle : Manager
idle = record { policy = never; last_run = none; task = absent; backups = [] }

abbrev scheduled : Manager
scheduled = record idle { policy = every_day; last_run = some 100; task = sleeping 86501 }

turned_on : process_new_policy 100 never every_day idle ≡ some scheduled
unfolding process_new_policy start start_backup_task reset_task due
turned_on = refl

Life-IsTimed_example : IsTimed 86501 (wake_up 86501 true scheduled)
Life-IsTimed_example = Life-IsTimed {m = idle} refl refl refl (
    goes_on (goes_on begins (changes every_day (omega arith) (omega arith) turned_on))
      (wakes 86501 refl (omega arith) (omega arith) (omega arith)))

abbrev unscheduled : Manager
unscheduled = record scheduled { policy = never }

turned_off_late : process_new_policy 101 never never scheduled ≡ some unscheduled
unfolding process_new_policy
turned_off_late = refl

stale_change_example :
    (unscheduled.policy.scheduled ≡ false)
    × (unscheduled.task ≡ sleeping (due 100 100 daily))
    × ((wake_up 86501 true unscheduled).backups ≡ 86501 ∷ [])
stale_change_example =
    stale_change 100 101 86501 every_day never idle refl refl refl refl refl scheduled unscheduled
      turned_on turned_off_late
