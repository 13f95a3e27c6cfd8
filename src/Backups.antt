-- ===== src/Backups.antt =====
-- The schedule of the backups: api/services/backup_manager.py. Times are seconds. The settings are the
-- rows that the manager reads and writes; what a backup does on the host is an argument.
pub mod Schedule
pub mod Stale
use bitcart.Base.{
  ℕ, ◌+◌, ◌*◌, Bool, true, false, not, ◌&&◌, Option, none, some, List, [], ◌∷◌, ◌++◌, ltb, leb,
  ◌==◌, if◌then◌else◌,
}

pub data Frequency : Type 0 where
  daily weekly monthly : Frequency

-- `DAY`
abbrev day : ℕ
day = 60 * 60 * 24

-- `FREQUENCIES`
abbrev pub seconds : Frequency → ℕ
seconds daily = day
seconds weekly = 7 * day
seconds monthly = 30 * day

abbrev pub same : Frequency → Frequency → Bool
same f g = seconds f == seconds g

-- `BackupsPolicy`; the environment variables are not read by the schedule.
pub record Policy : Type 0 where
  pub provider : ℕ
  pub scheduled : Bool
  pub frequency : Frequency

-- `self.task`: not there, asleep until a time, or ended, with an exception or without.
pub data Task : Type 0 where
  absent ended crashed : Task
  sleeping : ℕ → Task

-- The settings, the task, and the times at which a backup was made.
pub record Manager : Type 0 where
  pub policy : Policy
  pub last_run : Option ℕ
  pub task : Task
  pub backups : List ℕ

-- `reset_task`: whether it returns. To wait for a task that ended with an exception raises it.
unfoldable pub reset_task : Manager → Option Manager
reset_task m = elim m.task [ crashed ↦ none | _ ↦ some (record m { task = absent }) ]

-- `start_backup_task` with the time at which the task's sleep ends.
unfoldable pub start_backup_task : ℕ → ℕ → Bool → Manager → Option Manager
unfolding reset_task
start_backup_task now until fresh m = elim (reset_task m) [
  | none ↦ none
  | some m' ↦
      let m'' = if fresh then record m' { last_run = some now } else m' in
      some (record m'' { task = sleeping until })
]

-- `state.last_run` is falsy: nothing, or 0.
abbrev pub truthy : Option ℕ → Option ℕ
truthy none = none
truthy (some t) = if t == 0 then none else some t

-- The end of a sleep for the seconds that are left of the frequency, and one more.
unfoldable pub due : ℕ → ℕ → Frequency → ℕ
due now last frequency =
    if leb (last + seconds frequency + 1) now then now else last + seconds frequency + 1

-- `start`, whose task reads the settings after they were committed.
unfoldable pub start : ℕ → Manager → Option Manager
unfolding start_backup_task
start now m =
    if m.policy.scheduled
    then elim (truthy m.last_run) [
      | some last ↦ start_backup_task now (due now last m.policy.frequency) false m
      | none ↦ start_backup_task now (due now now m.policy.frequency) true m
    ]
    else some m

unfoldable pub reset : Manager → Option Manager
unfolding reset_task
reset m = elim (reset_task m) [ none ↦ none | some m' ↦ some (record m' { last_run = none }) ]

-- `process_new_policy`; where an exception ends it, the policy is not committed.
unfoldable pub process_new_policy : ℕ → Policy → Policy → Manager → Option Manager
process_new_policy now old new m =
    let m' = record m { policy = new } in
    if old.scheduled && not new.scheduled
    then reset m'
    else if not old.scheduled && new.scheduled
    then start now m'
    else if new.scheduled && not (same old.frequency new.frequency)
    then elim (reset m') [ none ↦ none | some m'' ↦ start now m'' ]
    else some m'

-- The end of the sleep of `backup_task` at the time `now`; `ok` says that the backup raised no
-- exception. The task that waits for itself in `reset_task` goes on.
unfoldable pub wake_up : ℕ → Bool → Manager → Manager
wake_up now ok m =
    if not ok
    then record m { task = crashed }
    else if m.policy.scheduled
    then record m {
      last_run = some now;
      task = sleeping (due now now m.policy.frequency);
      backups = m.backups ++ now ∷ [];
    }
    else record m { task = ended; backups = m.backups ++ now ∷ [] }

-- A restart of the worker: the task is lost, and `start` is called.
unfoldable pub restart : ℕ → Manager → Option Manager
unfolding start
restart now m = start now (record m { task = absent })
