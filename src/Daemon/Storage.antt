-- ===== src/Daemon/Storage.antt =====
-- The files of a daemon: `Storage`, `JsonDB` and `WalletDB` of daemons/storage.py. A file is a JSON
-- object of three levels at most, which is what the files of wallets have; the names of its members are
-- numbers. Python's `json` and its `==` on values are parameters. `none` is an exception.
pub mod Reopen
pub mod Synced
pub mod Upgrades
use bitcart.Base.{
  ℕ, zero, suc, Bool, true, false, not, ◌&&◌, ◌||◌, ◌==◌, ltb, Option, none, some, List, [], ◌∷◌,
  if◌then◌else◌, ◌>>=◌, is_some, ◌≡◌,
}
use bitcart.Base.Dict.{Dict, lookup, insert, erase}

pub data Field : Type 0 where
  null : Field
  number text : ℕ → Field
  hashes : List ℕ → Field

pub data Value : Type 0 where
  field : Field → Value
  object : Dict Field → Value
  table : Dict (Dict Field) → Value

-- The member "version" of a file.
abbrev pub version : ℕ
version = 0

-- `get(key, default)`: a null counts as missing.
unfoldable pub get : ℕ → Value → Dict Value → Value
get k default d = elim (lookup k d) [ none ↦ default | some (field null) ↦ default | some v ↦ v ]

-- `JsonDB`
pub record JsonDb : Type 0 where
  pub contents : Dict Value
  pub modified : Bool

-- What Python and its `json` do with values: `same a b` is `a == b`, `is_json` tells what can be dumped.
pub record Json : Type 1 where
  pub Text : Type 0
  pub same : Value → Value → Bool
  pub same_self : (v : Value) → same v v ≡ true
  pub is_json : Value → Bool
  pub dumps : Dict Value → Text
  pub loads : Text → Option (Dict Value)
  pub loads_dumps : (d : Dict Value) → loads (dumps d) ≡ some d

module _ (J : Json) where
  open J use {Text, same, is_json, dumps, loads}

  abbrev pub holds_same : Option Value → Value → Bool
  holds_same none v = false
  holds_same (some w) v = same w v

  -- `put(key, value)`, with its result; a value of None removes the key.
  unfoldable pub put : ℕ → Option Value → JsonDb → Bool × JsonDb
  put k none db =
      (is_some (lookup k db.contents), record { contents = erase k db.contents; modified = true })
  put k (some v) db =
      if is_json v && not (holds_same (lookup k db.contents) v)
      then (true, record { contents = insert k v db.contents; modified = true })
      else (false, record { contents = db.contents; modified = true })

  -- `StoredDict.__setitem__` and `__delitem__` on the contents; deleting a missing key is an exception.
  unfoldable pub set_item : ℕ → Value → JsonDb → JsonDb
  set_item k v db =
      if holds_same (lookup k db.contents) v
      then db
      else record { contents = insert k v db.contents; modified = true }

  unfoldable pub del_item : ℕ → JsonDb → Option JsonDb
  del_item k db =
      if is_some (lookup k db.contents)
      then some (record { contents = erase k db.contents; modified = true })
      else none

  -- `Storage`: what is known of the file, and the file itself.
  pub record Storage : Type 0 where
    pub in_memory_only : Bool
    pub file_exists : Bool
    pub file : Option Text

  unfoldable pub open_storage : Bool → Option Text → Storage
  open_storage in_memory_only file = record {
    in_memory_only = in_memory_only;
    file_exists = in_memory_only || is_some file;
    file = file;
  }

  -- `raw`
  unfoldable pub read : Storage → Option Text
  read s = if s.in_memory_only then none else s.file

  -- `Storage.write`: a file that another process has created meanwhile is not replaced.
  unfoldable pub write_storage : Text → Storage → Option Storage
  write_storage t s =
      if s.in_memory_only
      then some s
      else if not s.file_exists && is_some s.file
      then none
      else some (record { in_memory_only = false; file_exists = true; file = some t })

  -- `WalletDB.write`
  unfoldable pub write : JsonDb → Storage → Option (JsonDb × Storage)
  write db s =
      if db.modified
      then (write_storage (dumps db.contents) s >>= λ t.
          some (record { contents = db.contents; modified = false }, t))
      else some (db, s)

-- `get_version`, for a daemon whose `STORAGE_VERSION` is `current`: a missing or zero version is the
-- current one, and a newer one an exception.
abbrev checked_version : ℕ → Value → Option ℕ
checked_version current (field null) = some current
checked_version current (field (number n)) =
    if n == 0 then some current else if ltb current n then none else some n
checked_version current _ = none

unfoldable pub get_version : ℕ → Dict Value → Option ℕ
get_version current d = checked_version current (get version (field null) d)

-- `_is_upgrade_method_needed`
unfoldable pub is_upgrade_method_needed : ℕ → ℕ → ℕ → Dict Value → Option Bool
is_upgrade_method_needed current min_version max_version d =
    if ltb max_version min_version
    then none
    else get_version current d >>= λ n.
        if ltb max_version n then some false else if ltb n min_version then none else some true

module _ (J : Json) (current : ℕ) (run_upgrades : Dict Value → Option (Dict Value)) where
  open J use {Text, loads}

  -- `_after_upgrade_tasks`: the items of a `StoredDict` mark the file as modified.
  unfoldable pub after_upgrade_tasks : JsonDb → JsonDb
  after_upgrade_tasks db = record {
    contents = db.contents;
    modified = db.modified || elim db.contents [ [] ↦ false | e ∷ es ↦ true ];
  }

  -- `upgrade`
  unfoldable pub upgrade : Dict Value → Option JsonDb
  upgrade d = run_upgrades d >>= λ e. some (
      after_upgrade_tasks
        (put J version (some (field (number current)))
          (record { contents = e; modified = false })).1)

  -- `load_data`
  unfoldable pub load_data : Text → Option JsonDb
  load_data t = loads t >>= λ d. get_version current d >>= λ n.
      if ltb n current then upgrade d else some (record { contents = d; modified = false })

  -- `WalletDB.__init__`
  unfoldable pub open_db : Option Text → Option JsonDb
  open_db none = some (
      after_upgrade_tasks
        (put J version (some (field (number current)))
          (record { contents = []; modified = false })).1)
  open_db (some t) = load_data t >>= λ db. some (after_upgrade_tasks db)
