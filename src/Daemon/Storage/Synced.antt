-- ===== src/Daemon/Storage/Synced.antt =====
-- The life of a file: what is in memory is what is on the disk unless it is marked as modified
-- (daemons/storage.py).
use bitcart.Base.{
  ℕ, true, false, ltb, Option, none, some, [], ◌>>=◌, ◌≡◌, ◌⊎◌, refl, inl, inr, arith, Option-cases,
  Bool-cases, ap, sym, ◌∙◌,
}
use bitcart.Base.Dict.{Dict, lookup}
use bitcart.Daemon.Storage.{
  number, Value, field, version, holds_same, JsonDb, Json, put, set_item, del_item, Storage,
  open_storage, read, write, get_version, after_upgrade_tasks, upgrade, load_data, open_db,
}
use bitcart.Daemon.Storage.Reopen.{write_storage-disk, read-write_storage, write-storage}

module _ (J : Json) (current : ℕ) (run_upgrades : Dict Value → Option (Dict Value)) where
  -- A file is opened, changed and written, in any order.
  pub data Life (file : Option (Json.Text J)) : JsonDb → Storage J → Type 0 where
    opened :
        {db : JsonDb}
        → open_db J current run_upgrades file ≡ some db
        → Life file db (open_storage J false file)
    has_put :
        {db : JsonDb} {s : Storage J} (k : ℕ) (v : Option Value)
        → Life file db s
        → Life file (put J k v db).1 s
    has_set :
        {db : JsonDb} {s : Storage J} (k : ℕ) (v : Value)
        → Life file db s
        → Life file (set_item J k v db) s
    has_deleted :
        {db new : JsonDb} {s : Storage J} (k : ℕ)
        → Life file db s
        → del_item J k db ≡ some new
        → Life file new s
    has_written :
        {db new : JsonDb} {s t : Storage J}
        → Life file db s
        → write J db s ≡ some (new, t)
        → Life file new t

  -- The disk holds the contents, unless they are marked as modified.
  pub Synced : JsonDb → Storage J → Type 0
  Synced db s =
      (s.in_memory_only ≡ false)
      × ((db.modified ≡ true) ⊎ ((read J s >>= Json.loads J) ≡ some db.contents))

  put-modified : (k : ℕ) (v : Option Value) (db : JsonDb) → (put J k v db).1.modified ≡ true
  unfolding put
  put-modified k none db = refl
  put-modified k (some v) db = ground arith

  upgrade-modified :
      (d : Dict Value) (db : JsonDb)
      → upgrade J current run_upgrades d ≡ some db
      → db.modified ≡ true
  unfolding upgrade after_upgrade_tasks
  upgrade-modified d db h = elim (Option-cases (run_upgrades d)) [
    | inl e ↦ absurd (ground (arith, h, e))
    | inr (new, e) ↦
        let stored =
          put-modified version (some (field (number current)))
            (record { contents = new; modified = false }) in
        ground (arith, h, e, stored)
  ]

  load_data-Synced :
      (t : Json.Text J) (db : JsonDb)
      → load_data J current run_upgrades t ≡ some db
      → (db.modified ≡ true) ⊎ (Json.loads J t ≡ some db.contents)
  unfolding load_data
  load_data-Synced t db h = elim (Option-cases (Json.loads J t)) [
    | inl e ↦ absurd (ground (arith, h, e))
    | inr (d, e) ↦ elim (Option-cases (get_version current d)) [
      | inl f ↦ absurd (ground (arith, h, e, f))
      | inr (n, f) ↦ elim (Bool-cases (ltb n current)) [
        | inl older ↦ inl (upgrade-modified d db (ground (arith, h, e, f, older)))
        | inr recent ↦
            let same : record { contents = d; modified = false } ≡ db =
              ground (arith, h, e, f, recent) in
            inr (e ∙ ap (λ new. some new.contents) same)
      ]
    ]
  ]

  after_upgrade_tasks-modified :
      (db : JsonDb)
      → db.modified ≡ true
      → (after_upgrade_tasks J current run_upgrades db).modified ≡ true
  unfolding after_upgrade_tasks
  after_upgrade_tasks-modified db changed = rw changed refl

  after_upgrade_tasks-Synced :
      (t : Json.Text J) (db : JsonDb)
      → (db.modified ≡ true) ⊎ (Json.loads J t ≡ some db.contents)
      → ((after_upgrade_tasks J current run_upgrades db).modified ≡ true)
        ⊎ (Json.loads J t ≡ some (after_upgrade_tasks J current run_upgrades db).contents)
  unfolding after_upgrade_tasks
  after_upgrade_tasks-Synced t db (inl changed) = inl (after_upgrade_tasks-modified db changed)
  after_upgrade_tasks-Synced t db (inr same) = inr same

  opened-Synced :
      (file : Option (Json.Text J)) (db : JsonDb)
      → open_db J current run_upgrades file ≡ some db
      → Synced db (open_storage J false file)
  unfolding Synced open_db open_storage read
  opened-Synced none db h =
      let stored =
        put-modified version (some (field (number current)))
          (record { contents = []; modified = false }) in
      let first =
        (put J version (some (field (number current)))
          (record { contents = []; modified = false })).1 in
      let same : after_upgrade_tasks J current run_upgrades first ≡ db = ground (arith, h) in
      (refl, inl (rw (sym same) (after_upgrade_tasks-modified first stored)))
  opened-Synced (some t) db h = elim (Option-cases (load_data J current run_upgrades t)) [
    | inl e ↦ absurd (ground (arith, h, e))
    | inr (old, e) ↦
        let same : after_upgrade_tasks J current run_upgrades old ≡ db = ground (arith, h, e) in
        (refl, rw (sym same) (after_upgrade_tasks-Synced t old (load_data-Synced t old e)))
  ]

  write-Synced :
      (db new : JsonDb) (s t : Storage J)
      → Synced db s
      → write J db s ≡ some (new, t)
      → Synced new t
  unfolding Synced write
  write-Synced db new s t (on_disk, held) h = elim (Bool-cases db.modified) [
    | inl changed ↦
        let (stored, kept) = write-storage J db new s t changed h in
        let file = read-write_storage J (Json.dumps J db.contents) s t on_disk stored in
        (
          write_storage-disk J (Json.dumps J db.contents) s t on_disk stored,
          inr (rw (file, Json.loads_dumps J db.contents, kept) refl),
        )
    | inr unchanged ↦
        let same_file : s ≡ t = ground (arith, h, unchanged) in
        let same_db : db ≡ new = ground (arith, h, unchanged) in
        rw (sym same_file, sym same_db) (on_disk, held)
  ]

  set_item-Synced :
      (k : ℕ) (v : Value) (db : JsonDb) (s : Storage J) → Synced db s → Synced (set_item J k v db) s
  unfolding Synced set_item
  set_item-Synced k v db s (on_disk, held) =
      elim (Bool-cases (holds_same J (lookup k db.contents) v)) [
        | inl there ↦ rw there (on_disk, held)
        | inr new ↦ rw new (on_disk, inl refl)
      ]

  del_item-Synced :
      (k : ℕ) (db new : JsonDb) (s : Storage J)
      → Synced db s
      → del_item J k db ≡ some new
      → Synced new s
  unfolding Synced del_item
  del_item-Synced k db new s (on_disk, held) h = (on_disk, inl (ground (arith, h)))

  -- At any time of its life, a file that is not marked as modified can be read from the disk with the
  -- contents that are in memory.
  pub Life-Synced :
      (file : Option (Json.Text J)) (db : JsonDb) (s : Storage J) → Life file db s → Synced db s
  unfolding Synced put set_item del_item
  Life-Synced file db s (opened h) = opened-Synced file db h
  Life-Synced file db s (has_put k v l) = ((Life-Synced file _ s l).0, inl (put-modified k v _))
  Life-Synced file db s (has_set k v l) = set_item-Synced k v _ s (Life-Synced file _ s l)
  Life-Synced file db s (has_deleted k l h) = del_item-Synced k _ db s (Life-Synced file _ s l) h
  Life-Synced file db s (has_written l h) = write-Synced _ db _ s (Life-Synced file _ _ l) h
