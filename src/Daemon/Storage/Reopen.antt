-- ===== src/Daemon/Storage/Reopen.antt =====
-- A file that is written and opened again: `WalletDB` and `Storage` of daemons/storage.py.
use bitcart.Base.{
  ℕ, true, false, not, ◌&&◌, ◌==◌, ◌<◌, ltb, Option, none, some, ◌>>=◌, is_some, ◌≡◌, ◌≢◌, refl,
  inl, inr, arith, Option-cases, Bool-cases, ap, sym,
}
use bitcart.Base.Dict.{Dict, lookup, insert, lookup-insert}
use bitcart.Daemon.Storage.{
  null, number, Value, field, version, get, JsonDb, Json, put, Storage, read, write_storage, write,
  get_version, after_upgrade_tasks, load_data, open_db, holds_same,
}

pub read-write_storage :
    (J : Json) (x : Json.Text J) (s t : Storage J)
    → s.in_memory_only ≡ false
    → write_storage J x s ≡ some t
    → read J t ≡ some x
unfolding write_storage read
read-write_storage J x s t on_disk h = elim (Bool-cases (not s.file_exists && is_some s.file)) [
  | inl foreign ↦ absurd (ground (arith, h, on_disk, foreign))
  | inr ours ↦
      let same : record { in_memory_only = false; file_exists = true; file = some x } ≡ t =
        ground (arith, h, on_disk, ours) in
      ap (λ u. read J u) (sym same)
]

pub write_storage-disk :
    (J : Json) (x : Json.Text J) (s t : Storage J)
    → s.in_memory_only ≡ false
    → write_storage J x s ≡ some t
    → t.in_memory_only ≡ false
unfolding write_storage
write_storage-disk J x s t on_disk h = ground (arith, on_disk, h)

pub write-storage :
    (J : Json) (db new : JsonDb) (s t : Storage J)
    → db.modified ≡ true
    → write J db s ≡ some (new, t)
    → (write_storage J (Json.dumps J db.contents) s ≡ some t)
      × (new ≡ record { contents = db.contents; modified = false })
unfolding write
write-storage J db new s t changed h =
    elim (Option-cases (write_storage J (Json.dumps J db.contents) s)) [
      | inl e ↦ absurd (ground (arith, h, changed, e))
      | inr (u, e) ↦ (ground (arith, h, changed, e), ground (arith, h, changed, e))
    ]

-- What is written for a file of the current version is what opening the file gives: its contents.
pub write-open_db :
    (J : Json) (current : ℕ) (run_upgrades : Dict Value → Option (Dict Value)) (db new : JsonDb)
    (s t : Storage J)
    → s.in_memory_only ≡ false
    → db.modified ≡ true
    → get_version current db.contents ≡ some current
    → write J db s ≡ some (new, t)
    → (open_db J current run_upgrades (read J t) >>= λ again. some again.contents)
      ≡ some db.contents
unfolding open_db load_data after_upgrade_tasks
write-open_db J current run_upgrades db new s t on_disk changed recent h =
    let file : read J t ≡ some (Json.dumps J db.contents) =
      read-write_storage J (Json.dumps J db.contents) s t on_disk
        (write-storage J db new s t changed h).0 in
    let loaded = Json.loads_dumps J db.contents in
    let not_older : ltb current current ≡ false = ground arith in
    rw (file, loaded, recent, not_older) refl

-- A file of a newer version, and one that cannot be read, is never opened.
pub open_db-refused :
    (J : Json) (current n : ℕ) (run_upgrades : Dict Value → Option (Dict Value)) (t : Json.Text J)
    (d : Dict Value)
    → Json.loads J t ≡ some d
    → get version (field null) d ≡ field (number n)
    → current < n
    → open_db J current run_upgrades (some t) ≡ none
unfolding open_db load_data get_version
open_db-refused J current n run_upgrades t d loaded newer_version newer =
    let not_zero : (n == 0) ≡ false = ground (arith, newer) in
    let too_new : ltb current n ≡ true = ground (arith, newer) in
    rw (loaded, newer_version, not_zero, too_new) refl

-- After a value is put under a key, that value or one equal to it stands there, and every other key
-- has what it had.
pub put-lookup :
    (J : Json) (k j : ℕ) (v : Value) (db : JsonDb)
    → Json.is_json J v ≡ true
    → j ≢ k
    → (holds_same J (lookup k (put J k (some v) db).1.contents) v ≡ true)
      × (lookup j (put J k (some v) db).1.contents ≡ lookup j db.contents)
unfolding put
put-lookup J k j v db fits other = elim (Bool-cases (holds_same J (lookup k db.contents) v)) [
  | inl there ↦ rw (fits, there) (there, refl)
  | inr new ↦
      let own : lookup k (insert k v db.contents) ≡ some v = rw lookup-insert (ground arith) in
      let old : lookup j (insert k v db.contents) ≡ lookup j db.contents =
        rw lookup-insert (ground (arith, other)) in
      rw (fits, new, own) (Json.same_self J v, old)
]
