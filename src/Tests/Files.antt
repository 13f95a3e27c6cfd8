-- ===== src/Tests/Files.antt =====
-- The file of a wallet: upgraded, changed, written and opened again.
use bitcart.Base.{ℕ, ◌≡◌, refl, Bool, true, false, ◌&&◌, ◌==◌, none, some, List, [], ◌∷◌, arith}
use bitcart.Base.Dict.{Dict, lookup, insert}
use bitcart.Daemon.Storage.{
  Field, null, number, text, hashes, Value, field, object, table, version, JsonDb, Json, put,
  Storage, open_storage, write_storage, write, get_version, get, after_upgrade_tasks, open_db,
  holds_same,
}
use bitcart.Daemon.Storage.Upgrades.{
  payment_requests, original_amount, tx_hash, storage_version, run_upgrades,
}
use bitcart.Daemon.Storage.Reopen.{put-lookup}
use bitcart.Daemon.Storage.Synced.{Life, opened, has_put, has_written, Synced, Life-Synced}

abbrev same_list : {A : Type 0} → (A → A → Bool) → List A → List A → Bool
same_list f [] [] = true
same_list f (a ∷ xs) (b ∷ ys) = f a b && same_list f xs ys
same_list f _ _ = false

abbrev same_pair : {A : Type 0} → (A → A → Bool) → ℕ × A → ℕ × A → Bool
same_pair f (j, a) (k, b) = j == k && f a b

abbrev same_number : ℕ → ℕ → Bool
same_number a b = a == b

abbrev same_field : Field → Field → Bool
same_field null null = true
same_field (number a) (number b) = a == b
same_field (text a) (text b) = a == b
same_field (hashes xs) (hashes ys) = same_list same_number xs ys
same_field _ _ = false

abbrev same_value : Value → Value → Bool
same_value (field a) (field b) = same_field a b
same_value (object a) (object b) = same_list (same_pair same_field) a b
same_value (table a) (table b) = same_list (same_pair (same_list (same_pair same_field))) a b
same_value _ _ = false

module _ {A : Type 0} (f : A → A → Bool) (refl_f : (a : A) → f a a ≡ true) where
  same_list_self : (xs : List A) → same_list f xs xs ≡ true
  same_list_self [] = refl
  same_list_self (a ∷ xs) = ground (arith, refl_f a, same_list_self xs)

  same_pair_self : (p : ℕ × A) → same_pair f p p ≡ true
  same_pair_self (k, a) = ground (arith, refl_f a)

same_number_self : (n : ℕ) → same_number n n ≡ true
same_number_self n = ground arith

same_field_self : (a : Field) → same_field a a ≡ true
same_field_self null = refl
same_field_self (number a) = ground arith
same_field_self (text a) = ground arith
same_field_self (hashes xs) = same_list_self same_number same_number_self xs

same_object_self : (d : Dict Field) → same_list (same_pair same_field) d d ≡ true
same_object_self d =
    same_list_self (same_pair same_field) (same_pair_self same_field same_field_self) d

same_value_self : (v : Value) → same_value v v ≡ true
same_value_self (field a) = same_field_self a
same_value_self (object d) = same_object_self d
same_value_self (table d) =
    same_list_self (same_pair (same_list (same_pair same_field)))
      (same_pair_self (same_list (same_pair same_field)) same_object_self) d

-- A text is what it stands for.
abbrev plain : Json
plain = record {
  Text = Dict Value;
  same = same_value;
  same_self = λ v. same_value_self v;
  is_json = λ v. true;
  dumps = λ d. d;
  loads = λ d. some d;
  loads_dumps = λ d. refl;
}

abbrev old_request : Dict Field
old_request = (original_amount, text 12) ∷ (tx_hash, text 77) ∷ (9, text 5) ∷ []

abbrev old_file : Dict Value
old_file = (version, field (number 1)) ∷ (payment_requests, table ((40, old_request) ∷ [])) ∷ []

old_version : lookup version old_file ≡ some (field (number 1))
unfolding lookup
old_version = refl

old_requests : lookup payment_requests old_file ≡ some (table ((40, old_request) ∷ []))
unfolding lookup
old_requests = refl

abbrev first_value : Value
first_value = field (number 8)

abbrev current_db : JsonDb
current_db = record {
  contents = (version, field (number 3)) ∷ (5, first_value) ∷ [];
  modified = true;
}

abbrev on_disk : Storage plain
on_disk = open_storage plain false (some old_file)

abbrev clean_db : JsonDb
clean_db = record { contents = current_db.contents; modified = false }

abbrev new_disk : Storage plain
new_disk = record { in_memory_only = false; file_exists = true; file = some current_db.contents }

writes : write plain current_db on_disk ≡ some (clean_db, new_disk)
unfolding write write_storage open_storage
writes = refl

is_current : get_version storage_version current_db.contents ≡ some storage_version
unfolding get_version get lookup
is_current = refl

on_disk_only : on_disk.in_memory_only ≡ false
unfolding open_storage
on_disk_only = refl

abbrev newer_file : Dict Value
newer_file = (version, field (number 4)) ∷ []

is_newer : get version (field null) newer_file ≡ field (number 4)
unfolding get lookup
is_newer = refl

put-lookup_example :
    (holds_same plain
        (lookup 5 (put plain 5 (some (field (number 9))) current_db).1.contents)
        (field (number 9))
      ≡ true)
    × (lookup 0 (put plain 5 (some (field (number 9))) current_db).1.contents
        ≡ lookup 0 current_db.contents)
put-lookup_example = put-lookup plain 5 0 (field (number 9)) current_db refl (ground arith)

-- The life of a new file: a value is put and the file is written.
abbrev fresh : JsonDb
fresh = record { contents = (version, field (number 3)) ∷ []; modified = true }

abbrev no_file : Storage plain
no_file = open_storage plain false none

opens : open_db plain storage_version run_upgrades none ≡ some fresh
unfolding open_db after_upgrade_tasks put insert lookup
opens = refl

abbrev filled_db : JsonDb
filled_db = (put plain 5 (some first_value) fresh).1

abbrev filled_clean : JsonDb
filled_clean = record { contents = filled_db.contents; modified = false }

abbrev filled_disk : Storage plain
filled_disk = record { in_memory_only = false; file_exists = true; file = some filled_db.contents }

writes_filled : write plain filled_db no_file ≡ some (filled_clean, filled_disk)
unfolding write write_storage open_storage put insert lookup
writes_filled = refl

life : Life plain storage_version run_upgrades none filled_clean filled_disk
life = has_written (has_put 5 (some first_value) (opened opens)) writes_filled

Life-Synced_example : Synced plain storage_version run_upgrades filled_clean filled_disk
Life-Synced_example =
    Life-Synced plain storage_version run_upgrades none filled_clean filled_disk life
