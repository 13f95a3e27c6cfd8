-- ===== src/Crud.antt =====
-- Objects and their owners: `CRUDService` of api/services/crud/__init__.py. The rows of all tables are
-- one dict, since ids are drawn at random; a row has the foreign keys of its columns. The queries run on
-- these rows. What the database does with keys that
-- refer to a deleted row, the many-to-many relations and the hooks of plugins are left out, as is what the
-- single services change: the service of invoices takes the owner of the store as the user.
pub mod Owned
pub mod Refers
use bitcart.Base.{
  ℕ, Bool, true, false, not, ◌&&◌, ◌||◌, ◌==◌, if◌then◌else◌, Option, none, some, List, [], ◌∷◌,
  ◌>>=◌, contains, or_else,
}
use bitcart.Base.Dict.{Dict, lookup, insert, erase}

-- `user_id`: a table may have no such column, and an owner may have been deleted.
pub data Owner : Type 0 where
  no_column nobody : Owner
  user : ℕ → Owner

pub record Object : Type 0 where
  pub owner : Owner
  pub fkeys : Dict ℕ

-- The foreign keys that a request sets, by column; one of None is cleared.
abbrev pub Changes : Type 0
Changes = List (ℕ × Option ℕ)

-- The filter `user_id == u`, which is only added for a table that has the column.
unfoldable pub owned_by : ℕ → Owner → Bool
owned_by u no_column = true
owned_by u nobody = false
owned_by u (user v) = v == u

-- The filter of `validate`, which is not added either where the data have no user.
abbrev pub passes : Option ℕ → Owner → Bool
passes none o = true
passes (some u) o = owned_by u o

-- The query of `validate` for one foreign key.
unfoldable pub is_usable : Option ℕ → Dict Object → ℕ → Bool
is_usable user_id db j = elim (lookup j db) [ none ↦ false | some o ↦ passes user_id o.owner ]

-- The loop of `validate` over the foreign keys of the data, without the one of the owner; `user_id` is
-- what `set_user_id` returned, and false is the exception.
unfoldable pub validate : Option ℕ → Dict Object → Changes → Bool
validate user_id db [] = true
validate user_id db ((c, none) ∷ cs) = validate user_id db cs
validate user_id db ((c, some j) ∷ cs) = is_usable user_id db j && validate user_id db cs

-- The loop of `setattr`.
unfoldable pub set_fkeys : Changes → Dict ℕ → Dict ℕ
set_fkeys [] fs = fs
set_fkeys ((c, none) ∷ cs) fs = set_fkeys cs (erase c fs)
set_fkeys ((c, some j) ∷ cs) fs = set_fkeys cs (insert c j fs)

-- `set_user_id`, for the owner that the row has, if any.
unfoldable pub set_user_id : ℕ → Owner → Owner
set_user_id u no_column = no_column
set_user_id u _ = user u

-- `create` by a user, with the new id, in a table with or without owners.
unfoldable pub create_object : ℕ → Bool → ℕ → Changes → Dict Object → Option (Dict Object)
create_object u has_owner id cs db =
    if validate (some u) db cs
    then some (
        insert id
          (record { owner = if has_owner then user u else no_column; fkeys = set_fkeys cs [] }) db)
    else none

-- `get` with the filter of `_add_user_filter`
unfoldable pub get_object : ℕ → ℕ → Dict Object → Option Object
get_object u id db = lookup id db >>= λ o. if owned_by u o.owner then some o else none

-- `update` by a user, of a row given by its id.
unfoldable pub update_object : ℕ → ℕ → Changes → Dict Object → Option (Dict Object)
update_object u id cs db = get_object u id db >>= λ o.
    if validate (some u) db cs
    then some
        (insert id (record { owner = set_user_id u o.owner; fkeys = set_fkeys cs o.fkeys }) db)
    else none

-- `delete` by a user, of a row given by its id.
unfoldable pub delete_object : ℕ → ℕ → Dict Object → Option (Dict Object)
delete_object u id db = get_object u id db >>= λ o. some (erase id db)

-- `delete_many`: those of the ids that the filter lets through.
unfoldable pub delete_many : ℕ → List ℕ → Dict Object → Dict Object
delete_many u [] db = db
delete_many u (id ∷ ids) db =
    delete_many u ids (elim (get_object u id db) [ none ↦ db | some o ↦ erase id db ])
