-- ===== src/Crud/Owned.antt =====
-- Whose rows the calls of `CRUDService` for a user change: api/services/crud/__init__.py.
use bitcart.Base.{
  ℕ, Bool, true, false, ◌==◌, if◌then◌else◌, none, some, List, [], ◌∷◌, ◌≡◌, ◌≢◌, arith, Bool-cases,
  Option-cases, inl, inr, sym, ap, ◌∙◌,
}
use bitcart.Base.Dict.{Dict, lookup, insert, erase, lookup-insert, lookup-erase}
use bitcart.Crud.{
  no_column, user, Object, Changes, set_user_id, owned_by, validate, set_fkeys, create_object,
  get_object, update_object, delete_object, delete_many,
}

-- No object refers to `id`.
abbrev pub Unused : ℕ → Dict Object → Type 0
Unused id db = (k c : ℕ) (o : Object) → lookup k db ≡ some o → lookup c o.fkeys ≢ some id

-- A call of `create`, `update`, `delete` or `delete_many` for a user; the id of a new object is not in use.
pub data UserRequest (db : Dict Object) (u : ℕ) : Dict Object → Type 0 where
  created :
      {new : Dict Object} (has_owner : Bool) (id : ℕ) (cs : Changes)
      → lookup id db ≡ none
      → Unused id db
      → create_object u has_owner id cs db ≡ some new
      → UserRequest db u new
  updated :
      {new : Dict Object} (id : ℕ) (cs : Changes)
      → update_object u id cs db ≡ some new
      → UserRequest db u new
  deleted : {new : Dict Object} (id : ℕ) → delete_object u id db ≡ some new → UserRequest db u new
  deleted_many : (ids : List ℕ) → UserRequest db u (delete_many u ids db)

pub get_object-lookup :
    (u id : ℕ) (db : Dict Object) (o : Object)
    → get_object u id db ≡ some o
    → (lookup id db ≡ some o) × (owned_by u o.owner ≡ true)
unfolding get_object
get_object-lookup u id db o h = elim (Option-cases (lookup id db)) [
  | inl e ↦ absurd (ground (arith, h, e))
  | inr (p, e) ↦ elim (Bool-cases (owned_by u p.owner)) [
    | inl own ↦
        let same : p ≡ o = ground (arith, h, e, own) in
        (e ∙ ap some same, ap (λ q. owned_by u q.owner) (sym same) ∙ own)
    | inr foreign ↦ absurd (ground (arith, h, e, foreign))
  ]
]

pub create_object-insert :
    (u : ℕ) (has_owner : Bool) (id : ℕ) (cs : Changes) (db new : Dict Object)
    → create_object u has_owner id cs db ≡ some new
    → (validate (some u) db cs ≡ true)
      × (insert id
            (record { owner = if has_owner then user u else no_column; fkeys = set_fkeys cs [] })
            db
          ≡ new)
unfolding create_object
create_object-insert u has_owner id cs db new h = (ground (arith, h), ground (arith, h))

pub update_object-insert :
    (u id : ℕ) (cs : Changes) (db new : Dict Object)
    → update_object u id cs db ≡ some new
    → (o : Object) × (get_object u id db ≡ some o)
      × (validate (some u) db cs ≡ true)
      × (insert id (record { owner = set_user_id u o.owner; fkeys = set_fkeys cs o.fkeys }) db
          ≡ new)
unfolding update_object
update_object-insert u id cs db new h = elim (Option-cases (get_object u id db)) [
  | inl e ↦ absurd (ground (arith, h, e))
  | inr (o, e) ↦ (o, e, ground (arith, h, e), ground (arith, h, e))
]

pub delete_object-erase :
    (u id : ℕ) (db new : Dict Object)
    → delete_object u id db ≡ some new
    → (o : Object) × (get_object u id db ≡ some o) × (erase id db ≡ new)
unfolding delete_object
delete_object-erase u id db new h = elim (Option-cases (get_object u id db)) [
  | inl e ↦ absurd (ground (arith, h, e))
  | inr (o, e) ↦ (o, e, ground (arith, h, e))
]

module _ (u k : ℕ) (o : Object) (foreign : owned_by u o.owner ≡ false) where
  -- A row that the user gets is not the foreign one.
  get_object-other :
      (id : ℕ) (p : Object) (db : Dict Object)
      → lookup k db ≡ some o
      → get_object u id db ≡ some p
      → (id == k) ≡ false
  get_object-other id p db there h =
      let (found, own) = get_object-lookup u id db p h in
      elim (Bool-cases (id == k)) [
        | inr other ↦ other
        | inl same ↦
            let place : lookup k db ≡ some p = ground (arith, same, found) in
            let object : o ≡ p = ground (arith, there, place) in
            absurd (ground (arith, own, foreign, ap (λ q. owned_by u q.owner) object))
      ]

  lookup-delete_many-other :
      (ids : List ℕ) (db : Dict Object)
      → lookup k db ≡ some o
      → lookup k (delete_many u ids db) ≡ some o
  unfolding delete_many
  lookup-delete_many-other [] db there = there
  lookup-delete_many-other (id ∷ ids) db there = elim (Option-cases (get_object u id db)) [
    | inl e ↦ rw (delete_many, e) (lookup-delete_many-other ids db there)
    | inr (p, e) ↦
        let other = get_object-other id p db there e in
        rw (delete_many, e)
          (lookup-delete_many-other ids (erase id db) (rw (lookup-erase, other) there))
  ]

-- A creation, an update or a deletion of rows that `CRUDService` makes for a user who is logged in leaves
-- every row of another user as it is, and every row without an owner in a table that has owners, apart from
-- what the database does with rows that refer to a deleted one.
pub UserRequest-others :
    (u k : ℕ) (o : Object) (db new : Dict Object)
    → owned_by u o.owner ≡ false
    → lookup k db ≡ some o
    → UserRequest db u new
    → lookup k new ≡ some o
UserRequest-others u k o db new foreign there (created has_owner id cs free unused h) =
    let (_, same) = create_object-insert u has_owner id cs db new h in
    let other : (id == k) ≡ false = ground (arith, free, there) in
    rw (sym same, lookup-insert, other) there
UserRequest-others u k o db new foreign there (updated id cs h) =
    let (p, e, _, same) = update_object-insert u id cs db new h in
    rw (sym same, lookup-insert, get_object-other u k o foreign id p db there e) there
UserRequest-others u k o db new foreign there (deleted id h) =
    let (p, e, same) = delete_object-erase u id db new h in
    rw (sym same, lookup-erase, get_object-other u k o foreign id p db there e) there
UserRequest-others u k o db new foreign there (deleted_many ids) =
    lookup-delete_many-other u k o foreign ids db there
