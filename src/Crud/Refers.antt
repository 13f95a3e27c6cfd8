-- ===== src/Crud/Refers.antt =====
-- Foreign keys stay with one owner: `validate` of api/services/crud/__init__.py.
use bitcart.Base.{
  ℕ, Bool, true, false, ◌==◌, if◌then◌else◌, none, some, List, [], ◌∷◌, ◌≡◌, ◌≢◌, ◌⊎◌, refl, arith,
  Bool-cases, Option-cases, inl, inr, sym, ap, ◌∙◌,
}
use bitcart.Base.Dict.{Dict, lookup, insert, erase, lookup-insert, lookup-erase}
use bitcart.Crud.{
  Owner, no_column, nobody, user, Object, Changes, set_user_id, owned_by, is_usable, validate,
  set_fkeys, get_object, delete_many,
}
use bitcart.Crud.Owned.{
  Unused, UserRequest, created, updated, deleted, deleted_many, get_object-lookup,
  create_object-insert, update_object-insert, delete_object-erase,
}

-- The user whom a foreign key of a row is checked for.
abbrev checked : Owner → Object → Bool
checked (user v) o = owned_by v o.owner
checked _ o = true

-- A row refers to rows of its owner only, and to those of tables without owners.
pub record IsOwned (db : Dict Object) : Type 0 where
  pub refers :
      (k c j : ℕ) (o t : Object)
      → lookup k db ≡ some o
      → lookup c o.fkeys ≡ some j
      → lookup j db ≡ some t
      → checked o.owner t ≡ true

set_fkeys-usable :
    (u c j : ℕ) (db : Dict Object) (cs : Changes) (fs : Dict ℕ)
    → validate (some u) db cs ≡ true
    → lookup c (set_fkeys cs fs) ≡ some j
    → (lookup c fs ≡ some j) ⊎ (is_usable (some u) db j ≡ true)
unfolding validate set_fkeys
set_fkeys-usable u c j db [] fs h e = inl e
set_fkeys-usable u c j db ((d, none) ∷ cs) fs h e =
    elim (set_fkeys-usable u c j db cs (erase d fs) h e) [
      | inl f ↦ inl (ground (arith, f, lookup-erase d c fs))
      | inr f ↦ inr f
    ]
set_fkeys-usable u c j db ((d, some i) ∷ cs) fs h e =
    elim (set_fkeys-usable u c j db cs (insert d i fs) (ground (arith, h)) e) [
      | inl f ↦ elim (Bool-cases (d == c)) [
        | inl own ↦
            let same : i ≡ j = ground (arith, f, own, lookup-insert d c i fs) in
            inr (rw (sym same) (ground (arith, h)))
        | inr other ↦ inl (ground (arith, f, other, lookup-insert d c i fs))
      ]
      | inr f ↦ inr f
    ]

checked_self : (w : Owner) (fs : Dict ℕ) → checked w (record { owner = w; fkeys = fs }) ≡ true
unfolding owned_by
checked_self no_column fs = refl
checked_self nobody fs = refl
checked_self (user v) fs = ground arith

checked-owned_by :
    (u : ℕ) (w : Owner) (t : Object)
    → owned_by u w ≡ true
    → owned_by u t.owner ≡ true
    → checked w t ≡ true
unfolding owned_by
checked-owned_by u no_column t h e = refl
checked-owned_by u nobody t h e = refl
checked-owned_by u (user v) t h e =
    let same : u ≡ v = ground (arith, h) in ap (λ w. owned_by w t.owner) (sym same) ∙ e

set_user_id-owned_by : (u : ℕ) (w : Owner) → owned_by u w ≡ true → set_user_id u w ≡ w
unfolding owned_by set_user_id
set_user_id-owned_by u no_column h = refl
set_user_id-owned_by u nobody h = absurd (ground (arith, h))
set_user_id-owned_by u (user v) h = ap user (ground (arith, h))

usable-owned_by :
    (u j : ℕ) (db : Dict Object) (t : Object)
    → is_usable (some u) db j ≡ true
    → lookup j db ≡ some t
    → owned_by u t.owner ≡ true
unfolding is_usable
usable-owned_by u j db t h e = ground (arith, h, e)

IsOwned-erase : (id : ℕ) (db : Dict Object) → IsOwned db → IsOwned (erase id db)
IsOwned-erase id db v = record {
  refers = λ k c j o t there key target.
      v.refers k c j o t (ground (arith, there, lookup-erase id k db)) key
        (ground (arith, target, lookup-erase id j db));
}

IsOwned-insert :
    (id : ℕ) (n : Object) (db : Dict Object)
    → IsOwned db
    → ((c j : ℕ) (t : Object)
        → lookup c n.fkeys ≡ some j
        → lookup j db ≡ some t
        → checked n.owner t ≡ true)
    → ((k c : ℕ) (o : Object)
        → lookup k db ≡ some o
        → lookup c o.fkeys ≡ some id
        → checked o.owner n ≡ true)
    → IsOwned (insert id n db)
IsOwned-insert id n db v own incoming = record {
  refers = λ k c j o t there key target.
      let at_k = lookup-insert id k n db in
      let at_j = lookup-insert id j n db in
      elim (Bool-cases (id == k)) [
        | inl same_k ↦
            let is_n : n ≡ o = ground (arith, there, at_k, same_k) in
            let key_n : lookup c n.fkeys ≡ some j = ap (λ p. lookup c p.fkeys) is_n ∙ key in
            elim (Bool-cases (id == j)) [
              | inl same_j ↦
                  let target_n : n ≡ t = ground (arith, target, at_j, same_j) in
                  rw (sym is_n, sym target_n) (checked_self n.owner n.fkeys)
              | inr other_j ↦
                  rw (sym is_n) (own c j t key_n (ground (arith, target, at_j, other_j)))
            ]
        | inr other_k ↦
            let place : lookup k db ≡ some o = ground (arith, there, at_k, other_k) in
            elim (Bool-cases (id == j)) [
              | inl same_j ↦
                  let target_n : n ≡ t = ground (arith, target, at_j, same_j) in
                  rw (sym target_n) (incoming k c o place (ground (arith, key, same_j)))
              | inr other_j ↦ v.refers k c j o t place key (ground (arith, target, at_j, other_j))
            ]
      ];
}

IsOwned-delete_many :
    (u : ℕ) (ids : List ℕ) (db : Dict Object) → IsOwned db → IsOwned (delete_many u ids db)
unfolding delete_many
IsOwned-delete_many u [] db v = v
IsOwned-delete_many u (id ∷ ids) db v = elim (Option-cases (get_object u id db)) [
  | inl e ↦ rw (delete_many, e) (IsOwned-delete_many u ids db v)
  | inr (o, e) ↦
      rw (delete_many, e) (IsOwned-delete_many u ids (erase id db) (IsOwned-erase id db v))
]

own_owner : (u : ℕ) (has_owner : Bool) → owned_by u (if has_owner then user u else no_column) ≡ true
unfolding owned_by
own_owner u true = ground arith
own_owner u false = refl

no_key : (c j : ℕ) → lookup c [] ≢ some j
unfolding lookup
no_key c j h = absurd (ground (arith, h))

same_checked :
    (w : Owner) (p n : Object) → p.owner ≡ n.owner → checked w p ≡ true → checked w n ≡ true
same_checked no_column p n same h = refl
same_checked nobody p n same h = refl
same_checked (user v) p n same h = ap (λ q. owned_by v q) (sym same) ∙ h

IsOwned-create :
    (u : ℕ) (has_owner : Bool) (id : ℕ) (cs : Changes) (db : Dict Object)
    → Unused id db
    → validate (some u) db cs ≡ true
    → IsOwned db
    → IsOwned (
        insert id
          (record { owner = if has_owner then user u else no_column; fkeys = set_fkeys cs [] })
          db)
IsOwned-create u has_owner id cs db unused valid v =
    let w : Owner = if has_owner then user u else no_column in
    let mine : owned_by u w ≡ true = own_owner u has_owner in
    IsOwned-insert id (record { owner = w; fkeys = set_fkeys cs [] }) db v
      (λ c j t key target. elim (set_fkeys-usable u c j db cs [] valid key) [
        | inl old ↦ absurd (no_key c j old)
        | inr usable ↦ checked-owned_by u w t mine (usable-owned_by u j db t usable target)
      ])
      (λ k c o place key. absurd (unused k c o place key))

IsOwned-update :
    (u id : ℕ) (cs : Changes) (p : Object) (db : Dict Object)
    → lookup id db ≡ some p
    → owned_by u p.owner ≡ true
    → validate (some u) db cs ≡ true
    → IsOwned db
    → IsOwned
        (insert id (record { owner = set_user_id u p.owner; fkeys = set_fkeys cs p.fkeys }) db)
IsOwned-update u id cs p db there mine valid v = rw (set_user_id-owned_by u p.owner mine) (
    IsOwned-insert id (record { owner = p.owner; fkeys = set_fkeys cs p.fkeys }) db v
      (λ c j t key target. elim (set_fkeys-usable u c j db cs p.fkeys valid key) [
        | inl old ↦ v.refers id c j p t there old target
        | inr usable ↦ checked-owned_by u p.owner t mine (usable-owned_by u j db t usable target)
      ])
      (λ k c o place key.
        same_checked o.owner p (record { owner = p.owner; fkeys = set_fkeys cs p.fkeys }) refl
          (v.refers k c id o p place key there)))

UserRequest-IsOwned :
    (u : ℕ) (db new : Dict Object) → IsOwned db → UserRequest db u new → IsOwned new
UserRequest-IsOwned u db new v (created has_owner id cs free unused h) =
    let (valid, same) = create_object-insert u has_owner id cs db new h in
    rw (sym same) (IsOwned-create u has_owner id cs db unused valid v)
UserRequest-IsOwned u db new v (updated id cs h) =
    let (p, e, valid, same) = update_object-insert u id cs db new h in
    let (there, mine) = get_object-lookup u id db p e in
    rw (sym same) (IsOwned-update u id cs p db there mine valid v)
UserRequest-IsOwned u db new v (deleted id h) =
    let (p, e, same) = delete_object-erase u id db new h in rw (sym same) (IsOwned-erase id db v)
UserRequest-IsOwned u db new v (deleted_many ids) = IsOwned-delete_many u ids db v

-- What requests of any users, one after the other, make of no rows.
pub data History : Dict Object → Type 0 where
  no_rows : History []
  then_by : {db new : Dict Object} (u : ℕ) → History db → UserRequest db u new → History new

empty-IsOwned : IsOwned []
unfolding lookup
empty-IsOwned = record { refers = λ k c j o t there key target. absurd (ground (arith, there)) }

-- Whatever users ask for, in whatever order, a row of a user refers to rows of the same user only, or to
-- rows of tables without owners.
pub History-IsOwned : (db : Dict Object) → History db → IsOwned db
History-IsOwned db no_rows = empty-IsOwned
History-IsOwned new (then_by {db} u h r) = UserRequest-IsOwned u db new (History-IsOwned db h) r
