-- ===== src/Tests/Objects.antt =====
-- Two users and their objects.
use bitcart.Base.{true, false, none, some, [], ◌∷◌, ◌≡◌, refl, arith}
use bitcart.Base.Dict.{Dict, lookup, insert}
use bitcart.Crud.{
  user, Object, owned_by, is_usable, validate, set_fkeys, get_object, create_object, update_object,
  delete_many,
}
use bitcart.Crud.Owned.{Unused, created, deleted_many, UserRequest-others}
use bitcart.Crud.Refers.{IsOwned, History, no_rows, then_by, History-IsOwned}

-- The store 10 and the product 20 of user 1, in the column 1 of which the store stands, and the store
-- 30 of user 2.
abbrev store : Object
store = record { owner = user 1; fkeys = [] }

abbrev product : Object
product = record { owner = user 1; fkeys = (1, 10) ∷ [] }

abbrev other_store : Object
other_store = record { owner = user 2; fkeys = [] }

abbrev shop : Dict Object
shop = (10, store) ∷ (20, product) ∷ (30, other_store) ∷ []

-- Another user's store is no store for the product.
foreign_store : update_object 1 20 ((1, some 30) ∷ []) shop ≡ none
unfolding update_object get_object validate is_usable owned_by lookup
foreign_store = refl

store_there : lookup 10 shop ≡ some store
unfolding lookup
store_there = refl

not_theirs : owned_by 2 store.owner ≡ false
unfolding owned_by
not_theirs = refl

UserRequest-others_example : lookup 10 (delete_many 2 (10 ∷ 30 ∷ []) shop) ≡ some store
UserRequest-others_example =
    UserRequest-others 2 10 store shop (delete_many 2 (10 ∷ 30 ∷ []) shop) not_theirs store_there
      (deleted_many (10 ∷ 30 ∷ []))

abbrev first_row : Dict Object
first_row = (10, store) ∷ []

abbrev two_rows : Dict Object
two_rows = (10, store) ∷ (20, product) ∷ []

creates_store : create_object 1 true 10 [] [] ≡ some first_row
unfolding create_object validate set_fkeys insert
creates_store = refl

creates_product : create_object 1 true 20 ((1, some 10) ∷ []) first_row ≡ some two_rows
unfolding create_object validate is_usable owned_by set_fkeys lookup insert
creates_product = refl

abbrev no_objects : Dict Object
no_objects = []

free_at_first : lookup 10 no_objects ≡ none
unfolding lookup
free_at_first = refl

ten_is_new : Unused 10 no_objects
unfolding lookup
ten_is_new k c o there = ground (arith, there)

twenty_is_new : Unused 20 first_row
unfolding lookup
twenty_is_new k c o there = ground (arith, there)

free_then : lookup 20 first_row ≡ none
unfolding lookup
free_then = refl

history : History two_rows
history =
    then_by 1 (then_by 1 no_rows (created true 10 [] free_at_first ten_is_new creates_store))
      (created true 20 ((1, some 10) ∷ []) free_then twenty_is_new creates_product)

History-IsOwned_example : IsOwned two_rows
History-IsOwned_example = History-IsOwned two_rows history
