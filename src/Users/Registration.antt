-- ===== src/Users/Registration.antt =====
-- Who becomes a superuser: `create` of api/services/crud/users.py.
use bitcart.Base.{
  ℕ, Bool, true, false, ◌==◌, Option, none, some, List, [], ◌∷◌, ◌≡◌, ◌⊎◌, refl, arith, length, inl,
  inr, sym, ap, ◌∙◌,
}
use bitcart.Base.Dict.{Dict, lookup, lookup-insert}
use bitcart.Users.{
  add_user, UserRow, Redis, registration_disabled, Site, done, failed, is_super, becomes_superuser,
  create, new_row,
}

none_left : {A : Type 0} (xs : List A) → (length xs == 0) ≡ true → xs ≡ []
none_left [] h = refl
none_left (x ∷ xs) h = absurd (ground (arith, h))

module _ (R : Redis) where
  create-add_user :
      (captcha : Bool) (auth_user : Option Bool) (asked : Bool) (id password key i : ℕ)
      (st new : Site R)
      → create R captcha auth_user asked id password key st ≡ done i new
      → add_user R auth_user asked id password key st ≡ new
  unfolding create
  create-add_user captcha auth_user asked id password key i st new h = ground (arith, h)

  lookup-add_user :
      (auth_user : Option Bool) (asked : Bool) (id password key : ℕ) (st : Site R)
      → lookup id (add_user R auth_user asked id password key st).users
        ≡ some (new_row R (becomes_superuser R auth_user (length st.users) asked) password key)
  unfolding add_user
  lookup-add_user auth_user asked id password key st = rw lookup-insert (ground arith)

  superuser_cases :
      (auth_user : Option Bool) (asked : Bool) (users : Dict UserRow)
      → becomes_superuser R auth_user (length users) asked ≡ true
      → ((auth_user ≡ none) × (users ≡ [])) ⊎ (auth_user ≡ some true)
  unfolding becomes_superuser
  superuser_cases none asked users h = inl (refl, none_left users h)
  superuser_cases (some true) asked users h = inr refl
  superuser_cases (some false) asked users h = absurd (ground (arith, h))

  -- A new account is a superuser only if it is the first one, registered by nobody, or if a superuser has
  -- made it.
  pub create-superuser :
      (captcha : Bool) (auth_user : Option Bool) (asked : Bool) (id password key i : ℕ)
      (st new : Site R) (row : UserRow)
      → create R captcha auth_user asked id password key st ≡ done i new
      → lookup id new.users ≡ some row
      → row.is_superuser ≡ true
      → ((auth_user ≡ none) × (st.users ≡ [])) ⊎ (auth_user ≡ some true)
  create-superuser captcha auth_user asked id password key i st new row h found super =
      let same = create-add_user captcha auth_user asked id password key i st new h in
      let own : some
            (new_row R (becomes_superuser R auth_user (length st.users) asked) password key)
          ≡ some row =
        sym (lookup-add_user auth_user asked id password key st)
        ∙ (ap (λ s. lookup id s.users) same ∙ found) in
      superuser_cases auth_user asked st.users (ground (arith, own, super))

  -- The first account of a server is a superuser, and makes every later registration fail that no
  -- superuser makes.
  pub create-first :
      (captcha later_captcha asked later_asked : Bool) (later_user : Option Bool)
      (id password key i later_id later_password later_key : ℕ) (st new : Site R)
      → st.users ≡ []
      → is_super R later_user ≡ false
      → create R captcha none asked id password key st ≡ done i new
      → (lookup id new.users ≡ some (new_row R true password key))
        × (create R later_captcha later_user later_asked later_id later_password later_key new
            ≡ failed registration_disabled new)
  unfolding create add_user becomes_superuser
  create-first captcha later_captcha asked later_asked later_user id password key i later_id
        later_password later_key st new empty nobody h =
      let same = create-add_user captcha none asked id password key i st new h in
      let first : becomes_superuser R none (length st.users) asked ≡ true = rw empty refl in
      let shut : new.disable_registration ≡ true =
        ap (λ s. s.disable_registration) (sym same) ∙ rw empty refl in
      (
        ap (λ s. lookup id s.users) (sym same)
            ∙ (lookup-add_user none asked id password key st
                ∙ ap (λ b. some (new_row R b password key)) first),
        rw (shut, nobody) refl,
      )
