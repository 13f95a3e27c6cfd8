-- ===== src/Users/Reset.antt =====
-- The codes of a password reset and the limit of attempts: `finalize_password_reset` and
-- `check_rate_limit` of api/services/crud/users.py.
use bitcart.Base.{
  ℕ, zero, suc, ◌-◌, min, Bool, true, false, not, ◌&&◌, ◌==◌, if◌then◌else◌, none, some, List, [],
  ◌∷◌, ◌≡◌, refl, arith, Bool-cases, Option-cases, inl, inr, sym, ◌∙◌, All, filter,
}
use bitcart.Base.Dict.{lookup, lookup-insert}
use bitcart.Users.{
  UserRow, UserToken, Redis, UserError, wrong_code, too_many_requests, Site, done, failed,
  check_rate_limit, redeem, finalize, finalize_password_reset, change_password, logout_all,
}

module _ (R : Redis) where
  open R use {S, counter, value, incr, set, getdel}

  -- How many of `n` attempts in a row are allowed.
  unfoldable pub allowed : ℕ → ℕ → ℕ → Site R → ℕ
  unfolding check_rate_limit
  allowed key max_attempts zero st = 0
  allowed key max_attempts (suc n) st =
      let rest = allowed key max_attempts n (check_rate_limit R key max_attempts st).1 in
      if (check_rate_limit R key max_attempts st).0 then suc rest else rest

  -- Within the window of a counter, exactly the attempts up to the limit are allowed.
  pub allowed_lem :
      (key max_attempts n : ℕ) (st : Site R)
      → allowed key max_attempts n st ≡ min n (max_attempts - counter st.redis key)
  unfolding allowed check_rate_limit
  allowed_lem key max_attempts zero st = omega arith
  allowed_lem key max_attempts (suc n) st =
      let rest = allowed_lem key max_attempts n (check_rate_limit R key max_attempts st).1 in
      let next = Redis.counter_incr R st.redis key in ground (arith, rest, next)

  -- What a password reset that succeeds has found and leaves.
  pub record Reset (key hashed_password : ℕ) (logout : Bool) (st new : Site R) : Type 0 where
    pub user_id : ℕ
    pub row : UserRow
    pub code_of : value st.redis key ≡ some user_id
    pub used_up : value new.redis key ≡ none
    pub new_password :
        lookup user_id new.users ≡ some (record row { hashed_password = hashed_password })
    pub logged_out : All (λ t. (logout && t.user_id == user_id) ≡ false) new.tokens

  filter-All :
      (i : ℕ) (ts : List UserToken)
      → All (λ t. (true && t.user_id == i) ≡ false) (filter (λ t. not (t.user_id == i)) ts)
  filter-All i [] = tt
  filter-All i (t ∷ ts) = elim (Bool-cases (t.user_id == i)) [
    | inl own ↦ rw own (filter-All i ts)
    | inr other ↦ rw other (other, filter-All i ts)
  ]

  every_token : (i : ℕ) (ts : List UserToken) → All (λ t. (false && t.user_id == i) ≡ false) ts
  every_token i [] = tt
  every_token i (t ∷ ts) = (refl, every_token i ts)

  change_password-Reset :
      (key i hashed_password : ℕ) (logout : Bool) (row : UserRow) (st used : Site R)
      → value st.redis key ≡ some i
      → value used.redis key ≡ none
      → Reset key hashed_password logout st (change_password R i row hashed_password logout used)
  unfolding change_password logout_all
  change_password-Reset key i hashed_password true row st used code gone = record {
    user_id = i;
    row = row;
    code_of = code;
    used_up = gone;
    new_password = rw lookup-insert (ground arith);
    logged_out = filter-All i used.tokens;
  }
  change_password-Reset key i hashed_password false row st used code gone = record {
    user_id = i;
    row = row;
    code_of = code;
    used_up = gone;
    new_password = rw lookup-insert (ground arith);
    logged_out = every_token i used.tokens;
  }

  redeem-value :
      (key i : ℕ) (row : UserRow) (st : Site R)
      → redeem R key st ≡ some (i, row)
      → value st.redis key ≡ some i
  unfolding redeem
  redeem-value key i row st h = elim (Option-cases (value st.redis key)) [
    | inl e ↦ absurd (ground (arith, h, e))
    | inr (j, e) ↦ elim (Option-cases (lookup j st.users)) [
      | inl f ↦ absurd (ground (arith, h, e, f))
      | inr (r, f) ↦ ground (arith, h, e, f)
    ]
  ]

  -- A password reset that succeeds used a code that stood for the user: it is used up, the user has the
  -- new password, and, if that is asked for, none of the tokens of before.
  pub finalize_password_reset-Reset :
      (rate_key max_attempts key hashed_password : ℕ) (logout b : Bool) (st new : Site R)
      → finalize_password_reset R rate_key max_attempts key hashed_password logout st ≡ done b new
      → Reset key hashed_password logout st new
  unfolding finalize_password_reset finalize check_rate_limit
  finalize_password_reset-Reset rate_key max_attempts key hashed_password logout b st new h =
      let counted = (check_rate_limit R rate_key max_attempts st).1 in
      let used : Site R = record counted { redis = getdel counted.redis key } in
      elim (Bool-cases (check_rate_limit R rate_key max_attempts st).0) [
        | inr limited ↦ absurd (ground (arith, h, limited))
        | inl free ↦ elim (Option-cases (redeem R key counted)) [
          | inl e ↦ absurd (ground (arith, h, free, e))
          | inr ((i, row), e) ↦
              let same : change_password R i row hashed_password logout used ≡ new =
                ground (arith, h, free, e) in
              rw (sym same) (
                change_password-Reset key i hashed_password logout row st used
                  (sym (Redis.value_incr R st.redis rate_key key)
                    ∙ redeem-value key i row counted e)
                  (Redis.value_getdel R counted.redis key))
        ]
      ]

  -- A code that has reset a password resets none again, and a further try changes no account and no token.
  pub finalize_password_reset-once :
      (rate_key max_attempts key hashed_password later_rate later_max later_password : ℕ)
      (logout later_logout b : Bool) (st new : Site R)
      → finalize_password_reset R rate_key max_attempts key hashed_password logout st ≡ done b new
      → (e : UserError) × (s : Site R) × (finalize_password_reset R later_rate later_max key
            later_password later_logout new
          ≡ failed e s)
        × (s.users ≡ new.users)
        × (s.tokens ≡ new.tokens)
  unfolding finalize_password_reset finalize check_rate_limit redeem
  finalize_password_reset-once rate_key max_attempts key hashed_password later_rate later_max
        later_password logout later_logout b st new h =
      let r =
        finalize_password_reset-Reset rate_key max_attempts key hashed_password logout b st new h in
      let gone : value (incr new.redis later_rate) key ≡ none =
        Redis.value_incr R new.redis later_rate key ∙ r.used_up in
      let counted = (check_rate_limit R later_rate later_max new).1 in
      let used : Site R = record counted { redis = getdel counted.redis key } in
      elim (Bool-cases (check_rate_limit R later_rate later_max new).0) [
        | inr limited ↦ (too_many_requests, counted, rw limited refl, refl, refl)
        | inl free ↦ (wrong_code, used, rw (free, gone) refl, refl, refl)
      ]
