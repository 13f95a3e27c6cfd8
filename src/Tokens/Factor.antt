-- ===== src/Tokens/Factor.antt =====
-- The second factor of a login: `create_token` and `create_token_totp_auth` of
-- api/services/crud/tokens.py.
use bitcart.Base.{
  ℕ, suc, ◌-◌, ◌≤◌, ◌≡◌, refl, Bool, true, false, ◌||◌, ◌==◌, none, some, List, [], ◌∷◌, contains,
  arith, leb, if◌then◌else◌, Bool-cases, Option-cases, inl, inr, sym, ap, ◌∙◌,
}
use bitcart.Base.Dict.{Dict, lookup, insert, lookup-insert}
use bitcart.Tokens.{
  Profile, TokenData, Redis, invalid_token, invalid_code, created, refused, Store,
  create_token_normal, create_token_tfa_flow, create_token_totp_auth, pending_login, finish,
  use_code, remove_code,
}

-- How often a code is in the list.
unfoldable pub count : ℕ → List ℕ → ℕ
count c [] = 0
count c (d ∷ ds) = let rest = count c ds in if d == c then suc rest else rest

contains-count : (c : ℕ) (ds : List ℕ) → contains c ds ≡ leb 1 (count c ds)
unfolding count
contains-count c [] = refl
contains-count c (d ∷ ds) = ground (arith, contains-count c ds)

count-remove_code : (c : ℕ) (ds : List ℕ) → count c (remove_code c ds) ≡ count c ds - 1
unfolding count remove_code
count-remove_code c [] = refl
count-remove_code c (d ∷ ds) = ground (arith, count-remove_code c ds)

use_code-gone :
    (c : ℕ) (a : Profile)
    → count c a.recovery_codes ≤ 1
    → contains c (use_code c a).recovery_codes ≡ false
unfolding use_code
use_code-gone c a once =
    let before = contains-count c a.recovery_codes in
    let after = contains-count c (remove_code c a.recovery_codes) in
    let removed = count-remove_code c a.recovery_codes in
    ground (arith, once, before, after, removed)

lookup_own : {V : Type 0} (k : ℕ) (v : V) (d : Dict V) → lookup k (insert k v d) ≡ some v
lookup_own k v d = rw lookup-insert (ground arith)

totp_key-use_code : (c : ℕ) (a : Profile) → (use_code c a).totp_key ≡ a.totp_key
unfolding use_code
totp_key-use_code c a = ground arith

some-injective : {A : Type 0} {a b : A} → some a ≡ some b → a ≡ b
some-injective h = cc

module _ (R : Redis) where
  open R use {get, set, delete, get_set, get_delete}

  create_token_totp_auth-finish :
      (verify : ℕ → ℕ → Bool) (key c : ℕ) (st : Store R) (d : TokenData) (a : Profile)
      → pending_login R key st ≡ some (d, a)
      → (contains c a.recovery_codes || verify a.totp_key c) ≡ true
      → create_token_totp_auth R verify key c st ≡ finish R key c d a st
  unfolding create_token_totp_auth
  create_token_totp_auth-finish verify key c st d a e right =
      rw (create_token_totp_auth, e, right) refl

  create_token_totp_auth-wrong :
      (verify : ℕ → ℕ → Bool) (key c : ℕ) (st : Store R) (d : TokenData) (a : Profile)
      → pending_login R key st ≡ some (d, a)
      → (contains c a.recovery_codes || verify a.totp_key c) ≡ false
      → create_token_totp_auth R verify key c st ≡ (refused invalid_code, st)
  unfolding create_token_totp_auth
  create_token_totp_auth-wrong verify key c st d a e wrong =
      rw (create_token_totp_auth, e, wrong) refl

  create_token_totp_auth-none :
      (verify : ℕ → ℕ → Bool) (key c : ℕ) (st : Store R)
      → pending_login R key st ≡ none
      → create_token_totp_auth R verify key c st ≡ (refused invalid_token, st)
  unfolding create_token_totp_auth
  create_token_totp_auth-none verify key c st e = rw (create_token_totp_auth, e) refl

  not_pending-none :
      (key : ℕ) (st : Store R) → get st.redis key ≡ none → pending_login R key st ≡ none
  unfolding pending_login
  not_pending-none key st h = rw h refl

  pending_login-known :
      (key : ℕ) (st : Store R) (d : TokenData) (a : Profile)
      → get st.redis key ≡ some d
      → lookup d.user_id st.accounts ≡ some a
      → pending_login R key st ≡ some (d, a)
  unfolding pending_login
  pending_login-known key st d a h found = rw (h, found) refl

  pending_login-lookup :
      (key : ℕ) (st : Store R) (d : TokenData) (a : Profile)
      → pending_login R key st ≡ some (d, a)
      → lookup d.user_id st.accounts ≡ some a
  unfolding pending_login
  pending_login-lookup key st d a h = elim (Option-cases (get st.redis key)) [
    | inl e ↦ absurd (ground (arith, h, e))
    | inr (f, e) ↦ elim (Option-cases (lookup f.user_id st.accounts)) [
      | inl g ↦ absurd (ground (arith, h, e, g))
      | inr (b, g) ↦ ground (arith, h, e, g)
    ]
  ]

  -- What a login that creates a token has found and leaves behind.
  pub record Login (verify : ℕ → ℕ → Bool) (key c : ℕ) (d : TokenData) (st new : Store R)
      : Type 0 where
    pub account : Profile
    pub was_pending : pending_login R key st ≡ some (d, account)
    pub code_holds : (contains c account.recovery_codes || verify account.totp_key c) ≡ true
    pub one_token : new.tokens ≡ d ∷ st.tokens
    pub not_pending : get new.redis key ≡ none
    pub account_left : lookup d.user_id new.accounts ≡ some (use_code c account)

  -- A login that creates a token was pending, its code is a recovery code of the account or a valid
  -- one-time password, it adds one token with the pending data, ends to be pending, and uses up a
  -- recovery code.
  pub create_token_totp_auth-Login :
      (verify : ℕ → ℕ → Bool) (key c : ℕ) (d : TokenData) (st : Store R)
      → (create_token_totp_auth R verify key c st).0 ≡ created d
      → Login verify key c d st (create_token_totp_auth R verify key c st).1
  unfolding create_token_totp_auth finish create_token_normal
  create_token_totp_auth-Login verify key c d st h = elim (Option-cases (pending_login R key st)) [
    | inl e ↦ absurd (ground (arith, h, e))
    | inr ((f, a), e) ↦ elim (Bool-cases (contains c a.recovery_codes || verify a.totp_key c)) [
      | inr wrong ↦ absurd (ground (arith, h, e, wrong))
      | inl right ↦ rw (create_token_totp_auth-finish verify key c st f a e right) (
          let same : f ≡ d = ground (arith, h, e, right) in
          record {
            account = a;
            was_pending = e ∙ ap (λ g. some (g, a)) same;
            code_holds = right;
            one_token = ap (λ g. g ∷ st.tokens) same;
            not_pending = get_delete st.redis key;
            account_left =
                ap (λ g. lookup g (insert f.user_id (use_code c a) st.accounts))
                  (ap (λ g. g.user_id) (sym same))
                ∙ lookup_own f.user_id (use_code c a) st.accounts;
          })
    ]
  ]

  -- No code creates a second token from one pending login: it is refused, and nothing changes.
  pub create_token_totp_auth-once :
      (verify verify_later : ℕ → ℕ → Bool) (key c later : ℕ) (d : TokenData) (st : Store R)
      → (create_token_totp_auth R verify key c st).0 ≡ created d
      → create_token_totp_auth R verify_later key later (create_token_totp_auth R verify key c st).1
        ≡ (refused invalid_token, (create_token_totp_auth R verify key c st).1)
  create_token_totp_auth-once verify verify_later key c later d st h =
      let new = (create_token_totp_auth R verify key c st).1 in
      let l = create_token_totp_auth-Login verify key c d st h in
      create_token_totp_auth-none verify_later key later new
        (not_pending-none key new l.not_pending)

  -- A recovery code that has created a token, and that the account has once, is refused at the next
  -- login of the account, unless it is also a valid one-time password.
  pub recovery_code-once :
      (verify verify_later : ℕ → ℕ → Bool) (key next c : ℕ) (d e : TokenData) (a : Profile)
      (st : Store R)
      → (create_token_totp_auth R verify key c st).0 ≡ created d
      → lookup d.user_id st.accounts ≡ some a
      → count c a.recovery_codes ≤ 1
      → verify_later a.totp_key c ≡ false
      → e.user_id ≡ d.user_id
      → (create_token_totp_auth R verify_later next c
          (create_token_tfa_flow R next e a (create_token_totp_auth R verify key c st).1).1).0
        ≡ refused invalid_code
  unfolding create_token_tfa_flow
  recovery_code-once verify verify_later key next c d e a st h found once invalid same_user =
      let new = (create_token_totp_auth R verify key c st).1 in
      let l = create_token_totp_auth-Login verify key c d st h in
      let own : l.account ≡ a =
        some-injective (sym (pending_login-lookup key st d l.account l.was_pending) ∙ found) in
      let left : lookup e.user_id new.accounts ≡ some (use_code c a) =
        ap (λ k. lookup k new.accounts) same_user
        ∙ (l.account_left ∙ ap (λ b. some (use_code c b)) own) in
      let again = record new { redis = set new.redis next e } in
      ap (λ p. p.0)
        (create_token_totp_auth-wrong verify_later next c again e (use_code c a)
          (pending_login-known next again e (use_code c a) (get_set new.redis next e) left)
          (rw (use_code-gone c a once, totp_key-use_code c a, invalid) refl))
