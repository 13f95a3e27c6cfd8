-- ===== src/Users.antt =====
-- Accounts: `UserService` of api/services/crud/users.py. Redis, with its counters of attempts and its
-- codes, is an interface; the hashes of passwords and codes, the random values and the check of a captcha
-- are arguments. Mails and the hooks of plugins are left out.
pub mod Registration
pub mod Reset
use bitcart.Base.{
  ℕ, suc, Bool, true, false, not, ◌&&◌, ◌||◌, ◌==◌, ltb, if◌then◌else◌, Option, none, some, List,
  [], ◌∷◌, ◌>>=◌, ◌≡◌, ◌≢◌, filter, length,
}
use bitcart.Base.Dict.{Dict, lookup, insert}

pub record UserRow : Type 0 where
  pub is_superuser : Bool
  pub is_verified : Bool
  pub hashed_password : ℕ
  pub tfa_enabled : Bool
  pub totp_key : ℕ
  pub recovery_codes : List ℕ

-- A token by the id of its user.
pub record UserToken : Type 0 where
  pub user_id : ℕ
  pub full_control : Bool

-- Redis: `incr` gives the counter of a key, `getdel` a value that it removes.
pub record Redis : Type 1 where
  pub S : Type 0
  pub counter : S → ℕ → ℕ
  pub value : S → ℕ → Option ℕ
  pub incr : S → ℕ → S
  pub set : S → ℕ → ℕ → S
  pub getdel : S → ℕ → S
  pub counter_incr : (s : S) (k : ℕ) → counter (incr s k) k ≡ suc (counter s k)
  pub value_incr : (s : S) (k j : ℕ) → value (incr s k) j ≡ value s j
  pub value_getdel : (s : S) (k : ℕ) → value (getdel s k) k ≡ none

pub data UserError : Type 0 where
  registration_disabled invalid_captcha too_many_requests wrong_code : UserError

module _ (R : Redis) where
  open R use {S, counter, value, incr, set, getdel}

  pub record Site : Type 0 where
    pub users : Dict UserRow
    pub tokens : List UserToken
    pub disable_registration : Bool
    pub redis : S

  -- A result, or an exception, with the state that it leaves.
  pub data Result (A : Type 0) : Type 0 where
    done : A → Site → Result A
    failed : UserError → Site → Result A

  -- Who is logged in: nobody, or a user that is a superuser or not.
  unfoldable pub is_super : Option Bool → Bool
  is_super none = false
  is_super (some b) = b

  -- Whether the new user is a superuser; `count` is the number of users.
  unfoldable pub becomes_superuser : Option Bool → ℕ → Bool → Bool
  becomes_superuser none count asked = count == 0
  becomes_superuser (some true) count asked = asked
  becomes_superuser (some false) count asked = false

  abbrev pub new_row : Bool → ℕ → ℕ → UserRow
  new_row is_superuser hashed_password totp_key = record {
    is_superuser = is_superuser;
    is_verified = false;
    hashed_password = hashed_password;
    tfa_enabled = false;
    totp_key = totp_key;
    recovery_codes = [];
  }

  -- The new row, and the policy after the first user.
  unfoldable pub add_user : Option Bool → Bool → ℕ → ℕ → ℕ → Site → Site
  add_user auth_user asked id hashed_password totp_key st =
      let super = becomes_superuser auth_user (length st.users) asked in
      record st {
        users = insert id (new_row super hashed_password totp_key) st.users;
        disable_registration = elim auth_user [
          | none ↦ super || st.disable_registration
          | some b ↦ st.disable_registration
        ];
      }

  -- `create`, with `prepare_data` and `prepare_create`: the id, the hash of the password and the key are
  -- those that are drawn.
  unfoldable pub create : Bool → Option Bool → Bool → ℕ → ℕ → ℕ → Site → Result ℕ
  create captcha auth_user asked id hashed_password totp_key st =
      if st.disable_registration && not (is_super auth_user)
      then failed registration_disabled st
      else if not (is_super auth_user) && not captcha
      then failed invalid_captcha st
      else done id (add_user auth_user asked id hashed_password totp_key st)

  -- `create_with_token`
  unfoldable pub create_with_token : Bool → Bool → Option Bool → Bool → ℕ → ℕ → ℕ → Site → Result ℕ
  create_with_token require_verified captcha auth_user asked id hashed_password totp_key st =
      elim (create captcha auth_user asked id hashed_password totp_key st) [
        | failed e new ↦ failed e new
        | done i new ↦ done i (
            if require_verified
            then new
            else record new { tokens = record { user_id = i; full_control = true } ∷ new.tokens })
      ]

  -- `check_rate_limit`: whether the attempt is allowed, and the counter after it.
  unfoldable pub check_rate_limit : ℕ → ℕ → Site → Bool × Site
  check_rate_limit key max_attempts st =
      let new = incr st.redis key in
      (not (ltb max_attempts (counter new key)), record st { redis = new })

  -- `generic_email_code_flow`: `key` is that of the hash of the new code.
  unfoldable pub generic_email_code_flow : ℕ → ℕ → ℕ → Bool → ℕ → Site → Result Bool
  generic_email_code_flow rate_key max_attempts key email_enabled user_id st =
      let (allowed, new) = check_rate_limit rate_key max_attempts st in
      if allowed
      then done email_enabled
          (if email_enabled then record new { redis = set new.redis key user_id } else new)
      else failed too_many_requests new

  -- `token_service.logout_all`
  unfoldable pub logout_all : ℕ → Site → Site
  logout_all user_id st = record st { tokens = filter (λ t. not (t.user_id == user_id)) st.tokens }

  -- `change_password`
  unfoldable pub change_password : ℕ → UserRow → ℕ → Bool → Site → Site
  change_password user_id row hashed_password logout st =
      let new = record st {
        users = insert user_id (record row { hashed_password = hashed_password }) st.users;
      } in
      if logout then logout_all user_id new else new

  -- The user of a code, which is used up.
  unfoldable pub redeem : ℕ → Site → Option (ℕ × UserRow)
  redeem key st = value st.redis key >>= λ i. lookup i st.users >>= λ row. some (i, row)

  unfoldable pub finalize : ℕ → ℕ → ℕ → (ℕ → UserRow → Site → Site) → Site → Result Bool
  finalize rate_key max_attempts key act st =
      let (allowed, new) = check_rate_limit rate_key max_attempts st in
      let used = record new { redis = getdel new.redis key } in
      if allowed
      then elim (redeem key new) [
        | none ↦ failed wrong_code used
        | some (i, row) ↦ done true (act i row used)
      ]
      else failed too_many_requests new

  -- `finalize_password_reset`; `key` is that of the hash of the code.
  unfoldable pub finalize_password_reset : ℕ → ℕ → ℕ → ℕ → Bool → Site → Result Bool
  finalize_password_reset rate_key max_attempts key hashed_password logout =
      finalize rate_key max_attempts key (λ i row. change_password i row hashed_password logout)

  abbrev verify_row : Bool → ℕ → UserRow → Site → Site
  verify_row add_token i row st =
      let new = record st { users = insert i (record row { is_verified = true }) st.users } in
      if add_token
      then record new { tokens = record { user_id = i; full_control = true } ∷ new.tokens }
      else new

  -- `finalize_email_verification`
  unfoldable pub finalize_email_verification : ℕ → ℕ → ℕ → Bool → Site → Result Bool
  finalize_email_verification rate_key max_attempts key add_token =
      finalize rate_key max_attempts key (verify_row add_token)

-- `verify_totp`, with the recovery codes that are drawn, and `disable_totp`, with the new key.
unfoldable pub verify_totp : (ℕ → ℕ → Bool) → ℕ → List ℕ → UserRow → Option (List ℕ × UserRow)
verify_totp verify code codes row =
    if verify row.totp_key code
    then some (codes, record row { tfa_enabled = true; recovery_codes = codes })
    else none

unfoldable pub disable_totp : ℕ → UserRow → UserRow
disable_totp key row = record row { tfa_enabled = false; totp_key = key }
