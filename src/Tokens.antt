-- ===== src/Tokens.antt =====
-- Tokens of the API: `TokenService` of api/services/crud/tokens.py. Redis, which holds the data of a token
-- until its second factor is given, is an interface; the one-time passwords of pyotp, the random codes and
-- the policy are arguments. The hook of plugins and the FIDO2 devices' protocol are left out.
pub mod Grants
pub mod Factor
use bitcart.Base.{
  ℕ, Bool, true, false, Option, none, some, List, [], ◌∷◌, not, ◌&&◌, ◌||◌, ◌==◌, if◌then◌else◌,
  contains, ◌>>=◌, ◌≡◌, ◌⊎◌, inl, inr,
}
use bitcart.Base.Dict.{Dict, lookup, insert}
use bitcart.Auth.{Scope, Permission, User, same_permission, permits}
use bitcart.Auth.Scope.{full_control, server_management}
use bitcart.Auth.Permission.{on_all, on_one}

pub record Profile : Type 0 where
  pub user : User
  pub is_verified : Bool
  pub tfa_enabled : Bool
  pub fido2_devices : List ℕ
  pub recovery_codes : List ℕ
  pub totp_key : ℕ

-- `CreateDBToken`
pub record TokenData : Type 0 where
  pub user_id : ℕ
  pub permissions : List Permission

-- `TFA_REDIS_KEY` in Redis: the pending data by code.
pub record Redis : Type 1 where
  pub S : Type 0
  pub get : S → ℕ → Option TokenData
  pub set : S → ℕ → TokenData → S
  pub delete : S → ℕ → S
  pub get_set : (s : S) (k : ℕ) (d : TokenData) → get (set s k d) k ≡ some d
  pub get_delete : (s : S) (k : ℕ) → get (delete s k) k ≡ none

-- The exceptions, with their status codes.
pub data TokenRefusal : Type 0 where
  needs_server_settings invalid_permission invalid_token invalid_code : TokenRefusal
  not_enough_permissions account_disabled email_not_verified : TokenRefusal

pub data TfaType : Type 0 where
  fido2 totp : TfaType

pub data Answer : Type 0 where
  created : TokenData → Answer
  tfa_required : ℕ → List TfaType → Answer
  refused : TokenRefusal → Answer

abbrev pub scope_of : Permission → Scope
scope_of (on_all s) = s
scope_of (on_one s i) = s

-- `permissions.remove(p)`: the first one.
unfoldable pub remove : Permission → List Permission → List Permission
remove p [] = []
remove p (q ∷ qs) = let rest = remove p qs in if same_permission q p then qs else q ∷ rest

-- The permissions that are left, or nothing for the first exception.
unfoldable pub without_server : Bool → Bool → List Permission → Option (List Permission)
without_server is_superuser strict ps =
    if permits ps (on_all server_management) && not is_superuser
    then (if strict then none else some (remove (on_all server_management) ps))
    else some ps

-- `not {p for p in permissions if p.partition(":")[0] not in all_scopes}`
unfoldable pub all_valid : (Scope → Bool) → List Permission → Bool
all_valid is_scope [] = true
all_valid is_scope (p ∷ ps) = is_scope (scope_of p) && all_valid is_scope ps

-- `not any(p.partition(":")[0] not in token.permissions for p in permissions)`
unfoldable pub all_held : List Permission → List Permission → Bool
all_held held [] = true
all_held held (p ∷ ps) = permits held (on_all (scope_of p)) && all_held held ps

-- Whether the permissions do not exceed those of the token of the request, if there is one.
unfoldable pub within : Option (List Permission) → List Permission → Bool
within none ps = true
within (some held) ps = permits held (on_all full_control) || all_held held ps

-- The checks of `create_token` behind the permissions.
unfoldable pub check_request :
    (Scope → Bool)
    → Bool
    → Option (List Permission)
    → Profile
    → List Permission
    → TokenRefusal ⊎ List Permission
check_request is_scope require_verified held a ps =
    if not (all_valid is_scope ps)
    then inl invalid_permission
    else if not (within held ps)
    then inl not_enough_permissions
    else if not a.user.is_enabled
    then inl account_disabled
    else if require_verified && not a.is_verified
    then inl email_not_verified
    else inr ps

unfoldable pub check_account :
    (Scope → Bool)
    → Bool
    → Option (List Permission)
    → Profile
    → Bool
    → List Permission
    → TokenRefusal ⊎ List Permission
check_account is_scope require_verified held a strict ps =
    elim (without_server a.user.is_superuser strict ps) [
      | none ↦ inl needs_server_settings
      | some left ↦ check_request is_scope require_verified held a left
    ]

abbrev pub has_devices : Profile → Bool
has_devices a = elim a.fido2_devices [ [] ↦ false | d ∷ ds ↦ true ]

unfoldable pub tfa_types : Profile → List TfaType
tfa_types a =
    let codes = if a.tfa_enabled then totp ∷ [] else [] in
    if has_devices a then fido2 ∷ codes else codes

-- `not token and (checked_user.tfa_enabled or bool(checked_user.fido2_devices))`
unfoldable pub requires_extra : Option (List Permission) → Profile → Bool
requires_extra none a = a.tfa_enabled || has_devices a
requires_extra (some held) a = false

-- `user.recovery_codes.remove(code)`
unfoldable pub remove_code : ℕ → List ℕ → List ℕ
remove_code c [] = []
remove_code c (d ∷ ds) = let rest = remove_code c ds in if d == c then ds else d ∷ rest

-- A code of the list is used up.
unfoldable pub use_code : ℕ → Profile → Profile
use_code c a =
    if contains c a.recovery_codes
    then record a { recovery_codes = remove_code c a.recovery_codes }
    else a

module _ (R : Redis) where
  open R use {S, get, set, delete}

  pub record Store : Type 0 where
    pub accounts : Dict Profile
    pub tokens : List TokenData
    pub redis : S

  -- `create_token_normal`
  unfoldable pub create_token_normal : TokenData → Store → Answer × Store
  create_token_normal d st = (created d, record st { tokens = d ∷ st.tokens })

  -- `create_token_tfa_flow`, with the new code.
  unfoldable pub create_token_tfa_flow : ℕ → TokenData → Profile → Store → Answer × Store
  create_token_tfa_flow code d a st =
      (tfa_required code (tfa_types a), record st { redis = set st.redis code d })

  -- `create_token` for a user whose credentials are checked.
  unfoldable pub create_token :
      (Scope → Bool)
      → Bool
      → ℕ
      → Option (List Permission)
      → Profile
      → Bool
      → List Permission
      → Store
      → Answer × Store
  create_token is_scope require_verified code held a strict ps st =
      elim (check_account is_scope require_verified held a strict ps) [
        | inl e ↦ (refused e, st)
        | inr left ↦
            if requires_extra held a
            then create_token_tfa_flow code (record { user_id = a.user.id; permissions = left }) a
                st
            else create_token_normal (record { user_id = a.user.id; permissions = left }) st
      ]

  -- The account that a pending login is for.
  unfoldable pub pending_login : ℕ → Store → Option (TokenData × Profile)
  pending_login key st = get st.redis key >>= λ d. lookup d.user_id st.accounts >>= λ a. some (d, a)

  unfoldable pub finish : ℕ → ℕ → TokenData → Profile → Store → Answer × Store
  finish key c d a st = create_token_normal d (record st {
    accounts = insert d.user_id (use_code c a) st.accounts;
    redis = delete st.redis key;
  })

  -- `create_token_totp_auth`; `verify` is pyotp at the time of the call.
  unfoldable pub create_token_totp_auth : (ℕ → ℕ → Bool) → ℕ → ℕ → Store → Answer × Store
  create_token_totp_auth verify key c st = elim (pending_login key st) [
    | none ↦ (refused invalid_token, st)
    | some (d, a) ↦
        if contains c a.recovery_codes || verify a.totp_key c
        then finish key c d a st
        else (refused invalid_code, st)
  ]
