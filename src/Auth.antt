-- ===== src/Auth.antt =====
-- Who may do what: `AuthService` of api/services/auth.py and `AuthDependency` of
-- api/utils/authorization.py. The hooks of plugins only observe, and are left out.
pub mod Laws
use bitcart.Base.{
  ℕ, Bool, true, false, Option, none, some, List, [], ◌∷◌, not, ◌&&◌, ◌||◌, ◌==◌, if◌then◌else◌,
}
use bitcart.Base.Dict.{Dict, lookup}

-- The scopes that the code names, and the others by number.
pub data Scope : Type 0 where
  full_control server_management : Scope
  other : ℕ → Scope

abbrev pub same_scope : Scope → Scope → Bool
same_scope full_control full_control = true
same_scope server_management server_management = true
same_scope (other a) (other b) = a == b
same_scope _ _ = false

-- A permission of a token: a scope, or the text `scope:model_id`.
pub data Permission : Type 0 where
  on_all : Scope → Permission
  on_one : Scope → ℕ → Permission

abbrev pub same_permission : Permission → Permission → Bool
same_permission (on_all s) (on_all t) = same_scope s t
same_permission (on_one s i) (on_one t j) = same_scope s t && i == j
same_permission _ _ = false

pub record User : Type 0 where
  pub id : ℕ
  pub is_enabled : Bool
  pub is_superuser : Bool

pub record Token : Type 0 where
  pub user : User
  pub permissions : List Permission

-- 401, the two kinds of 403, and `ValueError`.
pub data Verdict : Type 0 where
  granted unauthorized disabled forbidden invalid_scope : Verdict

-- `permission in token.permissions`
unfoldable pub permits : List Permission → Permission → Bool
permits [] p = false
permits (q ∷ qs) p = same_permission q p || permits qs p

unfoldable pub asks_for : Scope → List Scope → Bool
asks_for s [] = false
asks_for s (t ∷ ts) = same_scope t s || asks_for s ts

-- `check_selective_scopes`: `model_id` is the parameter of the request's path, if there is one.
unfoldable pub check_selective_scopes : Option ℕ → Scope → List Permission → Bool
check_selective_scopes none s ps = false
check_selective_scopes (some i) s ps = permits ps (on_one s i)

-- The loop of `check_permissions`; `is_scope` tells the members of `get_all_scopes`.
unfoldable pub check_scopes : (Scope → Bool) → Option ℕ → List Permission → List Scope → Verdict
check_scopes is_scope model_id ps [] = granted
check_scopes is_scope model_id ps (s ∷ ss) =
    let rest = check_scopes is_scope model_id ps ss in
    if is_scope s
    then (if permits ps (on_all s) || check_selective_scopes model_id s ps then rest else forbidden)
    else invalid_scope

-- The last test of `check_permissions`, on the verdict of the loop.
unfoldable pub check_server : Bool → List Scope → Verdict → Verdict
check_server is_superuser ss granted =
    if asks_for server_management ss && not is_superuser then forbidden else granted
check_server is_superuser ss v = v

unfoldable pub check_permissions :
    (Scope → Bool) → Option ℕ → User → List Permission → List Scope → Verdict
check_permissions is_scope model_id user ps ss =
    if user.is_enabled
    then check_server user.is_superuser ss
        (if permits ps (on_all full_control) then granted else check_scopes is_scope model_id ps ss)
    else disabled

-- The user and the token, unless `check_permissions` raises an exception.
unfoldable pub with_token : Token → Verdict → Verdict × Option Token
with_token t granted = (granted, some t)
with_token t v = (v, none)

-- `find_user_and_check_permissions`; the keys of the table are the tokens.
unfoldable pub find_user_and_check_permissions :
    (Scope → Bool) → Dict Token → Option ℕ → List Scope → Option ℕ → Verdict × Option Token
find_user_and_check_permissions is_scope tokens none ss model_id = (unauthorized, none)
find_user_and_check_permissions is_scope tokens (some header_token) ss model_id =
    elim (lookup header_token tokens) [
      | none ↦ (unauthorized, none)
      | some t ↦ with_token t (check_permissions is_scope model_id t.user t.permissions ss)
    ]

-- The loop of `_process_request`
unfoldable pub all_scopes : (Scope → Bool) → List Scope → Bool
all_scopes is_scope [] = true
all_scopes is_scope (s ∷ ss) = is_scope s && all_scopes is_scope ss

-- What a handler gets: a user, nobody, or an exception.
pub data Answer : Type 0 where
  user_of : Token → Answer
  nobody : Answer
  raised : Verdict → Answer

-- An `HTTPException` is raised again if the token is required.
unfoldable pub or_nobody : Bool → Verdict → Answer
or_nobody token_required invalid_scope = raised invalid_scope
or_nobody token_required v = if token_required then raised v else nobody

unfoldable pub answer_of : Bool → Verdict × Option Token → Answer
answer_of token_required (v, some t) = user_of t
answer_of token_required (v, none) = or_nobody token_required v

-- `AuthDependency.__call__` with `_process_request`
unfoldable pub call :
    Bool → Bool → (Scope → Bool) → Dict Token → Option ℕ → List Scope → Option ℕ → Answer
call enabled token_required is_scope tokens header_token ss model_id =
    if enabled
    then (if all_scopes is_scope ss
        then answer_of token_required
            (find_user_and_check_permissions is_scope tokens header_token ss model_id)
        else raised invalid_scope)
    else nobody

-- A row of the users by e-mail: the user and the hashed password.
pub record Account : Type 0 where
  pub user : User
  pub hashed_password : ℕ

-- `authenticate_user`, with the status of the answer; `verify` is the password hasher.
authenticate_user : Dict Account → (ℕ → ℕ → Bool) → ℕ → ℕ → Option User × ℕ
authenticate_user users verify email password = elim (lookup email users) [
  | none ↦ (none, 404)
  | some a ↦ if verify password a.hashed_password then (some a.user, 200) else (none, 401)
]

pub data CaptchaType : Type 0 where
  no_captcha hcaptcha cf_turnstile : CaptchaType

-- `verify_captcha`: the service's answer, where an error is a failure.
verify_captcha : Option Bool → Bool
verify_captcha none = false
verify_captcha (some success) = success

-- `captcha_flow`: whether it returns; `service` is the answer of the service of a type.
captcha_flow : CaptchaType → (CaptchaType → Option Bool) → Bool
unfolding verify_captcha
captcha_flow no_captcha service = true
captcha_flow hcaptcha service = verify_captcha (service hcaptcha)
captcha_flow cf_turnstile service = verify_captcha (service cf_turnstile)
