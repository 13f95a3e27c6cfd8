-- ===== src/Auth/Laws.antt =====
-- When a token grants its user what a handler asks for.
use bitcart.Base.{
  ℕ, ◌≡◌, ◌↔◌, ◌⊎◌, refl, Bool, true, false, Option, none, some, List, [], ◌∷◌, ◌||◌, All, arith,
  Bool-cases, Option-cases, inl, inr, sym, ap, ◌∙◌,
}
use bitcart.Base.Dict.{Dict, lookup}
use bitcart.Auth.{
  Scope, full_control, server_management, Permission, on_all, on_one, User, Token, Verdict, granted,
  unauthorized, disabled, forbidden, invalid_scope, with_token, permits, asks_for,
  check_selective_scopes, check_scopes, check_server, check_permissions,
  find_user_and_check_permissions, all_scopes, user_of, or_nobody, answer_of, call,
}

-- A token covers a scope on every object, or on the object of the request.
pub Covers : Option ℕ → List Permission → Scope → Type 0
Covers model_id ps s =
    (permits ps (on_all s) ≡ true)
    ⊎ ((i : ℕ) × (model_id ≡ some i) × (permits ps (on_one s i) ≡ true))

covered :
    (model_id : Option ℕ) (ps : List Permission) (s : Scope)
    → (permits ps (on_all s) || check_selective_scopes model_id s ps) ≡ true
    → Covers model_id ps s
unfolding Covers check_selective_scopes
covered none ps s h = inl (ground (arith, h))
covered (some i) ps s h = elim (Bool-cases (permits ps (on_all s))) [
  | inl b ↦ inl b
  | inr b ↦ inr (i, refl, ground (arith, h, b))
]

covers :
    (model_id : Option ℕ) (ps : List Permission) (s : Scope)
    → Covers model_id ps s
    → (permits ps (on_all s) || check_selective_scopes model_id s ps) ≡ true
unfolding Covers check_selective_scopes
covers model_id ps s (inl b) = rw b refl
covers model_id ps s (inr (i, e, b)) = ground (arith, e, b)

passes :
    (is_scope : Scope → Bool) (model_id : Option ℕ) (ps : List Permission) (ss : List Scope)
    → check_scopes is_scope model_id ps ss ≡ granted
    → All (λ s. (is_scope s ≡ true) × Covers model_id ps s) ss
unfolding check_scopes
passes is_scope model_id ps [] h = tt
passes is_scope model_id ps (s ∷ ss) h =
    let valid : is_scope s ≡ true = ground (arith, h) in
    let c : (permits ps (on_all s) || check_selective_scopes model_id s ps) ≡ true =
      ground (arith, h, valid) in
    let rest : check_scopes is_scope model_id ps ss ≡ granted = ground (arith, h, valid, c) in
    ((valid, covered model_id ps s c), passes is_scope model_id ps ss rest)

passing :
    (is_scope : Scope → Bool) (model_id : Option ℕ) (ps : List Permission) (ss : List Scope)
    → All (λ s. (is_scope s ≡ true) × Covers model_id ps s) ss
    → check_scopes is_scope model_id ps ss ≡ granted
unfolding check_scopes
passing is_scope model_id ps [] a = refl
passing is_scope model_id ps (s ∷ ss) ((valid, c), a) =
    rw (valid, covers model_id ps s c) (passing is_scope model_id ps ss a)

-- The access that a user with a token has, on its own terms: the account is enabled, the token has
-- full control or covers every scope that is asked for, all of which exist, and the management of
-- the server is asked for only by a superuser.
pub record Access (is_scope : Scope → Bool) (model_id : Option ℕ) (user : User)
    (ps : List Permission) (ss : List Scope) : Type 0 where
  pub enabled : user.is_enabled ≡ true
  pub covered :
      (permits ps (on_all full_control) ≡ true)
      ⊎ All (λ s. (is_scope s ≡ true) × Covers model_id ps s) ss
  pub superuser : asks_for server_management ss ≡ true → user.is_superuser ≡ true

allowed :
    (is_scope : Scope → Bool) (model_id : Option ℕ) (user : User) (ps : List Permission)
    (ss : List Scope)
    → check_permissions is_scope model_id user ps ss ≡ granted
    → Access is_scope model_id user ps ss
unfolding check_permissions check_server
allowed is_scope model_id user ps ss h = elim (Bool-cases user.is_enabled) [
  | inr d ↦ absurd (ground (arith, h, d))
  | inl d ↦ elim (Bool-cases (permits ps (on_all full_control))) [
    | inl f ↦ record { enabled = d; covered = inl f; superuser = λ a. ground (arith, h, d, f, a) }
    | inr f ↦
        let g : check_scopes is_scope model_id ps ss ≡ granted = ground (arith, h, d, f) in
        record {
          enabled = d;
          covered = inr (passes is_scope model_id ps ss g);
          superuser = λ a. ground (arith, h, d, f, g, a);
        }
  ]
]

server_allowed :
    (user : User) (ss : List Scope)
    → (asks_for server_management ss ≡ true → user.is_superuser ≡ true)
    → check_server user.is_superuser ss granted ≡ granted
unfolding check_server
server_allowed user ss h = elim (Bool-cases (asks_for server_management ss)) [
  | inl a ↦ rw (a, h a) refl
  | inr a ↦ rw a refl
]

allowing :
    (is_scope : Scope → Bool) (model_id : Option ℕ) (user : User) (ps : List Permission)
    (ss : List Scope)
    → Access is_scope model_id user ps ss
    → check_permissions is_scope model_id user ps ss ≡ granted
unfolding check_permissions
allowing is_scope model_id user ps ss a = rw (a.enabled) (elim a.covered [
  | inl f ↦ rw f (server_allowed user ss a.superuser)
  | inr c ↦ elim (Bool-cases (permits ps (on_all full_control))) [
    | inl f ↦ rw f (server_allowed user ss a.superuser)
    | inr f ↦ rw (f, passing is_scope model_id ps ss c) (server_allowed user ss a.superuser)
  ]
])

-- The permissions are granted exactly when the user with the token has the access.
pub check_permissions_iff :
    (is_scope : Scope → Bool) (model_id : Option ℕ) (user : User) (ps : List Permission)
    (ss : List Scope)
    → (check_permissions is_scope model_id user ps ss ≡ granted)
      ↔ Access is_scope model_id user ps ss
check_permissions_iff is_scope model_id user ps ss =
    (allowed is_scope model_id user ps ss, allowing is_scope model_id user ps ss)

with_token-granted :
    (t t' : Token) (w v : Verdict) → with_token t' w ≡ (v, some t) → (w ≡ granted) × (t' ≡ t)
unfolding with_token
with_token-granted t t' granted v h = (refl, ground (arith, h))
with_token-granted t t' unauthorized v h = absurd (ground (arith, h))
with_token-granted t t' disabled v h = absurd (ground (arith, h))
with_token-granted t t' forbidden v h = absurd (ground (arith, h))
with_token-granted t t' invalid_scope v h = absurd (ground (arith, h))

-- The header names a token of the table whose user has the access.
pub Authorized : (Scope → Bool) → Dict Token → Option ℕ → Option ℕ → List Scope → Token → Type 0
Authorized is_scope tokens header model_id ss t =
    (key : ℕ) × (header ≡ some key)
    × (lookup key tokens ≡ some t)
    × Access is_scope model_id t.user t.permissions ss

found :
    (is_scope : Scope → Bool) (tokens : Dict Token) (header model_id : Option ℕ) (ss : List Scope)
    (v : Verdict) (t : Token)
    → find_user_and_check_permissions is_scope tokens header ss model_id ≡ (v, some t)
    → Authorized is_scope tokens header model_id ss t
unfolding find_user_and_check_permissions Authorized
found is_scope tokens none model_id ss v t h = absurd (ground (arith, h))
found is_scope tokens (some key) model_id ss v t h = elim (Option-cases (lookup key tokens)) [
  | inl e ↦ absurd (ground (arith, h, e))
  | inr (t', e) ↦
      let w = check_permissions is_scope model_id t'.user t'.permissions ss in
      let h' : with_token t' w ≡ (v, some t) = rw (e, find_user_and_check_permissions) at h in
      let (g, same) = with_token-granted t t' w v h' in
      (
        key,
        refl,
        e ∙ ap some same,
        allowed is_scope model_id t.user t.permissions ss (rw (sym same) g),
      )
]

answers :
    (token_required : Bool) (t : Token) (r : Verdict × Option Token)
    → answer_of token_required r ≡ user_of t
    → r ≡ (r.0, some t)
unfolding answer_of or_nobody
answers required t (v, some t') h = ground (arith, h)
answers true t (invalid_scope, none) h = absurd (ground (arith, h))
answers false t (invalid_scope, none) h = absurd (ground (arith, h))
answers required t (granted, none) h = absurd (ground (arith, h))
answers required t (unauthorized, none) h = absurd (ground (arith, h))
answers required t (disabled, none) h = absurd (ground (arith, h))
answers required t (forbidden, none) h = absurd (ground (arith, h))

-- A handler is given a user only for a token of the table whose user has the access, also where the
-- token is optional.
pub call-Authorized :
    (enabled token_required : Bool) (is_scope : Scope → Bool) (tokens : Dict Token)
    (header model_id : Option ℕ) (ss : List Scope) (t : Token)
    → call enabled token_required is_scope tokens header ss model_id ≡ user_of t
    → Authorized is_scope tokens header model_id ss t
unfolding call
call-Authorized false required is_scope tokens header model_id ss t h = absurd (ground (arith, h))
call-Authorized true required is_scope tokens header model_id ss t h =
    elim (Bool-cases (all_scopes is_scope ss)) [
      | inr b ↦ absurd (ground (arith, h, b))
      | inl b ↦
          let r = find_user_and_check_permissions is_scope tokens header ss model_id in
          let h' : answer_of required r ≡ user_of t = rw b at h in
          found is_scope tokens header model_id ss r.0 t (answers required t r h')
    ]
