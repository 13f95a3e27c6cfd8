-- ===== src/Tokens/Grants.antt =====
-- What a created token may do: `create_token` of api/services/crud/tokens.py.
use bitcart.Base.{
  ℕ, suc, ◌-◌, ◌≡◌, ◌⊎◌, refl, Bool, true, false, not, ◌||◌, Option, none, some, some, List, [],
  ◌∷◌, All, arith, leb, if◌then◌else◌, Bool-cases, Option-cases, Sum-cases, inl, inr, sym, ap, ◌∙◌,
}
use bitcart.Auth.{Scope, Permission, permits, same_permission}
use bitcart.Auth.Scope.{full_control, server_management}
use bitcart.Auth.Permission.{on_all}
use bitcart.Tokens.{
  Profile, TokenData, Redis, created, scope_of, remove, without_server, all_valid, all_held, within,
  check_request, check_account, requires_extra, Store, create_token, create_token_normal,
  create_token_tfa_flow,
}

-- The token of the request, if there is one, has the scope of each permission, or full control.
abbrev pub Held : Option (List Permission) → List Permission → Type 0
Held none ps = Unit
Held (some hs) ps =
    (permits hs (on_all full_control) ≡ true)
    ⊎ All (λ p. permits hs (on_all (scope_of p)) ≡ true) ps

pub record Granted (is_scope : Scope → Bool) (held : Option (List Permission))
    (ps : List Permission) : Type 0 where
  pub known : All (λ p. is_scope (scope_of p) ≡ true) ps
  pub held_before : Held held ps

all_valid-All :
    (is_scope : Scope → Bool) (ps : List Permission)
    → all_valid is_scope ps ≡ true
    → All (λ p. is_scope (scope_of p) ≡ true) ps
unfolding all_valid
all_valid-All is_scope [] h = tt
all_valid-All is_scope (p ∷ ps) h =
    (ground (arith, h), all_valid-All is_scope ps (ground (arith, h)))

all_held-All :
    (hs ps : List Permission)
    → all_held hs ps ≡ true
    → All (λ p. permits hs (on_all (scope_of p)) ≡ true) ps
unfolding all_held
all_held-All hs [] h = tt
all_held-All hs (p ∷ ps) h = (ground (arith, h), all_held-All hs ps (ground (arith, h)))

within-Held :
    (held : Option (List Permission)) (ps : List Permission) → within held ps ≡ true → Held held ps
unfolding within
within-Held none ps h = tt
within-Held (some hs) ps h = elim (Bool-cases (permits hs (on_all full_control))) [
  | inl full ↦ inl full
  | inr e ↦ inr (all_held-All hs ps (ground (arith, h, e)))
]

-- The checks that a request has passed.
record Passed (is_scope : Scope → Bool) (require_verified : Bool) (held : Option (List Permission))
    (a : Profile) (left : List Permission) : Type 0 where
  valid : all_valid is_scope left ≡ true
  inside : within held left ≡ true
  enabled : a.user.is_enabled ≡ true
  verified : (not require_verified || a.is_verified) ≡ true

check_request-Passed :
    (is_scope : Scope → Bool) (require_verified : Bool) (held : Option (List Permission))
    (a : Profile) (ps left : List Permission)
    → check_request is_scope require_verified held a ps ≡ inr left
    → (ps ≡ left) × Passed is_scope require_verified held a left
unfolding check_request
check_request-Passed is_scope require_verified held a ps left h = (
  ground (arith, h),
  record {
    valid = ground (arith, h);
    inside = ground (arith, h);
    enabled = ground (arith, h);
    verified = ground (arith, h);
  },
)

-- The two ways in which the permissions of a token have been checked.
record Checked (is_scope : Scope → Bool) (require_verified : Bool) (held : Option (List Permission))
    (a : Profile) (strict : Bool) (ps left : List Permission) : Type 0 where
  server_checked : without_server a.user.is_superuser strict ps ≡ some left
  passed : Passed is_scope require_verified held a left

check_account-Checked :
    (is_scope : Scope → Bool) (require_verified : Bool) (held : Option (List Permission))
    (a : Profile) (strict : Bool) (ps left : List Permission)
    → check_account is_scope require_verified held a strict ps ≡ inr left
    → Checked is_scope require_verified held a strict ps left
unfolding check_account
check_account-Checked is_scope require_verified held a strict ps left h =
    elim (Option-cases (without_server a.user.is_superuser strict ps)) [
      | inl e ↦ absurd (ground (arith, h, e))
      | inr (mid, e) ↦
          let (same, passed) =
            check_request-Passed is_scope require_verified held a mid left (ground (arith, h, e)) in
          record { server_checked = e ∙ ap some same; passed = passed }
    ]

module _ (R : Redis) where
  created-check_account :
      (is_scope : Scope → Bool) (require_verified : Bool) (code : ℕ)
      (held : Option (List Permission)) (a : Profile) (strict : Bool) (ps : List Permission)
      (st : Store R) (d : TokenData)
      → (create_token R is_scope require_verified code held a strict ps st).0 ≡ created d
      → (check_account is_scope require_verified held a strict ps ≡ inr d.permissions)
        × (d.user_id ≡ a.user.id)
        × (requires_extra held a ≡ false)
  unfolding create_token create_token_normal create_token_tfa_flow
  created-check_account is_scope require_verified code held a strict ps st d h =
      elim (Sum-cases (check_account is_scope require_verified held a strict ps)) [
        | inl (r, e) ↦ absurd (ground (arith, h, e))
        | inr (left, e) ↦ (ground (arith, h, e), ground (arith, h, e), ground (arith, h, e))
      ]

  -- A token that is created belongs to the user, whose account is enabled and, where the policy asks for
  -- it, verified. Each of its scopes is known, and the token of the request, if there is one, has each of
  -- them or full control. Without such a token, the account has no second factor.
  pub create_token-Granted :
      (is_scope : Scope → Bool) (require_verified : Bool) (code : ℕ)
      (held : Option (List Permission)) (a : Profile) (strict : Bool) (ps : List Permission)
      (st : Store R) (d : TokenData)
      → (create_token R is_scope require_verified code held a strict ps st).0 ≡ created d
      → Granted is_scope held d.permissions
        × (d.user_id ≡ a.user.id)
        × (a.user.is_enabled ≡ true)
        × ((not require_verified || a.is_verified) ≡ true)
        × (requires_extra held a ≡ false)
  create_token-Granted is_scope require_verified code held a strict ps st d h =
      let (checked, owner, no_factor) =
        created-check_account is_scope require_verified code held a strict ps st d h in
      let c =
        check_account-Checked is_scope require_verified held a strict ps d.permissions checked in
      (
        record {
          known = all_valid-All is_scope d.permissions c.passed.valid;
          held_before = within-Held held d.permissions c.passed.inside;
        },
        owner,
        c.passed.enabled,
        c.passed.verified,
        no_factor,
      )

-- How often a permission is asked for.
unfoldable pub times_in : Permission → List Permission → ℕ
times_in p [] = 0
times_in p (q ∷ qs) = let rest = times_in p qs in if same_permission q p then suc rest else rest

permits-times_in : (p : Permission) (ps : List Permission) → permits ps p ≡ leb 1 (times_in p ps)
unfolding permits times_in
permits-times_in p [] = refl
permits-times_in p (q ∷ qs) = ground (arith, permits-times_in p qs)

times_in-remove :
    (p : Permission) (ps : List Permission) → times_in p (remove p ps) ≡ times_in p ps - 1
unfolding times_in remove
times_in-remove p [] = refl
times_in-remove p (q ∷ qs) = ground (arith, times_in-remove p qs)

server-without_server :
    (strict : Bool) (ps left : List Permission)
    → without_server false strict ps ≡ some left
    → permits left (on_all server_management) ≡ leb 2 (times_in (on_all server_management) ps)
unfolding without_server
server-without_server strict ps left h =
    let asked = permits-times_in (on_all server_management) ps in
    let kept = permits-times_in (on_all server_management) left in
    let removed = times_in-remove (on_all server_management) ps in
    ground (arith, h, asked, kept, removed)

-- The token of a user who is no superuser has the scope of the server settings exactly if the request
-- lists that scope more than once, as only the first mention of it is removed.
pub create_token-server :
    (R : Redis) (is_scope : Scope → Bool) (require_verified : Bool) (code : ℕ)
    (held : Option (List Permission)) (a : Profile) (strict : Bool) (ps : List Permission)
    (st : Store R) (d : TokenData)
    → a.user.is_superuser ≡ false
    → (create_token R is_scope require_verified code held a strict ps st).0 ≡ created d
    → permits d.permissions (on_all server_management)
      ≡ leb 2 (times_in (on_all server_management) ps)
create_token-server R is_scope require_verified code held a strict ps st d ordinary h =
    let (checked, _, _) =
      created-check_account R is_scope require_verified code held a strict ps st d h in
    let c =
      check_account-Checked is_scope require_verified held a strict ps d.permissions checked in
    server-without_server strict ps d.permissions
      (ap (λ b. without_server b strict ps) (sym ordinary) ∙ c.server_checked)
