-- ===== src/Tests/Permissions.antt =====
-- Tokens with full control, with a scope, and with a scope on one object.
use bitcart.Base.{◌≡◌, refl, true, false, none, some, [], ◌∷◌}
use bitcart.Base.Dict.{Dict, lookup}
use bitcart.Auth.{
  full_control, server_management, other, on_all, on_one, User, Token, forbidden, permits, asks_for,
  check_selective_scopes, check_scopes, check_server, check_permissions,
  find_user_and_check_permissions, all_scopes, nobody, answer_of, or_nobody, call, with_token,
}
use bitcart.Auth.Laws.{Authorized, call-Authorized}

abbrev clerk : User
clerk = record { id = 1; is_enabled = true; is_superuser = false }

abbrev one_store : Token
one_store = record { user = clerk; permissions = on_one (other 3) 9 ∷ [] }

abbrev tokens : Dict Token
tokens = (77, one_store) ∷ []

-- Full control does not open the server's settings to a user who is no superuser.
server_is_closed :
    check_permissions (λ s. true) none clerk (on_all full_control ∷ []) (server_management ∷ [])
    ≡ forbidden
unfolding check_permissions check_server permits asks_for
server_is_closed = refl

call-Authorized_example : Authorized (λ s. true) tokens (some 77) (some 9) (other 3 ∷ []) one_store
unfolding call all_scopes answer_of find_user_and_check_permissions with_token check_permissions
    check_server check_scopes check_selective_scopes permits asks_for lookup
call-Authorized_example =
    call-Authorized true false (λ s. true) tokens (some 77) (some 9) (other 3 ∷ []) one_store refl

-- On another object the same token is refused, which an optional token turns into nobody.
other_store : call true false (λ s. true) tokens (some 77) (other 3 ∷ []) (some 8) ≡ nobody
unfolding call all_scopes answer_of or_nobody find_user_and_check_permissions with_token
    check_permissions check_server check_scopes check_selective_scopes permits asks_for lookup
other_store = refl
