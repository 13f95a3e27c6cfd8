-- ===== src/Tests/Logins.antt =====
-- Logins with a second factor, and tokens made with tokens.
use bitcart.Base.{ℕ, ◌≤◌, ◌≡◌, refl, Bool, true, false, not, ◌||◌, none, some, [], ◌∷◌, arith}
use bitcart.Base.Dict.{Dict, lookup, insert, erase, lookup-insert, lookup-erase}
use bitcart.Auth.{Scope, Permission, permits}
use bitcart.Auth.Scope.{full_control, server_management, other}
use bitcart.Auth.Permission.{on_all, on_one}
use bitcart.Tokens.{
  Profile, TokenData, Redis, Answer, created, refused, tfa_required, totp, invalid_token, Store,
  create_token, create_token_totp_auth, create_token_tfa_flow, requires_extra, check_account,
  without_server, check_request, all_valid, all_held, within, tfa_types, pending_login, finish,
  create_token_normal, use_code, remove_code, remove,
}
use bitcart.Tokens.Grants.{Granted, create_token-Granted}
use bitcart.Tokens.Factor.{count, create_token_totp_auth-once}

own_entry : (s : Dict TokenData) (k : ℕ) (d : TokenData) → lookup k (insert k d s) ≡ some d
own_entry s k d = rw lookup-insert (ground arith)

no_entry : (s : Dict TokenData) (k : ℕ) → lookup k (erase k s) ≡ none
no_entry s k = rw lookup-erase (ground arith)

abbrev table : Redis
table = record {
  S = Dict TokenData;
  get = λ s k. lookup k s;
  set = λ s k d. insert k d s;
  delete = λ s k. erase k s;
  get_set = λ s k d. own_entry s k d;
  get_delete = λ s k. no_entry s k;
}

abbrev alice : Profile
alice = record {
  user = record { id = 1; is_enabled = true; is_superuser = false };
  is_verified = true;
  tfa_enabled = true;
  fido2_devices = [];
  recovery_codes = 71 ∷ 72 ∷ [];
  totp_key = 5;
}

abbrev first_store : Store table
first_store = record { accounts = (1, alice) ∷ []; tokens = []; redis = [] }

abbrev every_scope : Scope → Bool
every_scope s = true

abbrev invoices : Permission
invoices = on_all (other 1)

-- Alice's password is checked; the code of the pending login is 900.
abbrev asked : Answer × Store table
asked = create_token table every_scope true 900 none alice false (invoices ∷ []) first_store

abbrev wanted : TokenData
wanted = record { user_id = 1; permissions = invoices ∷ [] }

factor_asked : asked.0 ≡ tfa_required 900 (totp ∷ [])
unfolding create_token check_account without_server permits check_request all_valid within
    requires_extra create_token_tfa_flow tfa_types
factor_asked = refl

abbrev no_totp : ℕ → ℕ → Bool
no_totp key code = false

abbrev logged_in : Answer × Store table
logged_in = create_token_totp_auth table no_totp 900 71 asked.1

log_in : logged_in.0 ≡ created wanted
unfolding create_token check_account without_server permits check_request all_valid within
    requires_extra create_token_tfa_flow tfa_types create_token_totp_auth pending_login finish
    create_token_normal use_code remove_code lookup insert erase
log_in = refl

create_token_totp_auth-once_example :
    create_token_totp_auth table no_totp 900 72 logged_in.1 ≡ (refused invalid_token, logged_in.1)
create_token_totp_auth-once_example =
    create_token_totp_auth-once table no_totp no_totp 900 71 72 wanted asked.1 log_in

alice_is_asked : lookup 1 asked.1.accounts ≡ some alice
unfolding create_token check_account without_server permits check_request all_valid within
    requires_extra create_token_tfa_flow tfa_types create_token_totp_auth pending_login finish
    create_token_normal use_code remove_code lookup insert erase
alice_is_asked = refl

one_mention : count 71 alice.recovery_codes ≤ 1
unfolding count
one_mention = omega arith

-- With a token that has the scope of invoices, a token for one invoice, without a code.
abbrev narrower : TokenData
narrower = record { user_id = 1; permissions = on_one (other 1) 33 ∷ [] }

narrow :
    (create_token table every_scope true 902
      (some (invoices ∷ []))
      alice
      false
      (on_one (other 1) 33 ∷ [])
      first_store).0
    ≡ created narrower
unfolding create_token check_account without_server permits check_request all_valid all_held within
    requires_extra create_token_normal
narrow = refl

create_token-Granted_example :
    Granted every_scope (some (invoices ∷ [])) narrower.permissions
    × (narrower.user_id ≡ alice.user.id)
    × (alice.user.is_enabled ≡ true)
    × ((not true || alice.is_verified) ≡ true)
    × (requires_extra (some (invoices ∷ [])) alice ≡ false)
create_token-Granted_example =
    create_token-Granted table every_scope true 902 (some (invoices ∷ [])) alice false
      (on_one (other 1) 33 ∷ []) first_store narrower narrow

abbrev server : Permission
server = on_all server_management

abbrev with_server : TokenData
with_server = record { user_id = 1; permissions = server ∷ [] }

doubled :
    (create_token table every_scope true 903
      (some (on_all full_control ∷ []))
      alice
      false
      (server ∷ server ∷ [])
      first_store).0
    ≡ created with_server
unfolding create_token check_account without_server permits check_request all_valid all_held within
    requires_extra create_token_normal remove
doubled = refl
