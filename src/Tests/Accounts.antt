-- ===== src/Tests/Accounts.antt =====
-- The first account of a server, and a password that is reset.
use bitcart.Base.{ℕ, suc, true, false, Option, none, some, [], ◌∷◌, ◌≡◌, refl, arith, or_else}
use bitcart.Base.Dict.{Dict, lookup, insert, erase, lookup-insert, lookup-erase}
use bitcart.Users.{
  Redis, UserError, Site, done, failed, create, add_user, new_row, becomes_superuser, is_super,
  check_rate_limit, redeem, finalize, finalize_password_reset, change_password, logout_all,
}
use bitcart.Users.Reset.{finalize_password_reset-once}

-- Counters and values apart.
abbrev Cells : Type 0
Cells = Dict ℕ × Dict ℕ

abbrev count_of : Cells → ℕ → ℕ
count_of (counts, values) k = or_else (lookup k counts) 0

abbrev value_of : Cells → ℕ → Option ℕ
value_of (counts, values) k = lookup k values

abbrev count_up : Cells → ℕ → Cells
count_up (counts, values) k = (insert k (suc (or_else (lookup k counts) 0)) counts, values)

abbrev set_value : Cells → ℕ → ℕ → Cells
set_value (counts, values) k v = (counts, insert k v values)

abbrev take_value : Cells → ℕ → Cells
take_value (counts, values) k = (counts, erase k values)

count_of-count_up : (s : Cells) (k : ℕ) → count_of (count_up s k) k ≡ suc (count_of s k)
count_of-count_up (counts, values) k =
    let found : lookup k (insert k (suc (or_else (lookup k counts) 0)) counts)
        ≡ some (suc (or_else (lookup k counts) 0)) =
      rw lookup-insert (ground arith) in
    rw found refl

value_of-take_value : (s : Cells) (k : ℕ) → value_of (take_value s k) k ≡ none
value_of-take_value (counts, values) k = rw lookup-erase (ground arith)

abbrev cells : Redis
cells = record {
  S = Cells;
  counter = count_of;
  value = value_of;
  incr = count_up;
  set = set_value;
  getdel = take_value;
  counter_incr = λ s k. count_of-count_up s k;
  value_incr = λ s k j. refl;
  value_getdel = λ s k. value_of-take_value s k;
}

abbrev empty_site : Site cells
empty_site = record { users = []; tokens = []; disable_registration = false; redis = ([], []) }

abbrev one_user : Site cells
one_user = record {
  users = (1, new_row cells true 77 5) ∷ [];
  tokens = [];
  disable_registration = true;
  redis = ([], []);
}

first_account : create cells true none false 1 77 5 empty_site ≡ done 1 one_user
unfolding create add_user is_super becomes_superuser insert
first_account = refl

account_one : lookup 1 one_user.users ≡ some (new_row cells true 77 5)
unfolding lookup
account_one = refl

-- The code 40 is sent to the user 1, who has a token.
abbrev forgotten : Site cells
forgotten = record one_user {
  tokens = record { user_id = 1; full_control = true } ∷ [];
  redis = ([], (40, 1) ∷ []);
}

abbrev restored : Site cells
restored = record {
  users = (1, new_row cells true 99 5) ∷ [];
  tokens = [];
  disable_registration = true;
  redis = ((8, 1) ∷ [], []);
}

resets : finalize_password_reset cells 8 5 40 99 true forgotten ≡ done true restored
unfolding finalize_password_reset finalize check_rate_limit redeem change_password logout_all lookup
    insert erase
resets = refl

finalize_password_reset-once_example :
    (e : UserError) × (s : Site cells) × (finalize_password_reset cells 9 5 40 11 false restored
      ≡ failed e s)
    × (s.users ≡ restored.users)
    × (s.tokens ≡ restored.tokens)
finalize_password_reset-once_example =
    finalize_password_reset-once cells 8 5 40 99 9 5 11 true false true forgotten restored resets
