-- ===== src/Daemon/Server.antt =====
-- How a daemon answers a request: `authenticate` of daemons/utils.py, `handle_request` of
-- daemons/base.py, `execute_method` of daemons/genericprocessor.py and `load_wallet` of daemons/eth.py.
-- What the files, the node and the methods do are arguments. Requests come one after another, and the
-- node has its blocks, so that the only waiting is for a wallet to be synchronized. Texts are numbers.
pub mod Served
pub mod Started
use bitcart.Base.{
  ℕ, Bool, true, false, not, ◌&&◌, Option, none, some, List, [], ◌∷◌, ◌==◌, if◌then◌else◌, is_some,
  ◌⊎◌, inl, inr,
}
use bitcart.Base.Int.{ℤ, pos, negsuc}
use bitcart.Base.Dict.{Dict, lookup, insert, erase}

-- What the decorator `rpc` says of a method.
pub record MethodData : Type 0 where
  pub requires_wallet : Bool
  pub requires_network : Bool

-- A request whose text is JSON. The key is `get_wallet_key` of the account, if there is one; `wallet` is
-- the keyword of that name among the parameters.
pub record Request : Type 0 where
  pub id : Option ℕ
  pub method : Option ℕ
  pub key : Option ℕ
  pub one_time : Bool
  pub wallet : Option ℕ

pub data Response (R : Type 0) : Type 0 where
  result : R → Option ℕ → Response R
  error : ℤ → ℕ → Option ℕ → Response R

-- A call of a method: the wallet that it gets, the locks that are held and the wallets that are loaded.
pub record Run : Type 0 where
  pub method : ℕ
  pub wallet : Option ℕ
  pub held : List ℕ
  pub loaded : Dict Bool

-- `self.wallets`, with whether the wallet's `start` has returned; the locks that are held; the calls.
pub record Server : Type 0 where
  pub wallets : Dict Bool
  pub wallet_locks : List ℕ
  pub runs : List Run

-- How loading a wallet goes: the file or the key is refused, `add_contract` or `start` raises, or neither.
pub data Loading : Type 0 where
  refused not_started : ℕ → Loading
  started : Loading

-- The parts of a daemon that are arguments: its methods, the messages of its specification with their
-- codes, and whether a message occurs in another one.
pub record Service : Type 0 where
  pub supported_methods : Dict MethodData
  pub electrum_map : List (ℕ × ℤ)
  pub occurs : ℕ → ℕ → Bool
  pub no_sync_wait : Bool
  pub unauthorized : ℕ
  pub parse_error : ℕ
  pub procedure_not_found : ℕ
  pub wallet_not_loaded : ℕ

-- The exception that is raised, if one is, and the wallets.
unfoldable pub load_wallet : Option ℕ → Loading → Dict Bool → Option ℕ × Dict Bool
load_wallet none l ws = (none, ws)
load_wallet (some k) l ws = elim (lookup k ws) [
  | some b ↦ elim l [ not_started m ↦ (some m, ws) | _ ↦ (none, ws) ]
  | none ↦ elim l [
    | refused m ↦ (some m, ws)
    | not_started m ↦ (some m, insert k false ws)
    | started ↦ (none, insert k true ws)
  ]
]

-- A lock is free when a request takes it, since requests come one after another.
unfoldable pub acquire : Option ℕ → List ℕ → List ℕ
acquire none ls = ls
acquire (some k) ls = k ∷ ls

unfoldable pub release : Option ℕ → List ℕ → List ℕ
release none ls = ls
release (some k) [] = []
release (some k) (l ∷ ls) = let rest = release (some k) ls in if l == k then ls else l ∷ rest

-- `close_wallet_impl(wallet_key, locked=True)` at the end of a request, where closing does not fail.
unfoldable pub close_one_time : Bool → Option ℕ → Dict Bool → Dict Bool
close_one_time true (some k) ws = erase k ws
close_one_time _ _ ws = ws

-- What a method is called with. A keyword `wallet` of the request takes the place of the one that
-- `functools.partial` gives.
unfoldable pub call_of : ℕ → Request → Server → Run
call_of method r s = record {
  method = method;
  wallet = elim r.wallet [ some w ↦ some w | none ↦ r.key ];
  held = s.wallet_locks;
  loaded = s.wallets;
}

-- What `_get_wallet` ends with, if it does: only `start` makes a wallet synchronized, and no other
-- request for the wallet runs while its lock is held.
pub data Gotten : Type 0 where
  failed : ℕ → Gotten
  ready waits : Gotten

unfoldable pub is_still_syncing : Option ℕ → Dict Bool → Bool
is_still_syncing none ws = false
is_still_syncing (some k) ws = elim (lookup k ws) [ some b ↦ not b | none ↦ false ]

-- The `finally` of a request that ends.
unfoldable pub unlocked : {R : Type 0} → Option ℕ → Option (Response R) → List ℕ → List ℕ
unfolding release
unlocked key none ls = ls
unlocked key (some answer) ls = release key ls

module _ (d : Service) where
  open d use {supported_methods, no_sync_wait, electrum_map, occurs}

  code_in : List (ℕ × ℤ) → ℕ → ℤ → ℤ
  code_in [] message fallback_code = fallback_code
  code_in ((m, c) ∷ ms) message fallback_code =
      let rest = code_in ms message fallback_code in if occurs m message then c else rest

  unfoldable pub get_error_code : ℕ → ℤ → ℤ
  unfolding code_in
  get_error_code message fallback_code = code_in electrum_map message fallback_code

  -- `req_method not in self.supported_methods or ....requires_wallet`
  unfoldable pub needs_wallet : ℕ → Bool
  needs_wallet method = elim (lookup method supported_methods) [
    | none ↦ true
    | some t ↦ t.requires_wallet
  ]

  -- `not self.NO_SYNC_WAIT` and `not should_skip`
  unfoldable pub waits_for : ℕ → Bool
  waits_for method =
      not no_sync_wait
      && elim (lookup method supported_methods) [ none ↦ false | some t ↦ t.requires_network ]

  unfoldable pub get_wallet : ℕ → Option ℕ → Loading → Dict Bool → Gotten × Dict Bool
  unfolding load_wallet needs_wallet waits_for is_still_syncing
  get_wallet method key l ws =
      let (raised, ws') = load_wallet key l ws in
      let gotten : Gotten = elim raised [
        | some message ↦ if needs_wallet method then failed message else ready
        | none ↦ if waits_for method && is_still_syncing key ws' then waits else ready
      ] in
      (gotten, ws')

module _ {R : Type 0} (d : Service) (loading : Loading) (body : Run → ℕ ⊎ R) where
  open d use {supported_methods, unauthorized, parse_error, procedure_not_found, wallet_not_loaded}

  -- The call of a method that is known, with its answer: a message or a result.
  unfoldable pub run_method : ℕ → Request → Server → Response R × Server
  unfolding get_error_code close_one_time call_of
  run_method method r s =
      let run = call_of method r s in
      let answer : Response R = elim (body run) [
        | inl message ↦ error (get_error_code d message (negsuc 32602)) message r.id
        | inr v ↦ result v r.id
      ] in
      (
        answer,
        record s { wallets = close_one_time r.one_time r.key s.wallets; runs = run ∷ s.runs },
      )

  -- The body of the outer `try`, once the lock is held; `none` if it never ends.
  unfoldable pub with_lock : ℕ → Request → Server → Option (Response R) × Server
  unfolding get_wallet run_method
  with_lock method r s =
      let (gotten, ws) = get_wallet d method r.key loading s.wallets in
      let s' : Server = record s { wallets = ws } in
      elim gotten [
        | failed message ↦ (some (error (get_error_code d message (negsuc 32004)) message r.id), s')
        | waits ↦ (none, s')
        | ready ↦ elim (lookup method supported_methods) [
          | none ↦ (some (error (negsuc 32600) procedure_not_found r.id), s')
          | some t ↦
              if t.requires_wallet && not (is_some r.key)
              then (some (error (negsuc 31999) wallet_not_loaded r.id), s')
              else (let (answer, s'') = run_method method r s' in (some answer, s''))
        ]
      ]

  unfoldable pub execute_method : ℕ → Request → Server → Option (Response R) × Server
  unfolding with_lock acquire unlocked
  execute_method method r s =
      let (answer, s') =
        with_lock method r (record s { wallet_locks = acquire r.key s.wallet_locks }) in
      (answer, record s' { wallet_locks = unlocked r.key answer s'.wallet_locks })

  -- `handle_request` under `authenticate`; a body that is no JSON is `none`.
  unfoldable pub handle_request : Bool → Option Request → Server → Option (Response R) × Server
  unfolding execute_method
  handle_request false request s = (some (error (negsuc 32599) unauthorized none), s)
  handle_request true none s = (some (error (negsuc 32699) parse_error none), s)
  handle_request true (some r) s = elim r.method [
    | none ↦ (some (error (negsuc 32600) procedure_not_found r.id), s)
    | some method ↦ execute_method method r s
  ]
