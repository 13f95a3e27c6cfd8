-- ===== src/Daemon/Server/Served.antt =====
-- With which wallets and locks a daemon calls a method.
use bitcart.Base.{
  ℕ, ◌≡◌, refl, Bool, true, false, not, ◌&&◌, Option, none, some, List, ◌∷◌, if◌then◌else◌, is_some,
  contains, ◌⊎◌, inl, inr, arith, Option-cases, Bool-cases, ap, ◌∙◌, sym,
}
use bitcart.Base.Dict.{Dict, lookup, lookup-insert}
use bitcart.Daemon.Server.{
  MethodData, Request, Response, Run, Server, Loading, Service, Gotten, load_wallet, needs_wallet,
  unlocked, get_wallet, acquire, release, call_of, run_method, with_lock, execute_method,
  handle_request,
}
use bitcart.Daemon.Server.Gotten.{failed, ready, waits}
use bitcart.Daemon.Server.Loading.{refused, not_started, started}

-- Where a method needs a wallet, the request has one, it is loaded, and its lock is held.
abbrev pub is_ready : MethodData → Option ℕ → Run → Bool
is_ready t key run =
    if t.requires_wallet
    then elim key [ none ↦ false | some k ↦ is_some (lookup k run.loaded) && contains k run.held ]
    else true

load_wallet-loaded :
    (k : ℕ) (l : Loading) (ws : Dict Bool)
    → (load_wallet (some k) l ws).0 ≡ none
    → is_some (lookup k (load_wallet (some k) l ws).1) ≡ true
unfolding load_wallet
load_wallet-loaded k (refused m) ws ok = ground (arith, ok)
load_wallet-loaded k (not_started m) ws ok = ground (arith, ok)
load_wallet-loaded k started ws ok = ground (arith, lookup-insert k k true ws)

pub get_wallet-failed :
    (d : Service) (method m : ℕ) (key : Option ℕ) (l : Loading) (ws : Dict Bool)
    → needs_wallet d method ≡ true
    → (load_wallet key l ws).0 ≡ some m
    → (get_wallet d method key l ws).0 ≡ failed m
unfolding get_wallet
get_wallet-failed d method m key l ws needs e = rw (e, needs, get_wallet) refl

Gotten-cases : (g : Gotten) → ((m : ℕ) × (g ≡ failed m)) ⊎ ((g ≡ ready) ⊎ (g ≡ waits))
Gotten-cases (failed m) = inl (m, refl)
Gotten-cases ready = inr (inl refl)
Gotten-cases waits = inr (inr refl)

get_wallet-loaded :
    (d : Service) (method k : ℕ) (l : Loading) (ws : Dict Bool)
    → needs_wallet d method ≡ true
    → (get_wallet d method (some k) l ws).0 ≡ ready
    → is_some (lookup k (get_wallet d method (some k) l ws).1) ≡ true
unfolding get_wallet
get_wallet-loaded d method k l ws needs ok = elim (Option-cases (load_wallet (some k) l ws).0) [
  | inl e ↦ load_wallet-loaded k l ws e
  | inr (m, e) ↦ ground (arith, sym (get_wallet-failed d method m (some k) l ws needs e) ∙ ok)
]

pub release-acquire : (key : Option ℕ) (ls : List ℕ) → release key (acquire key ls) ≡ ls
unfolding release acquire
release-acquire none ls = refl
release-acquire (some k) ls = ground arith

-- `contains` for a lock that is needed.
abbrev is_held : Option ℕ → List ℕ → Bool
is_held none ls = true
is_held (some k) ls = contains k ls

pub needed :
    (d : Service) (method : ℕ) (t : MethodData)
    → lookup method d.supported_methods ≡ some t
    → t.requires_wallet ≡ true
    → needs_wallet d method ≡ true
unfolding needs_wallet
needed d method t e needs = rw (e, needs_wallet) needs

get_wallet-is_ready :
    (d : Service) (method : ℕ) (t : MethodData) (key wallet : Option ℕ) (l : Loading)
    (ws : Dict Bool) (locks : List ℕ)
    → lookup method d.supported_methods ≡ some t
    → (t.requires_wallet && not (is_some key)) ≡ false
    → (get_wallet d method key l ws).0 ≡ ready
    → is_held key locks ≡ true
    → is_ready t key (record {
      method = method;
      wallet = wallet;
      held = locks;
      loaded = (get_wallet d method key l ws).1;
    })
      ≡ true
get_wallet-is_ready d method t none wallet l ws locks known given ok held = ground (arith, given)
get_wallet-is_ready d method t (some k) wallet l ws locks known given ok held =
    elim (Bool-cases t.requires_wallet) [
      | inr e ↦ rw e refl
      | inl e ↦ rw (e, get_wallet-loaded d method k l ws (needed d method t known e) ok, held) refl
    ]

pub acquire-is_held : (key : Option ℕ) (ls : List ℕ) → is_held key (acquire key ls) ≡ true
unfolding acquire
acquire-is_held none ls = refl
acquire-is_held (some k) ls = ground arith

-- No method is called, or the one of the request, with what it needs.
abbrev Called : Service → ℕ → Request → Server → Server → Type 0
Called d method r s s' =
    (s'.runs ≡ s.runs)
    ⊎ ((t : MethodData) × (run : Run) × (lookup method d.supported_methods ≡ some t)
        × (s'.runs ≡ run ∷ s.runs)
        × (is_ready t r.key run ≡ true))

module _ {R : Type 0} (d : Service) (loading : Loading) (body : Run → ℕ ⊎ R) (method : ℕ)
    (r : Request) where
  with_lock-Called :
      (s : Server)
      → is_held r.key s.wallet_locks ≡ true
      → ((with_lock d loading body method r s).1.wallet_locks ≡ s.wallet_locks)
        × Called d method r s (with_lock d loading body method r s).1
  unfolding with_lock run_method call_of
  with_lock-Called s held = elim (Gotten-cases (get_wallet d method r.key loading s.wallets).0) [
    | inl (m, e) ↦ rw (e, with_lock) (refl, inl refl)
    | inr (inr e) ↦ rw (e, with_lock) (refl, inl refl)
    | inr (inl e) ↦ elim (Option-cases (lookup method d.supported_methods)) [
      | inl f ↦ rw (e, f, with_lock) (refl, inl refl)
      | inr (t, f) ↦ elim (Bool-cases (t.requires_wallet && not (is_some r.key))) [
        | inl g ↦ rw (e, f, g, with_lock) (refl, inl refl)
        | inr g ↦
            rw (e, f, g, with_lock)
              (
                refl,
                inr (
                  t,
                  _,
                  refl,
                  refl,
                  get_wallet-is_ready d method t r.key (call_of method r s).wallet loading s.wallets
                      s.wallet_locks f g e held,
                ),
              )
      ]
    ]
  ]

  unlocked-lem :
      (answer : Option (Response R)) (ls : List ℕ)
      → (answer ≡ none) ⊎ (unlocked r.key answer (acquire r.key ls) ≡ ls)
  unfolding unlocked
  unlocked-lem none ls = inl refl
  unlocked-lem (some answer) ls = inr (release-acquire r.key ls)

  execute_method-Called :
      (s : Server)
      → (((execute_method d loading body method r s).0 ≡ none)
          ⊎ ((execute_method d loading body method r s).1.wallet_locks ≡ s.wallet_locks))
        × Called d method r s (execute_method d loading body method r s).1
  unfolding execute_method
  execute_method-Called s =
      let s' : Server = record s { wallet_locks = acquire r.key s.wallet_locks } in
      let (locks, runs) = with_lock-Called s' (acquire-is_held r.key s.wallet_locks) in
      let answer = (with_lock d loading body method r s').0 in
      (
        elim (unlocked-lem answer s.wallet_locks) [
          | inl e ↦ inl e
          | inr e ↦ inr (ap (unlocked r.key answer) locks ∙ e)
        ],
        runs,
      )

-- A request that is answered leaves the locks as they were. A request calls at most one method, and only
-- if it is authorized and names it; a method that needs a wallet finds the wallet of the request loaded
-- and holds its lock.
pub handle_request-served :
    {R : Type 0} (d : Service) (loading : Loading) (body : Run → ℕ ⊎ R) (authorized : Bool)
    (request : Option Request) (s : Server)
    → let p = handle_request d loading body authorized request s in
      ((p.0 ≡ none) ⊎ (p.1.wallet_locks ≡ s.wallet_locks))
      × ((p.1.runs ≡ s.runs)
          ⊎ ((r : Request) × (method : ℕ) × (t : MethodData) × (run : Run) × (authorized ≡ true)
              × (request ≡ some r)
              × (r.method ≡ some method)
              × (lookup method d.supported_methods ≡ some t)
              × (p.1.runs ≡ run ∷ s.runs)
              × (is_ready t r.key run ≡ true)))
unfolding handle_request
handle_request-served d loading body false request s = (inr refl, inl refl)
handle_request-served d loading body true none s = (inr refl, inl refl)
handle_request-served d loading body true (some r) s = elim (Option-cases r.method) [
  | inl e ↦ rw (e, handle_request) (inr refl, inl refl)
  | inr (method, e) ↦
      let (locks, runs) = execute_method-Called d loading body method r s in
      rw (e, handle_request)
        (
          locks,
          elim runs [
            | inl same ↦ inl same
            | inr (t, run, known, called, had) ↦ inr (
              r,
              method,
              t,
              run,
              refl,
              ap (λ m. some (record r { method = m })) (sym e),
              e,
              known,
              called,
              had,
            )
          ],
        )
]
