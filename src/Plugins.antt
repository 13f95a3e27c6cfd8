-- ===== src/Plugins.antt =====
-- The hooks, filters and events of plugins: api/services/plugin_registry.py. A callback is a function
-- of the positional and the keyword arguments that it is given; `none` is an exception. Names and
-- values are numbers.
use bitcart.Base.{
  ℕ, ◌≡◌, ◌≤◌, refl, Bool, true, false, Option, none, some, List, [], ◌∷◌, ◌++◌, not, ◌&&◌, ◌||◌,
  suc, zero, if◌then◌else◌, or_else, contains, length, arith,
}
use bitcart.Base.Dict.{Dict, lookup, insert}

-- `inspect.Parameter.kind`
pub data Kind : Type 0 where
  positional_only positional_or_keyword keyword_only var_positional var_keyword : Kind

abbrev takes_position : Kind → Bool
takes_position positional_only = true
takes_position positional_or_keyword = true
takes_position _ = false

abbrev takes_name : Kind → Bool
takes_name positional_or_keyword = true
takes_name keyword_only = true
takes_name _ = false

abbrev is_var_positional : Kind → Bool
is_var_positional var_positional = true
is_var_positional _ = false

abbrev is_var_keyword : Kind → Bool
is_var_keyword var_keyword = true
is_var_keyword _ = false

pub record Callback : Type 0 where
  pub params : List (ℕ × Kind)
  pub run : List ℕ → Dict ℕ → Option ℕ

any_kind : (Kind → Bool) → List (ℕ × Kind) → Bool
any_kind c [] = false
any_kind c ((n, k) ∷ ps) = c k || any_kind c ps

max_pos : List (ℕ × Kind) → ℕ
max_pos [] = 0
max_pos ((n, k) ∷ ps) = let rest = max_pos ps in if takes_position k then suc rest else rest

allowed_names : List (ℕ × Kind) → List ℕ
allowed_names [] = []
allowed_names ((n, k) ∷ ps) = let rest = allowed_names ps in if takes_name k then n ∷ rest else rest

-- `args[:n]`
first_args : ℕ → List ℕ → List ℕ
first_args zero xs = []
first_args (suc n) [] = []
first_args (suc n) (x ∷ xs) = x ∷ first_args n xs

-- `{k: v for k, v in kwargs.items() if k in names}`
named : List ℕ → Dict ℕ → Dict ℕ
named names [] = []
named names ((k, v) ∷ d) =
    let rest = named names d in if contains k names then (k, v) ∷ rest else rest

call_args : List (ℕ × Kind) → List ℕ → List ℕ
call_args ps args = if any_kind is_var_positional ps then args else first_args (max_pos ps) args

call_kwargs : List (ℕ × Kind) → Dict ℕ → Dict ℕ
call_kwargs ps kwargs =
    if any_kind is_var_keyword ps then kwargs else named (allowed_names ps) kwargs

-- `_dispatch_function`
dispatch_function : Callback → List ℕ → Dict ℕ → Option ℕ
dispatch_function f args kwargs = f.run (call_args f.params args) (call_kwargs f.params kwargs)

pub record EventData : Type 0 where
  pub params : List ℕ
  pub handlers : List ℕ

pub record Registry : Type 0 where
  pub callbacks : Dict (List Callback)
  pub events : Dict EventData

-- `register_hook`, which is `register_filter` too
register_hook : ℕ → Callback → Registry → Registry
register_hook name hook r = record r {
  callbacks = insert name (or_else (lookup name r.callbacks) [] ++ hook ∷ []) r.callbacks;
}

-- The loop of `apply_filters`: an exception leaves the value.
filtered : List Callback → ℕ → List ℕ → Dict ℕ → ℕ
filtered [] value args kwargs = value
filtered (f ∷ fs) value args kwargs =
    filtered fs (or_else (dispatch_function f (value ∷ args) kwargs) value) args kwargs

apply_filters : ℕ → ℕ → List ℕ → Dict ℕ → Registry → ℕ
apply_filters name value args kwargs r =
    filtered (or_else (lookup name r.callbacks) []) value args kwargs

-- `run_hook`: what each callback gave, exceptions included, for they do not stop the loop.
hook_results : List Callback → List ℕ → Dict ℕ → List (Option ℕ)
hook_results [] args kwargs = []
hook_results (f ∷ fs) args kwargs = dispatch_function f args kwargs ∷ hook_results fs args kwargs

run_hook : ℕ → List ℕ → Dict ℕ → Registry → List (Option ℕ)
run_hook name args kwargs r = hook_results (or_else (lookup name r.callbacks) []) args kwargs

register_event : ℕ → List ℕ → Registry → Registry
register_event name params r = record r {
  events = insert name (record { params = params; handlers = [] }) r.events;
}

register_event_handler : ℕ → ℕ → Registry → Registry
register_event_handler name handler r = elim (lookup name r.events) [
  | none ↦ r
  | some e ↦ record r {
    events = insert name (record e { handlers = e.handlers ++ handler ∷ [] }) r.events;
  }
]

included : List ℕ → List ℕ → Bool
included [] ys = true
included (x ∷ xs) ys = contains x ys && included xs ys

-- `process_plugin_task`: the handlers that are called; `keys` are those of the data, if it is a dict.
process_plugin_task : Bool → ℕ → Option (List ℕ) → Bool → Registry → List ℕ
process_plugin_task is_worker event keys for_worker r =
    if for_worker && not is_worker || not for_worker && is_worker
    then []
    else elim (lookup event r.events) [
      | none ↦ []
      | some e ↦ elim keys [
        | none ↦ []
        | some ks ↦ if included ks e.params && included e.params ks then e.handlers else []
      ]
    ]

-- A filter that is registered last is applied last, to what the others give.
filtered-append :
    (fs : List Callback) (f : Callback) (value : ℕ) (args : List ℕ) (kwargs : Dict ℕ)
    → filtered (fs ++ f ∷ []) value args kwargs ≡ (
        let before = filtered fs value args kwargs in
        or_else (dispatch_function f (before ∷ args) kwargs) before)
unfolding filtered
filtered-append [] f value args kwargs = refl
filtered-append (g ∷ fs) f value args kwargs =
    filtered-append fs f (or_else (dispatch_function g (value ∷ args) kwargs) value) args kwargs

length-first_args : (n : ℕ) (xs : List ℕ) → length (first_args n xs) ≤ n
unfolding first_args
length-first_args zero xs = omega arith
length-first_args (suc n) [] = omega arith
length-first_args (suc n) (x ∷ xs) = omega (arith, length-first_args n xs)

-- A callback without `*args` gets at most as many positional arguments as it has places for.
length-call_args :
    (ps : List (ℕ × Kind)) (args : List ℕ)
    → any_kind is_var_positional ps ≡ false
    → length (call_args ps args) ≤ max_pos ps
unfolding call_args
length-call_args ps args h = rw h (length-first_args (max_pos ps) args)
