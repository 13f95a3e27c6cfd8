-- ===== src/Rates.antt =====
-- The rules of exchange rates: api/ext/fxrate.py. An expression is what Python's parser gives for
-- the right side of a rule, and an identifier is the list of its parts between underscores, where
-- `any` stands for the part X. The decimal numbers are a parameter. `none` is an exception.
pub mod Candidates
pub mod Calculate
pub mod Reads
pub mod Cycles
pub mod Inverse
use bitcart.Base.{
  ℕ, zero, suc, ◌+◌, Bool, true, false, Option, none, some, List, [], ◌∷◌, ◌++◌, not, ◌&&◌, ◌||◌,
  ◌==◌, leb, ltb, if◌then◌else◌, contains, ◌>>=◌,
}

abbrev pub any : ℕ
any = 0

abbrev pub Ident : Type 0
Ident = List ℕ

abbrev pub Pair : Type 0
Pair = ℕ × ℕ

abbrev pub same_pair : Pair → Pair → Bool
same_pair (a, b) (c, d) = a == c && b == d

-- `ExchangePair(name)`
unfoldable pub pair_of : Ident → Option Pair
pair_of (l ∷ r ∷ []) = some (l, r)
pair_of _ = none

abbrev pub inverse : Pair → Pair
inverse (l, r) = (r, l)

pub data Operator : Type 0 where
  plus minus times over : Operator

pub data Sign : Type 0 where
  positive negative : Sign

-- The functions `mean`, `median` and `normalize`, and the exchanges.
pub data Function : Type 0 where
  mean median normalize : Function
  exchange : ℕ → Function

-- A constant is a decimal number: its digits, and how many of them stand after the point.
mutual
  pub data Expr : Type 0 where
    name : Ident → Expr
    call : Function → Args → Expr
    binary : Operator → Expr → Expr → Expr
    unary : Sign → Expr → Expr
    constant : ℕ → ℕ → Expr

  pub data Args : Type 0 where
    nil : Args
    cons : Expr → Args → Args

-- `len(ast_args) == 1 and isinstance(ast_args[0], ast.Name)`
abbrev pub single_name : Args → Option Ident
single_name (cons (name i) nil) = some i
single_name _ = none

-- The assignments of the rules' text, in order; of two for one name the later counts.
abbrev pub Rules : Type 0
Rules = List (Pair × Expr)

unfoldable pub rule_for : Pair → Rules → Option Expr
rule_for p [] = none
rule_for p ((q, e) ∷ rs) =
    let here = if same_pair q p then some e else none in
    elim (rule_for p rs) [ some f ↦ some f | none ↦ here ]

pub record Candidate : Type 0 where
  pub pair : Pair
  pub priority : ℕ
  pub is_inverse : Bool

unfoldable pub candidates_of : Pair → List Candidate
candidates_of (l, r) =
    record { pair = (l, r); priority = 0; is_inverse = false }
    ∷ record { pair = (r, l); priority = 1; is_inverse = true }
    ∷ record { pair = (l, any); priority = 2; is_inverse = false }
    ∷ record { pair = (any, r); priority = 2; is_inverse = false }
    ∷ record { pair = (r, any); priority = 3; is_inverse = true }
    ∷ record { pair = (any, l); priority = 3; is_inverse = true }
    ∷ record { pair = (any, any); priority = 4; is_inverse = false }
    ∷ []

unfoldable pub with_rules : Rules → List Candidate → List (Candidate × Expr)
with_rules rs [] = []
with_rules rs (c ∷ cs) =
    let rest = with_rules rs cs in
    elim (rule_for c.pair rs) [ none ↦ rest | some e ↦ (c, e) ∷ rest ]

-- `candidates.sort(key=priority)`, which is stable.
unfoldable pub insert_by_priority :
    Candidate × Expr → List (Candidate × Expr) → List (Candidate × Expr)
insert_by_priority c [] = c ∷ []
insert_by_priority (c, e) ((d, f) ∷ cs) =
    let rest = insert_by_priority (c, e) cs in
    if leb c.priority d.priority then (c, e) ∷ (d, f) ∷ cs else (d, f) ∷ rest

unfoldable pub sort_by_priority : List (Candidate × Expr) → List (Candidate × Expr)
sort_by_priority [] = []
sort_by_priority (c ∷ cs) = insert_by_priority c (sort_by_priority cs)

-- `ast.BinOp(left=1, op=Div, right=expression)`
abbrev pub inverted : Bool → Expr → Expr
inverted true e = binary over (constant 1 0) e
inverted false e = e

-- `find_candidate`; nothing is the NaN that it returns without a candidate.
unfoldable pub find_candidate : Rules → Pair → Option (Pair × Expr)
find_candidate rs p = elim (sort_by_priority (with_rules rs (candidates_of p))) [
  | [] ↦ none
  | (c, e) ∷ cs ↦ some (c.pair, inverted c.is_inverse e)
]

abbrev pub filled : ℕ → ℕ → ℕ
filled given part = if part == any then given else part

-- The pair that a name stands for, where the pair of the transformer is (left, right).
abbrev pub resolve : Pair → Pair → Pair
resolve (left, right) (l, r) = (filled left l, filled right r)

-- The decimal numbers of Python, with what the evaluation uses of them. An operation that is not
-- defined raises an exception.
pub record Decimals : Type 1 where
  pub D : Type 0
  pub nan : D
  pub decimal : ℕ → ℕ → D
  pub apply : Operator → D → D → Option D
  pub signed : Sign → D → Option D
  pub mean_of : List D → Option D
  pub median_of : List D → Option D
  pub truncated : D → D → Option D

module _ (N : Decimals) where
  open N use {D, nan, decimal, apply, signed, mean_of, median_of, truncated}

  -- What the exchanges quote.
  abbrev pub Quotes : Type 0
  Quotes = ℕ → Pair → Option D

  abbrev or_nan : Option D → D
  or_nan none = nan
  or_nan (some d) = d

  -- A call with one name as its argument, which is not visited.
  unfoldable pub call_on_pair : Quotes → Function → Pair → Option D
  call_on_pair quotes mean p = some nan
  call_on_pair quotes median p = some nan
  call_on_pair quotes normalize p = none
  call_on_pair quotes (exchange e) (l, r) =
      some (if l == r then decimal 1 0 else or_nan (quotes e (l, r)))

  -- A call on visited values; `mean()` of nothing is NaN, and an exchange that is not
  -- called on a name gives no number.
  unfoldable pub call_on_values : Function → List D → Option D
  call_on_values mean [] = some nan
  call_on_values mean (d ∷ ds) = mean_of (d ∷ ds)
  call_on_values median [] = some nan
  call_on_values median (d ∷ ds) = median_of (d ∷ ds)
  call_on_values normalize (d ∷ places ∷ []) = truncated d places
  call_on_values normalize _ = none
  call_on_values (exchange e) ds = none

  -- A call, on the name that is its only argument or on the values of its arguments.
  unfoldable pub call_value : Quotes → Function → Pair → Option Ident → Option (List D) → Option D
  call_value quotes g at (some i) values = pair_of i >>= λ p. call_on_pair quotes g (resolve at p)
  call_value quotes g at none values = values >>= λ ds. call_on_values g ds

-- `ExchangeTransformer.visit` for the pair `at`; `below` is `visit_Name`, the visit of a rule one level
-- deeper.
unfoldable mutual
  pub visit :
      (N : Decimals)
      → Quotes N
      → (Pair → Option (Decimals.D N))
      → Pair
      → Expr
      → Option (Decimals.D N)
  visit N quotes below at (name i) = pair_of i >>= λ p. below (resolve at p)
  visit N quotes below at (constant c k) = some (Decimals.decimal N c k)
  visit N quotes below at (unary g e) = visit N quotes below at e >>= λ d. Decimals.signed N g d
  visit N quotes below at (binary op e f) =
      visit N quotes below at e >>= λ d. visit N quotes below at f >>= λ c. Decimals.apply N op d c
  visit N quotes below at (call g args) =
      call_value N quotes g at (single_name args) (visit_all N quotes below at args)

  pub visit_all :
      (N : Decimals)
      → Quotes N
      → (Pair → Option (Decimals.D N))
      → Pair
      → Args
      → Option (List (Decimals.D N))
  visit_all N quotes below at nil = some []
  visit_all N quotes below at (cons e es) =
      visit N quotes below at e >>= λ d. visit_all N quotes below at es >>= λ ds. some (d ∷ ds)

-- `visit_Name` of a transformer that is `suc n` levels above the deepest one; there a rule is NaN when
-- there is one. Without a rule the comparison of the NaN of `find_candidate` with NaN fails, and its
-- subscript raises an exception, except at the deepest level.
unfoldable pub lookup_rate : (N : Decimals) → Quotes N → Rules → ℕ → Pair → Option (Decimals.D N)
lookup_rate N quotes rs zero p = some (Decimals.nan N)
lookup_rate N quotes rs (suc n) p =
    find_candidate rs p >>= λ (q, e). visit N quotes (lookup_rate N quotes rs n) p e

-- `MAX_DEPTH`
unfoldable pub max_depth : ℕ
max_depth = 8
