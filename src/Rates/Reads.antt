-- ===== src/Rates/Reads.antt =====
-- What a visit of a rule (api/ext/fxrate.py) reads: the quotes of the exchanges that it collects.
use bitcart.Base.{
  ℕ, zero, suc, true, Option, some, List, ◌++◌, ◌>>=◌, contains, contains-append, ◌≡◌, refl, ap,
  Option-cases, inl, inr, arith,
}
use bitcart.Rates.{
  Ident, Pair, pair_of, Function, Expr, Args, Rules, find_candidate, resolve, Decimals, Quotes,
  visit, visit_all, lookup_rate, single_name, call_on_pair, call_value, max_depth,
}
use bitcart.Rates.Expr.{name, call, binary, unary, constant}
use bitcart.Rates.Args.{nil, cons}
use bitcart.Rates.Function.{mean, median, normalize, exchange}
use bitcart.Rates.Calculate.{
  uses, uses_all, uses_rule, exchanges_of, restricted, calculate_rules, no_quotes, rules_of,
}

module _ (N : Decimals) where
  open N use {D}

  -- The quotes of the exchanges in `xs` are the same.
  abbrev Agree : Quotes N → Quotes N → List ℕ → Type 0
  Agree q s xs = (x : ℕ) (p : Pair) → contains x xs ≡ true → q x p ≡ s x p

  Agree-left : (q s : Quotes N) (xs ys : List ℕ) → Agree q s (xs ++ ys) → Agree q s xs
  Agree-left q s xs ys h x p x_in = h x p (rw contains-append (ground (arith, x_in)))

  Agree-right : (q s : Quotes N) (xs ys : List ℕ) → Agree q s (xs ++ ys) → Agree q s ys
  Agree-right q s xs ys h x p x_in = h x p (rw contains-append (ground (arith, x_in)))

  call_on_pair-Agree :
      (q s : Quotes N) (g : Function) (p : Pair)
      → Agree q s (exchanges_of g)
      → call_on_pair N q g p ≡ call_on_pair N s g p
  unfolding call_on_pair
  call_on_pair-Agree q s mean p h = refl
  call_on_pair-Agree q s median p h = refl
  call_on_pair-Agree q s normalize p h = refl
  call_on_pair-Agree q s (exchange x) (l, r) h = rw (h x (l, r) (ground arith)) refl

  call_on_name-Agree :
      (q s : Quotes N) (g : Function) (at : Pair) (i : Ident)
      → Agree q s (exchanges_of g)
      → (pair_of i >>= λ p. call_on_pair N q g (resolve at p))
        ≡ (pair_of i >>= λ p. call_on_pair N s g (resolve at p))
  call_on_name-Agree q s g at i h =
      ap (λ f. pair_of i >>= f) (λ k p. call_on_pair-Agree q s g (resolve at p) h k)

  module _ (q s : Quotes N) (b c : Pair → Option D) (u : Pair → List ℕ) where
    mutual
      unfolding visit uses call_value

      visit-Agree :
          (at : Pair) (e : Expr)
          → ((p : Pair) → Agree q s (u p) → b p ≡ c p)
          → Agree q s (uses u at e)
          → visit N q b at e ≡ visit N s c at e
      visit-Agree at (name i) below h = elim (Option-cases (pair_of i)) [
        | inl e ↦ rw e refl
        | inr (p, e) ↦ rw e (below (resolve at p) (λ x o x_in. h x o (rw (uses, e) x_in)))
      ]
      visit-Agree at (constant d k) below h = refl
      visit-Agree at (unary g e) below h = rw (visit-Agree at e below h) refl
      visit-Agree at (binary op e f) below h =
          rw
            (
              visit-Agree at e below (Agree-left q s (uses u at e) (uses u at f) h),
              visit-Agree at f below (Agree-right q s (uses u at e) (uses u at f) h),
            )
            refl
      visit-Agree at (call g args) below h = elim (Option-cases (single_name args)) [
        | inr (i, e) ↦ rw e (call_on_name-Agree q s g at i (λ x o x_in. h x o (rw (uses, e) x_in)))
        | inl e ↦
            rw
              (
                e,
                visit_all-Agree at args below
                    (λ x o x_in. h x o (rw (uses, e, contains-append) (ground (arith, x_in)))),
              )
              refl
      ]

      visit_all-Agree :
          (at : Pair) (es : Args)
          → ((p : Pair) → Agree q s (u p) → b p ≡ c p)
          → Agree q s (uses_all u at es)
          → visit_all N q b at es ≡ visit_all N s c at es
      visit_all-Agree at nil below h = refl
      visit_all-Agree at (cons e es) below h =
          rw
            (
              visit-Agree at e below (Agree-left q s (uses u at e) (uses_all u at es) h),
              visit_all-Agree at es below (Agree-right q s (uses u at e) (uses_all u at es) h),
            )
            refl

  -- A rule that is looked up reads the quotes of the exchanges that it collects.
  lookup_rate-Agree :
      (q s : Quotes N) (rs : Rules) (n : ℕ) (p : Pair)
      → Agree q s (uses_rule rs n p)
      → lookup_rate N q rs n p ≡ lookup_rate N s rs n p
  unfolding lookup_rate uses_rule
  lookup_rate-Agree q s rs zero p h = refl
  lookup_rate-Agree q s rs (suc n) p h = elim (Option-cases (find_candidate rs p)) [
    | inl e ↦ rw e refl
    | inr ((o, f), e) ↦ rw e (
        visit-Agree q s (lookup_rate N q rs n) (lookup_rate N s rs n) (uses_rule rs n) p f
          (lookup_rate-Agree q s rs n) (λ x o x_in. h x o (rw (uses_rule, e) x_in)))
  ]

  restricted-Agree : (q : Quotes N) (xs : List ℕ) → Agree (restricted N xs q) q xs
  unfolding restricted
  restricted-Agree q xs x p x_in = rw x_in refl

  visit-asked :
      (q : Quotes N) (rs : Rules) (n : ℕ) (p : Pair) (e : Expr)
      → visit N
          (restricted N (uses (uses_rule rs n) p e) q)
          (lookup_rate N (restricted N (uses (uses_rule rs n) p e) q) rs n)
          p
          e
        ≡ visit N q (lookup_rate N q rs n) p e
  visit-asked q rs n p e =
      let xs = uses (uses_rule rs n) p e in
      visit-Agree (restricted N xs q) q (lookup_rate N (restricted N xs q) rs n)
        (lookup_rate N q rs n) (uses_rule rs n) p e (lookup_rate-Agree (restricted N xs q) q rs n)
        (restricted-Agree q xs)

-- The second visit, which knows only the quotes of the exchanges that the first one collected, gives
-- what it would give with the quotes of every exchange; the first one only has to end.
pub calculate_rules-every_quote :
    (N : Decimals) (coingecko : ℕ) (defaults : Rules) (given : Option Rules) (get_rate : Quotes N)
    (p : Pair)
    → calculate_rules N coingecko defaults get_rate given p ≡ (
        find_candidate (rules_of coingecko defaults given) p >>= λ (q, e).
        visit N
          (no_quotes N)
          (lookup_rate N (no_quotes N) (rules_of coingecko defaults given) max_depth)
          p
          e
        >>= λ _.
            visit N get_rate
              (lookup_rate N get_rate (rules_of coingecko defaults given) max_depth)
              p
              e
            >>= λ rate. some (rate, q))
unfolding calculate_rules
calculate_rules-every_quote N coingecko defaults given get_rate p =
    ap (λ f. find_candidate (rules_of coingecko defaults given) p >>= f)
      (λ k (q, e).
        visit N (no_quotes N)
          (lookup_rate N (no_quotes N) (rules_of coingecko defaults given) max_depth) p e
        >>= λ _.
            visit-asked N get_rate (rules_of coingecko defaults given) max_depth p e k >>= λ rate.
            some (rate, q))
