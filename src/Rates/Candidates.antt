-- ===== src/Rates/Candidates.antt =====
-- Which rule find_candidate (api/ext/fxrate.py) takes.
use bitcart.Base.{
  ℕ, Bool, true, false, ◌&&◌, Option, none, some, List, [], ◌∷◌, leb, ◌≡◌, refl, ap, ◌∙◌, ◌>>=◌,
  inl, inr, Option-cases, arith,
}
use bitcart.Rates.{
  any, Pair, Expr, Rules, rule_for, Candidate, candidates_of, with_rules, insert_by_priority,
  sort_by_priority, inverted, find_candidate,
}

-- No item of the list comes before one of priority `n`.
abbrev from : ℕ → List Candidate → Bool
from n [] = true
from n (c ∷ cs) = leb n c.priority && from n cs

abbrev ascending : List Candidate → Bool
ascending [] = true
ascending (c ∷ cs) = from c.priority cs && ascending cs

insert-first :
    (rs : Rules) (c : Candidate) (e : Expr) (cs : List Candidate)
    → from c.priority cs ≡ true
    → insert_by_priority (c, e) (with_rules rs cs) ≡ (c, e) ∷ with_rules rs cs
unfolding insert_by_priority with_rules
insert-first rs c e [] h = refl
insert-first rs c e (d ∷ cs) h = elim (Option-cases (rule_for d.pair rs)) [
  | inl none_d ↦ rw (with_rules, none_d) (insert-first rs c e cs (ground (arith, h)))
  | inr (f, some_d) ↦ rw (with_rules, some_d) (ground (arith, h))
]

sort-ascending :
    (rs : Rules) (cs : List Candidate)
    → ascending cs ≡ true
    → sort_by_priority (with_rules rs cs) ≡ with_rules rs cs
unfolding sort_by_priority with_rules
sort-ascending rs [] h = refl
sort-ascending rs (c ∷ cs) h = elim (Option-cases (rule_for c.pair rs)) [
  | inl none_c ↦ rw (with_rules, none_c) (sort-ascending rs cs (ground (arith, h)))
  | inr (e, some_c) ↦
      rw (with_rules, some_c, sort_by_priority, sort-ascending rs cs (ground (arith, h)))
        (insert-first rs c e cs (ground (arith, h)))
]

-- The first rule of the candidates, as a search in their order.
unfoldable first_rule : Rules → List Candidate → Option (Pair × Expr)
first_rule rs [] = none
first_rule rs (c ∷ cs) =
    let rest = first_rule rs cs in
    elim (rule_for c.pair rs) [ none ↦ rest | some e ↦ some (c.pair, inverted c.is_inverse e) ]

head : List (Candidate × Expr) → Option (Pair × Expr)
head [] = none
head ((c, e) ∷ cs) = some (c.pair, inverted c.is_inverse e)

head-with_rules : (rs : Rules) (cs : List Candidate) → head (with_rules rs cs) ≡ first_rule rs cs
unfolding head with_rules first_rule
head-with_rules rs [] = refl
head-with_rules rs (c ∷ cs) = ground (arith, head-with_rules rs cs)

find_candidate-head :
    (rs : Rules) (p : Pair)
    → find_candidate rs p ≡ head (sort_by_priority (with_rules rs (candidates_of p)))
unfolding find_candidate head
find_candidate-head rs p = elim (sort_by_priority (with_rules rs (candidates_of p))) [
  | [] ↦ refl
  | (c, e) ∷ cs ↦ refl
]

candidates-ascending : (p : Pair) → ascending (candidates_of p) ≡ true
unfolding candidates_of
candidates-ascending (l, r) = refl

find_candidate-first_rule :
    (rs : Rules) (p : Pair) → find_candidate rs p ≡ first_rule rs (candidates_of p)
find_candidate-first_rule rs p =
    find_candidate-head rs p
    ∙ (ap head (sort-ascending rs (candidates_of p) (candidates-ascending p))
        ∙ head-with_rules rs (candidates_of p))

infixr 6 ◌or_next◌
abbrev pub ◌or_next◌ : Option (Pair × Expr) → Option (Pair × Expr) → Option (Pair × Expr)
none or_next y = y
some x or_next y = some x

-- The rule written for `p`, or the inverse of it.
abbrev pub written : Rules → Bool → Pair → Option (Pair × Expr)
written rs inv p = rule_for p rs >>= λ e. some (p, inverted inv e)

first_rule-next :
    (rs : Rules) (c : Candidate) (cs : List Candidate)
    → first_rule rs (c ∷ cs) ≡ (written rs c.is_inverse c.pair or_next first_rule rs cs)
unfolding first_rule
first_rule-next rs c cs = elim (Option-cases (rule_for c.pair rs)) [
  | inl e ↦ rw (first_rule, e) refl
  | inr (a, e) ↦ rw (first_rule, e) refl
]

first_rule-last : (rs : Rules) (o : Option (Pair × Expr)) → (o or_next first_rule rs []) ≡ o
unfolding first_rule
first_rule-last rs none = refl
first_rule-last rs (some x) = refl

-- The rule that is taken for a pair is the first of these that is written: the pair's own, the inverse
-- of the rule of the inverted pair, the generic rules of the left side and of the right side, the
-- inverses of the generic rules of the inverted pair's sides, and the rule of any pair.
pub find_candidate-order :
    (rs : Rules) (l r : ℕ)
    → find_candidate rs (l, r) ≡ (
        written rs false (l, r)
        or_next written rs true (r, l)
        or_next written rs false (l, any)
        or_next written rs false (any, r)
        or_next written rs true (r, any)
        or_next written rs true (any, l)
        or_next written rs false (any, any))
unfolding candidates_of
find_candidate-order rs l r =
    rw (find_candidate-first_rule) (simp (first_rule-next, first_rule-last))
