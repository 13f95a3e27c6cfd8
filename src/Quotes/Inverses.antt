-- ===== src/Quotes/Inverses.antt =====
-- The quotes that an exchange serves after a refresh.
use bitcart.Base.{
  ℕ, ◌≡◌, refl, Bool, true, false, ◌&&◌, Option, none, some, [], ◌∷◌, filter, arith, ◌==◌,
  Bool-cases, Option-cases, inl, inr, if◌then◌else◌, ◌∙◌, ap, sym,
}
use bitcart.Quotes.{
  Name, same_name, is_pair, QuoteDict, quote, put, update, get_inverse_dict, prepared,
}

same_name_refl : (n : Name) → same_name n n ≡ true
same_name_refl [] = refl
same_name_refl (x ∷ xs) = ground (arith, same_name_refl xs)

same_name-eq : (m n : Name) → same_name m n ≡ true → m ≡ n
same_name-eq [] [] h = refl
same_name-eq [] (y ∷ ys) h = cc
same_name-eq (x ∷ xs) [] h = cc
same_name-eq (x ∷ xs) (y ∷ ys) h = ground (arith, same_name-eq xs ys)

other_name : (k m n : Name) → same_name k m ≡ false → same_name k n ≡ true → same_name m n ≡ false
other_name k m n e f = elim (Bool-cases (same_name m n)) [
  | inl g ↦
      let km : k ≡ m = same_name-eq k n f ∙ sym (same_name-eq m n g) in
      absurd (ground (arith, e, ap (same_name k) (sym km), same_name_refl k))
  | inr g ↦ g
]

module _ {D : Type 0} where
  -- As in any dict, no name stands twice.
  abbrev pub IsDict : QuoteDict D → Type 0
  IsDict [] = Unit
  IsDict ((n, v) ∷ d) = (quote n d ≡ none) × IsDict d

  -- The value that the last item with a name has.
  quote_last : Name → QuoteDict D → Option D
  quote_last n [] = none
  quote_last n ((m, v) ∷ d) =
      let here = if same_name m n then some v else none in
      elim (quote_last n d) [ some w ↦ some w | none ↦ here ]

  quote-put :
      (n m : Name) (v : D) (d : QuoteDict D)
      → quote n (put m v d) ≡ (if same_name m n then some v else quote n d)
  unfolding quote put
  quote-put n m v [] = refl
  quote-put n m v ((k, w) ∷ d) = elim (Bool-cases (same_name k m)) [
    | inl e ↦
        rw (e, same_name-eq k m e)
          (elim (Bool-cases (same_name m n)) [ inl f ↦ rw f refl | inr f ↦ rw f refl ])
    | inr e ↦ rw e (elim (Bool-cases (same_name k n)) [
      | inl f ↦ rw (f, other_name k m n e f) refl
      | inr f ↦ rw f (quote-put n m v d)
    ])
  ]

  -- `a or b`, where `a` is there or not.
  abbrev pub first_of : Option D → Option D → Option D
  first_of none b = b
  first_of (some a) b = some a

  quote-update :
      (n : Name) (d other : QuoteDict D)
      → quote n (update d other) ≡ first_of (quote_last n other) (quote n d)
  unfolding update quote_last
  quote-update n d [] = refl
  quote-update n d ((m, v) ∷ other) =
      quote-update n (put m v d) other
      ∙ (ap (first_of (quote_last n other)) (quote-put n m v d)
          ∙ elim (Option-cases (quote_last n other)) [
            | inl e ↦
                rw e (elim (Bool-cases (same_name m n)) [ inl f ↦ rw f refl | inr f ↦ rw f refl ])
            | inr (w, e) ↦ rw e refl
          ])

module _ {D : Type 0} (is_zero : D → Bool) (invert : D → D) where
  -- The inverse of a quote that is not zero.
  abbrev pub inverse_of : Option D → Option D
  inverse_of none = none
  inverse_of (some v) = if is_zero v then none else some (invert v)

  pairs_of : QuoteDict D → QuoteDict D
  pairs_of = filter (λ (q : Name × D). is_pair q.0)

  quote-pairs_of :
      (l r : ℕ) (d : QuoteDict D) → quote (l ∷ r ∷ []) (pairs_of d) ≡ quote (l ∷ r ∷ []) d
  unfolding quote pairs_of
  quote-pairs_of l r [] = refl
  quote-pairs_of l r (([], v) ∷ d) = quote-pairs_of l r d
  quote-pairs_of l r ((a ∷ [], v) ∷ d) = ground (arith, quote-pairs_of l r d)
  quote-pairs_of l r ((a ∷ b ∷ [], v) ∷ d) = ground (arith, quote-pairs_of l r d)
  quote-pairs_of l r ((a ∷ b ∷ c ∷ n, v) ∷ d) = ground (arith, quote-pairs_of l r d)

  quote_last-inverse :
      (l r : ℕ) (d : QuoteDict D)
      → IsDict d
      → quote_last (l ∷ r ∷ []) (get_inverse_dict is_zero invert (pairs_of d))
        ≡ inverse_of (quote (r ∷ l ∷ []) d)
  unfolding quote quote_last get_inverse_dict pairs_of
  quote_last-inverse l r [] u = refl
  quote_last-inverse l r (([], v) ∷ d) u = quote_last-inverse l r d u.1
  quote_last-inverse l r ((a ∷ [], v) ∷ d) u = ground (arith, quote_last-inverse l r d u.1)
  quote_last-inverse l r ((a ∷ b ∷ c ∷ n, v) ∷ d) u = ground (arith, quote_last-inverse l r d u.1)
  quote_last-inverse l r ((a ∷ b ∷ [], v) ∷ d) u =
      let ih = quote_last-inverse l r d u.1 in
      elim (Bool-cases (a == r && b == l)) [
        | inl e ↦
            let (left, right) : (a ≡ r) × (b ≡ l) = (ground (arith, e), ground (arith, e)) in
            let gone : quote (r ∷ l ∷ []) d ≡ none =
              ap (λ x. quote (x ∷ l ∷ []) d) (sym left)
              ∙ (ap (λ y. quote (a ∷ y ∷ []) d) (sym right) ∙ u.0) in
            elim (Bool-cases (is_zero v)) [
              | inl z ↦ ground (arith, ih, gone)
              | inr z ↦ ground (arith, ih, gone)
            ]
        | inr e ↦
            elim (Option-cases
              (quote_last (l ∷ r ∷ []) (get_inverse_dict is_zero invert (pairs_of d)))) [
                | inl none_yet ↦ ground (arith, ih, e)
                | inr (w, found) ↦ ground (arith, ih, e)
              ]
      ]

  -- After a refresh that fetched a dict, a pair has the inverse of what was fetched for the inverse_of
  -- pair, where that is there and not zero, even if the pair itself was fetched too, and otherwise what
  -- was fetched for the pair.
  pub quote-prepared :
      (l r : ℕ) (fetched : QuoteDict D)
      → IsDict fetched
      → quote (l ∷ r ∷ []) (prepared is_zero invert fetched)
        ≡ first_of (inverse_of (quote (r ∷ l ∷ []) fetched)) (quote (l ∷ r ∷ []) fetched)
  unfolding prepared pairs_of
  quote-prepared l r fetched u =
      quote-update (l ∷ r ∷ []) (pairs_of fetched)
        (get_inverse_dict is_zero invert (pairs_of fetched))
      ∙ rw (quote_last-inverse l r fetched u, quote-pairs_of l r fetched)
