-- ===== src/Invoice/Batch/Order.antt =====
-- How far a batch of `mark_complete` comes.
use bitcart.Base.{
  ℕ, ◌≡◌, ◌≢◌, refl, Option, none, some, List, [], ◌∷◌, ◌++◌, ◌∙◌, ap, arith, Option-cases, inl,
  inr, ◌⊎◌,
}
use bitcart.Invoice.{PaymentMethod}
use bitcart.Invoice.Batch.{
  Options, Ending, done, no_invoice, no_method, wrong_options, Shop, mark_one, mark_all, and_then,
  get, choose_method, missing, skipped, picked, Chosen,
}

-- A step that ends well hands its shop on, and only such a step does.
and_then-done :
    (r : Ending × Shop) (f : Shop → Ending × Shop) (shop : Shop)
    → and_then r f ≡ (done, shop)
    → (shop' : Shop) × (r ≡ (done, shop')) × (f shop' ≡ (done, shop))
and_then-done (done, s) f shop h = (s, refl, h)
and_then-done (wrong_options, s) f shop h = absurd (ground (arith, h))
and_then-done (no_invoice id, s) f shop h = absurd (ground (arith, h))
and_then-done (no_method id, s) f shop h = absurd (ground (arith, h))

and_then-other :
    (e : Ending) (s : Shop) (f : Shop → Ending × Shop) → e ≢ done → and_then (e, s) f ≡ (e, s)
and_then-other done s f h = absurd (h refl)
and_then-other wrong_options s f h = refl
and_then-other (no_invoice id) s f h = refl
and_then-other (no_method id) s f h = refl

-- The batch over what comes before a step that fails, and more, is the batch over what comes before,
-- with the error of the step.
mark_all-stops :
    (now user : ℕ) (xs ys : List (ℕ × Options)) (x : ℕ × Options) (e : Ending)
    (shop shop' shop'' : Shop)
    → mark_all now user xs shop ≡ (done, shop')
    → mark_one now user x shop' ≡ (e, shop'')
    → e ≢ done
    → mark_all now user (xs ++ x ∷ ys) shop ≡ (e, shop'')
unfolding mark_all
mark_all-stops now user [] ys x e shop shop' shop'' all one h =
    let same : shop ≡ shop' = ap (λ (r : Ending × Shop). r.1) all in
    ap (λ s. and_then (mark_one now user x s) (λ t. mark_all now user ys t)) same
    ∙ (ap (λ r. and_then r (λ t. mark_all now user ys t)) one
        ∙ and_then-other e shop'' (λ t. mark_all now user ys t) h)
mark_all-stops now user (y ∷ xs) ys x e shop shop' shop'' all one h =
    let (s, first, rest) =
      and_then-done (mark_one now user y shop) (λ t. mark_all now user xs t) shop' all in
    ap (λ r. and_then r (λ t. mark_all now user (xs ++ x ∷ ys) t)) first
    ∙ mark_all-stops now user xs ys x e s shop' shop'' rest one h

-- The error that an invoice of a batch ends with, if it does: it is not one of the user's, or has no
-- payment method with the id that the options name.
unfoldable pub error_of : ℕ → ℕ × Options → Shop → Option Ending
error_of user (id, o) shop = elim (get id user shop) [
  | none ↦ some (no_invoice id)
  | some r ↦ elim (choose_method o r.invoice) [ missing ↦ some (no_method id) | _ ↦ none ]
]

Chosen-cases :
    (c : Chosen) → (c ≡ missing) ⊎ ((c ≡ skipped) ⊎ ((m : PaymentMethod) × (c ≡ picked m)))
Chosen-cases missing = inl refl
Chosen-cases skipped = inr (inl refl)
Chosen-cases (picked m) = inr (inr (m, refl))

mark_one-error_of :
    (now user : ℕ) (x : ℕ × Options) (shop : Shop) {e : Ending}
    → error_of user x shop ≡ some e
    → (mark_one now user x shop ≡ (e, shop)) × (e ≢ done)
unfolding mark_one error_of
mark_one-error_of now user (id, o) shop {e} h = elim (Option-cases (get id user shop)) [
  | inl absent ↦
      let named : e ≡ no_invoice id = ground (arith, absent, h) in
      rw named (rw (absent, mark_one) refl, λ q. cc)
  | inr (r, found) ↦ elim (Chosen-cases (choose_method o r.invoice)) [
    | inl lacks ↦
        let named : e ≡ no_method id = ground (arith, found, lacks, h) in
        rw named (rw (found, mark_one) (rw (lacks) refl), λ q. cc)
    | inr (inl fine) ↦ absurd (ground (arith, found, fine, h))
    | inr (inr (m, fine)) ↦ absurd (ground (arith, found, fine, h))
  ]
]

-- Where a batch comes to an invoice that is not the user's, or that lacks the named method, it ends with
-- that error. What it has done to the invoices before stays, and it does nothing to this one and to
-- those after it.
pub mark_all-error :
    (now user : ℕ) (xs ys : List (ℕ × Options)) (x : ℕ × Options) (e : Ending) (shop shop' : Shop)
    → mark_all now user xs shop ≡ (done, shop')
    → error_of user x shop' ≡ some e
    → mark_all now user (xs ++ x ∷ ys) shop ≡ (e, shop')
mark_all-error now user xs ys x e shop shop' all h =
    let (step, wrong) = mark_one-error_of now user x shop' h in
    mark_all-stops now user xs ys x e shop shop' shop' all step wrong
