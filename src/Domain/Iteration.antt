-- ===== src/Domain/Iteration.antt =====
-- The elements of a domain, as its iterator gives them.
use plonk.Prelude.{
  ℕ, zero, suc, ◌+◌, ◌*◌, ◌<◌, ◌≡◌, refl, sym, ap, ◌∙◌, true, false, ◌==◌, ==_iff, Option, none,
  some, List, [], ◌∷◌, arith,
}
use plonk.Scalar.{Scalar, ◌⊖◌, ◌⊗◌}
use plonk.Scalar.Laws.{sub_self}
use plonk.Scalar.Roots.{Roots, pow-mul, pow-one}
use plonk.Domain.{
  EvaluationDomain, Elements, elements, next, collect, evaluate_vanishing_polynomial,
}
use plonk.Domain.Creation.{IsDomain}

module _ {F : Type 0} ⦃s : Scalar F⦄ ⦃r : Roots F⦄ where
  -- The powers of `g` from the `i`-th on.
  abbrev pub powers_from : F → ℕ → ℕ → List F
  powers_from g i zero = []
  powers_from g i (suc n) = r.pow g i ∷ powers_from g (suc i) n

  abbrev iterator : EvaluationDomain F → ℕ → F → Elements F
  iterator d i e = record { cur_elem = e; cur_pow = i; domain = d }

  next-end :
      (d : EvaluationDomain F) (i : ℕ) (e : F)
      → i ≡ d.size
      → next (iterator d i e) ≡ (none, iterator d i e)
  unfolding next
  next-end d i e h = let end : (i == d.size) ≡ true = (==_iff i d.size).1 h in rw (next, end) refl

  next-item :
      (d : EvaluationDomain F) (i : ℕ) (e : F)
      → i < d.size
      → next (iterator d i e) ≡ (some e, iterator d (suc i) (e ⊗ d.group_gen))
  unfolding next
  next-item d i e h =
      let more : (i == d.size) ≡ false = ground arith in
      rw (next, more) (ap (λ t. (some e, iterator d t (e ⊗ d.group_gen))) {x = i + 1} (omega arith))

  abbrev prepend : F → Option (List F) → Option (List F)
  prepend x none = none
  prepend x (some xs) = some (x ∷ xs)

  collect-next :
      (fuel : ℕ) (it it' : Elements F) (x : F)
      → next it ≡ (some x, it')
      → collect (suc fuel) it ≡ prepend x (collect fuel it')
  unfolding collect
  collect-next fuel it it' x h =
      ap
        (λ (step : Option F × Elements F). elim step.0 as (λ o. Option (List F)) [
          | none ↦ some []
          | some y ↦ elim (collect fuel step.1) as (λ o. Option (List F)) [
            | none ↦ none
            | some ys ↦ some (y ∷ ys)
          ]
        ])
        h

  collect-end :
      (fuel : ℕ) (it : Elements F) → next it ≡ (none, it) → collect (suc fuel) it ≡ some []
  unfolding collect
  collect-end fuel it h = rw (collect, h) refl

  collect_lem :
      (d : EvaluationDomain F) (i m : ℕ) (e : F)
      → i + m ≡ d.size
      → e ≡ r.pow d.group_gen i
      → collect (suc m) (iterator d i e) ≡ some (powers_from d.group_gen i m)
  collect_lem d i zero e h eq =
      collect-end zero (iterator d i e) (next-end d i e (omega (arith, h)))
  collect_lem d i (suc m) e h eq =
      collect-next (suc m) (iterator d i e) _ e (next-item d i e (omega (arith, h)))
      ∙ ap (prepend e) (
          collect_lem d (suc i) m (e ⊗ d.group_gen) (omega (arith, h))
            (ap (λ t. t ⊗ d.group_gen) eq ∙ sym (r.pow-suc d.group_gen i)))
      ∙ ap (λ t. some (t ∷ powers_from d.group_gen (suc i) m)) eq

  pub pow-element :
      (n : ℕ) (d : EvaluationDomain F) (i : ℕ)
      → IsDomain n d
      → r.pow (r.pow d.group_gen i) d.size ≡ s.one
  pow-element n d i h =
      pow-mul d.group_gen i d.size
      ∙ ap (r.pow d.group_gen) {x = i * d.size} {y = d.size * i} (omega arith)
      ∙ sym (pow-mul d.group_gen d.size i)
      ∙ ap (λ t. r.pow t i) h.order
      ∙ pow-one i

  -- The iterator over a domain ends after as many elements as its size, which are the powers of
  -- the generator from the zeroth on, and the vanishing polynomial is zero at all of them.
  pub elements_lem :
      (n : ℕ) (d : EvaluationDomain F)
      → IsDomain n d
      → (collect (suc d.size) (elements d) ≡ some (powers_from d.group_gen 0 d.size))
        × ((i : ℕ) → evaluate_vanishing_polynomial d (r.pow d.group_gen i) ≡ s.zero)
  unfolding elements evaluate_vanishing_polynomial
  elements_lem n d h = (
    collect_lem d 0 d.size s.one (omega arith) (sym (r.pow-zero d.group_gen)),
    λ i. ap (λ t. t ⊖ s.one) (pow-element n d i h) ∙ sub_self s.one,
  )
