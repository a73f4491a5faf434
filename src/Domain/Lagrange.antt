-- ===== src/Domain/Lagrange.antt =====
-- The Lagrange polynomials of a domain at a point outside of it.
use plonk.Prelude.{
  ℕ, zero, suc, ◌<◌, ◌≡◌, ◌≢◌, refl, sym, ap, ap₂, subst, ◌∙◌, Bool-cases, inl, inr, some,
  Option-cases, List, [], ◌∷◌, length, get_elem?, map, arith,
}
use plonk.Scalar.{Scalar, ◌⊖◌, ◌⊗◌}
use plonk.Scalar.Ring.{var, ◌:*◌, ring, mul-one, mul-zero}
use plonk.Scalar.Laws.{eq_of_sub, mul-eq_zero}
use plonk.Scalar.Roots.{Roots}
use plonk.Inversion.Inverses.{inverse_or_zero, inverse_or_zero-mul, batch_inversion_lem}
use plonk.Domain.{
  EvaluationDomain, differences, numerators, scale_each, evaluate_vanishing_polynomial,
  evaluate_all_lagrange_coefficients, compute_first_lagrange_evaluation,
}
use plonk.Domain.Creation.{IsDomain, power-positive}
use plonk.Domain.Iteration.{pow-element}

module _ {F : Type 0} ⦃s : Scalar F⦄ ⦃r : Roots F⦄ where
  coefficients_lem :
      (tau g root l : F) (n i : ℕ)
      → i < n
      → get_elem? (scale_each (map inverse_or_zero (differences tau g root n)) (numerators g l n)) i
        ≡ some (l ⊗ r.pow g i ⊗ inverse_or_zero (tau ⊖ root ⊗ r.pow g i))
  unfolding scale_each differences numerators
  coefficients_lem tau g root l zero i h = absurd (omega arith)
  coefficients_lem tau g root l (suc n) zero h = rw (r.pow-zero g, mul-one l, mul-one root) refl
  coefficients_lem tau g root l (suc n) (suc i) h =
      coefficients_lem tau g (root ⊗ g) (l ⊗ g) n i (omega arith)
      ∙ rw (r.pow-suc g i)
          (ap₂ (λ a b. some (a ⊗ inverse_or_zero (tau ⊖ b))) (shift l) (shift root))
    where
      shift : (a : F) → a ⊗ g ⊗ r.pow g i ≡ a ⊗ (r.pow g i ⊗ g)
      shift a =
          ring (a ∷ g ∷ r.pow g i ∷ []) (var 0 :* var 1 :* var 2) (var 0 :* (var 2 :* var 1)) refl

  length-coefficients :
      (tau g root l : F) (n : ℕ)
      → length (scale_each (map inverse_or_zero (differences tau g root n)) (numerators g l n)) ≡ n
  unfolding scale_each differences numerators
  length-coefficients tau g root l zero = refl
  length-coefficients tau g root l (suc n) = ap suc (length-coefficients tau g (root ⊗ g) (l ⊗ g) n)

  outside :
      (n : ℕ) (d : EvaluationDomain F) (tau : F) (i : ℕ)
      → IsDomain n d
      → r.pow tau d.size ≢ s.one
      → tau ⊖ r.pow d.group_gen i ≢ s.zero
  outside n d tau i h out e =
      out (ap (λ t. r.pow t d.size) (eq_of_sub tau _ e) ∙ pow-element n d i h)

  abbrev scale : EvaluationDomain F → F → F
  scale d tau = (r.pow tau d.size ⊖ s.one) ⊗ d.size_inv

  abbrev coefficients : EvaluationDomain F → F → List F
  coefficients d tau =
      scale_each (map inverse_or_zero (differences tau d.group_gen s.one d.size))
        (numerators d.group_gen (scale d tau) d.size)

  coefficients_computed :
      (d : EvaluationDomain F) (tau : F)
      → r.pow tau d.size ≢ s.one
      → evaluate_all_lagrange_coefficients d tau ≡ some (coefficients d tau)
  unfolding evaluate_all_lagrange_coefficients
  coefficients_computed d tau out = elim (Bool-cases (s.beq (r.pow tau d.size) s.one)) [
    | inl e ↦ absurd (out ((s.beq_iff _ _).0 e))
    | inr e ↦
        rw
          (
            evaluate_all_lagrange_coefficients,
            e,
            batch_inversion_lem (differences tau d.group_gen s.one d.size),
          )
          refl
  ]

  coefficient_value :
      (n : ℕ) (d : EvaluationDomain F) (tau : F) (i : ℕ)
      → IsDomain n d
      → r.pow tau d.size ≢ s.one
      → i < d.size
      → (u : F) × (get_elem? (coefficients d tau) i ≡ some u)
        × (u ⊗ (tau ⊖ r.pow d.group_gen i) ≡ scale d tau ⊗ r.pow d.group_gen i)
  coefficient_value n d tau i h out lt =
      let x = r.pow d.group_gen i in
      let difference = tau ⊖ x in
      (
        scale d tau ⊗ x ⊗ inverse_or_zero difference,
        coefficients_lem tau d.group_gen s.one (scale d tau) d.size i lt
            ∙ ap (λ t. some (scale d tau ⊗ x ⊗ inverse_or_zero (tau ⊖ t))) (s.one-mul x),
        ring (scale d tau ∷ x ∷ inverse_or_zero difference ∷ difference ∷ [])
              (var 0 :* var 1 :* var 2 :* var 3) (var 0 :* var 1 :* (var 3 :* var 2)) refl
            ∙ ap (s.mul (scale d tau ⊗ x))
                (inverse_or_zero-mul difference (outside n d tau i h out))
            ∙ mul-one _,
      )

  first_coefficient :
      (n : ℕ) (d : EvaluationDomain F) (tau : F)
      → IsDomain n d
      → r.pow tau d.size ≢ s.one
      → (u : F) × (get_elem? (coefficients d tau) 0 ≡ some u) × (u ⊗ (tau ⊖ s.one) ≡ scale d tau)
  first_coefficient n d tau h out =
      let positive : 0 < d.size = rw h.size_lem (power-positive d.log_size_of_group) in
      let (u, found, value) = coefficient_value n d tau 0 h out positive in
      (
        u,
        found,
        ap (λ x. u ⊗ (tau ⊖ x)) (sym (r.pow-zero d.group_gen))
            ∙ value
            ∙ ap (s.mul (scale d tau)) (r.pow-zero d.group_gen)
            ∙ mul-one _,
      )

  -- The verifier's quotient is the one that the equation of the coefficient determines.
  first_computed :
      (n : ℕ) (d : EvaluationDomain F) (tau u : F)
      → IsDomain n d
      → tau ⊖ s.one ≢ s.zero
      → u ⊗ (tau ⊖ s.one) ≡ scale d tau
      → compute_first_lagrange_evaluation d (evaluate_vanishing_polynomial d tau) tau ≡ some u
  unfolding compute_first_lagrange_evaluation evaluate_vanishing_polynomial
  first_computed n d tau u h apart value =
      let n_fr = s.from d.size in
      let y = tau ⊖ s.one in
      let t = r.pow tau d.size ⊖ s.one in
      elim (Option-cases (s.invert (n_fr ⊗ y))) [
        | inl e ↦ elim (mul-eq_zero n_fr y (s.invert-none _ e)) [
          | inl zero_size ↦ absurd (
              s.one-ne-zero (
                sym h.size_inverse
                ∙ ap (λ a. a ⊗ d.size_inv) zero_size
                ∙ s.mul_comm s.zero d.size_inv
                ∙ mul-zero _))
          | inr zero_y ↦ absurd (apart zero_y)
        ]
        | inr (i, e) ↦
            rw (compute_first_lagrange_evaluation, e)
              (ap some (
                sym (mul-one (t ⊗ i))
                ∙ ap (s.mul (t ⊗ i)) (sym h.size_inverse)
                ∙ ring (t ∷ i ∷ n_fr ∷ d.size_inv ∷ []) (var 0 :* var 1 :* (var 2 :* var 3))
                    (var 0 :* var 3 :* (var 1 :* var 2)) refl
                ∙ ap (λ a. a ⊗ (i ⊗ n_fr)) (sym value)
                ∙ ring (u ∷ y ∷ i ∷ n_fr ∷ []) (var 0 :* var 1 :* (var 2 :* var 3))
                    (var 0 :* (var 3 :* var 1 :* var 2)) refl
                ∙ ap (s.mul u) (s.mul-invert _ i e)
                ∙ mul-one u))
      ]

  -- At a point tau whose power to the domain size is not one, one coefficient is computed for each
  -- element, and the i-th times (tau - w^i) is (tau^n - 1) * w^i / n; the first is what the
  -- verifier computes by itself from the vanishing polynomial.
  pub evaluate_all_lagrange_coefficients_lem :
      (n : ℕ) (d : EvaluationDomain F) (tau : F)
      → IsDomain n d
      → r.pow tau d.size ≢ s.one
      → (us : List F) × (evaluate_all_lagrange_coefficients d tau ≡ some us)
        × (length us ≡ d.size)
        × ((i : ℕ)
            → i < d.size
            → (u : F) × (get_elem? us i ≡ some u)
              × (u ⊗ (tau ⊖ r.pow d.group_gen i)
                  ≡ (r.pow tau d.size ⊖ s.one) ⊗ d.size_inv ⊗ r.pow d.group_gen i))
        × (compute_first_lagrange_evaluation d (evaluate_vanishing_polynomial d tau) tau
            ≡ get_elem? us 0)
  evaluate_all_lagrange_coefficients_lem n d tau h out =
      let (u, found, value) = first_coefficient n d tau h out in
      (
        coefficients d tau,
        coefficients_computed d tau out,
        length-coefficients tau d.group_gen s.one (scale d tau) d.size,
        λ i lt. coefficient_value n d tau i h out lt,
        first_computed n d tau u h
              (subst (λ x. tau ⊖ x ≢ s.zero) (r.pow-zero d.group_gen) (outside n d tau 0 h out))
              value
            ∙ sym found,
      )
