-- ===== src/Polynomial/Scalars.antt =====
-- Products and sums of a polynomial with a scalar, of src/fft/polynomial.rs, at every point.
use plonk.Prelude.{◌≡◌, refl, sym, ap, ◌∙◌, true, false, Bool-cases, inl, inr, some, [], ◌∷◌, map}
use plonk.Scalar.{Scalar, ◌⊕◌, ◌⊗◌}
use plonk.Scalar.Ring.{var, :0, ◌:+◌, ◌:*◌, ring}
use plonk.Polynomial.{Polynomial, is_zero, evaluate, mul_scalar, set_first, add_scalar}
use plonk.Polynomial.Evaluate.{
  value_at, value_at-of_all_zero, evaluate-value_at, from_coefficients_vec_lem,
}
use plonk.Polynomial.Sums.{value_at-map}

module _ {F : Type 0} ⦃s : Scalar F⦄ where
  evaluate-of_is_zero : (p : Polynomial F) (x : F) → is_zero p ≡ true → evaluate p x ≡ s.zero
  unfolding is_zero
  evaluate-of_is_zero p x h = evaluate-value_at p x ∙ value_at-of_all_zero p x h

  pub evaluate-nil : (x : F) → evaluate {F = F} [] x ≡ s.zero
  evaluate-nil x = evaluate-value_at [] x

  -- The product with a scalar is computed, and has the product of the values everywhere.
  pub mul_scalar-evaluate :
      (p : Polynomial F) (c : F)
      → (q : Polynomial F) × (mul_scalar p c ≡ some q) × ((x : F) → evaluate q x ≡ evaluate p x ⊗ c)
  unfolding mul_scalar
  mul_scalar-evaluate p c = elim (Bool-cases (is_zero p)) [
    | inl z ↦ (
      [],
      rw z refl,
      λ x.
          evaluate-nil x
          ∙ ring (c ∷ []) :0 (:0 :* var 0) refl
          ∙ ap (λ t. t ⊗ c) (sym (evaluate-of_is_zero p x z)),
    )
    | inr n ↦ elim (Bool-cases (s.beq c s.zero)) [
      | inl z ↦ (
        [],
        rw (n, z) refl,
        λ x.
            evaluate-nil x
            ∙ ring (evaluate p x ∷ []) :0 (var 0 :* :0) refl
            ∙ ap (λ t. evaluate p x ⊗ t) (sym ((s.beq_iff c s.zero).0 z)),
      )
      | inr m ↦
          let (q, e, values) = from_coefficients_vec_lem (map (λ a. a ⊗ c) p) in
          (
            q,
            rw (n, m) e,
            λ x.
                evaluate-value_at q x
                ∙ values x
                ∙ value_at-map (λ a. a ⊗ c) c (λ a. s.mul_comm a c) p x
                ∙ s.mul_comm _ _
                ∙ ap (λ t. t ⊗ c) (sym (evaluate-value_at p x)),
          )
    ]
  ]

  set_first-value_at :
      (p : Polynomial F) (c : F)
      → is_zero p ≡ false
      → (q : Polynomial F) × (set_first (λ a. a ⊕ c) p ≡ some q)
        × ((x : F) → value_at q x ≡ value_at p x ⊕ c)
  unfolding is_zero
  set_first-value_at [] c h = cc
  set_first-value_at (a ∷ p) c h = (
    (a ⊕ c) ∷ p,
    refl,
    λ x.
        ring (a ∷ c ∷ x ∷ value_at p x ∷ []) (var 0 :+ var 1 :+ var 2 :* var 3)
          (var 0 :+ var 2 :* var 3 :+ var 1) refl,
  )

  pub add_scalar-evaluate :
      (p : Polynomial F) (c : F)
      → (q : Polynomial F) × (add_scalar p c ≡ some q) × ((x : F) → evaluate q x ≡ evaluate p x ⊕ c)
  unfolding add_scalar
  add_scalar-evaluate p c = elim (Bool-cases (is_zero p)) [
    | inl z ↦
        let (q, e, values) = from_coefficients_vec_lem (c ∷ []) in
        (
          q,
          rw z e,
          λ x.
              evaluate-value_at q x
              ∙ values x
              ∙ ring (c ∷ x ∷ []) (var 0 :+ var 1 :* :0) (:0 :+ var 0) refl
              ∙ ap (λ t. t ⊕ c) (sym (evaluate-of_is_zero p x z)),
        )
    | inr n ↦ elim (Bool-cases (s.beq c s.zero)) [
      | inl z ↦ (
        p,
        rw (n, z) refl,
        λ x.
            ring (evaluate p x ∷ []) (var 0) (var 0 :+ :0) refl
            ∙ ap (λ t. evaluate p x ⊕ t) (sym ((s.beq_iff c s.zero).0 z)),
      )
      | inr m ↦
          let (q, e, values) = set_first-value_at p c n in
          (
            q,
            rw (n, m) e,
            λ x. evaluate-value_at q x ∙ values x ∙ ap (λ t. t ⊕ c) (sym (evaluate-value_at p x)),
          )
    ]
  ]
