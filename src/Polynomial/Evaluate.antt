-- ===== src/Polynomial/Evaluate.antt =====
-- `evaluate` and `truncate_leading_zeros` of src/fft/polynomial.rs, and `powers_of` of
-- src/util.rs, against the value of a polynomial by nested multiplication.
use plonk.Prelude.{
  ℕ, zero, suc, ◌+◌, ◌≤◌, ◌≡◌, refl, sym, ap, ap₂, ◌∙◌, true, Bool-cases, inl, inr, some, List, [],
  ◌∷◌, ◌++◌, reverse, length, arith,
}
use mathlib.Core.List.{reverse-reverse, reverse-append}
use plonk.Scalar.{Scalar, ◌⊕◌, ◌⊗◌}
use plonk.Scalar.Ring.{var, :0, :1, ◌:+◌, ◌:*◌, ring}
use plonk.Polynomial.{
  Polynomial, all_zero, pop_zeros, truncate_leading_zeros, last_nonzero, from_coefficients_vec,
  next_powers, powers_of, sum_products, evaluate,
}

module _ {F : Type 0} ⦃s : Scalar F⦄ where
  -- c0 + x * (c1 + x * (c2 + ...))
  abbrev pub value_at : List F → F → F
  value_at [] x = s.zero
  value_at (c ∷ cs) x = c ⊕ x ⊗ value_at cs x

  -- Horner's rule from the leading coefficient down.
  abbrev pub horner : F → F → List F → F
  horner x acc [] = acc
  horner x acc (c ∷ cs) = horner x (acc ⊗ x ⊕ c) cs

  horner-append :
      (x acc : F) (cs ds : List F) → horner x acc (cs ++ ds) ≡ horner x (horner x acc cs) ds
  horner-append x acc [] ds = refl
  horner-append x acc (c ∷ cs) ds = horner-append x (acc ⊗ x ⊕ c) cs ds

  pub horner-reverse : (x : F) (cs : List F) → horner x s.zero (reverse cs) ≡ value_at cs x
  horner-reverse x [] = refl
  horner-reverse x (c ∷ cs) =
      ap (horner x s.zero) (reverse-append (c ∷ []) cs)
      ∙ horner-append x s.zero (reverse cs) (c ∷ [])
      ∙ ap (λ t. t ⊗ x ⊕ c) (horner-reverse x cs)
      ∙ ring (value_at cs x ∷ x ∷ c ∷ []) (var 0 :* var 1 :+ var 2) (var 2 :+ var 1 :* var 0) refl

  pub value_at-reverse : (x : F) (cs : List F) → value_at (reverse cs) x ≡ horner x s.zero cs
  value_at-reverse x cs =
      sym (horner-reverse x (reverse cs)) ∙ ap (horner x s.zero) (reverse-reverse cs)

  horner-pop_zeros : (x : F) (cs : List F) → horner x s.zero (pop_zeros cs) ≡ horner x s.zero cs
  unfolding pop_zeros
  horner-pop_zeros x [] = refl
  horner-pop_zeros x (c ∷ cs) = elim (Bool-cases (s.beq c s.zero)) [
    | inl e ↦ rw e (
        horner-pop_zeros x cs
        ∙ ap (λ t. horner x t cs)
            (ring (x ∷ []) :0 (:0 :* var 0 :+ :0) refl
              ∙ ap (λ t. s.zero ⊗ x ⊕ t) (sym ((s.beq_iff c s.zero).0 e))))
    | inr e ↦ rw e refl
  ]

  -- Dropping leading zeros keeps every value.
  pub value_at-truncate_leading_zeros :
      (p : Polynomial F) (x : F) → value_at (truncate_leading_zeros p) x ≡ value_at p x
  unfolding truncate_leading_zeros
  value_at-truncate_leading_zeros p x =
      value_at-reverse x (pop_zeros (reverse p))
      ∙ horner-pop_zeros x (reverse p)
      ∙ horner-reverse x p

  last_nonzero-pop_zeros : (cs : List F) → last_nonzero (pop_zeros cs) ≡ true
  unfolding pop_zeros
  last_nonzero-pop_zeros [] = refl
  last_nonzero-pop_zeros (c ∷ cs) = elim (Bool-cases (s.beq c s.zero)) [
    | inl e ↦ rw e (last_nonzero-pop_zeros cs)
    | inr e ↦ rw e (rw e refl)
  ]

  -- The assertion of `from_coefficients_vec` cannot fail, and the values are kept.
  pub from_coefficients_vec_lem :
      (cs : List F)
      → (p : Polynomial F) × (from_coefficients_vec cs ≡ some p)
        × ((x : F) → value_at p x ≡ value_at cs x)
  unfolding from_coefficients_vec
  from_coefficients_vec_lem cs = (
    truncate_leading_zeros cs,
    rw (reverse-reverse (pop_zeros (reverse cs)), last_nonzero-pop_zeros (reverse cs)) refl,
    value_at-truncate_leading_zeros cs,
  )

  pub value_at-of_all_zero : (cs : List F) (x : F) → all_zero cs ≡ true → value_at cs x ≡ s.zero
  value_at-of_all_zero [] x h = refl
  value_at-of_all_zero (c ∷ cs) x h = elim (Bool-cases (s.beq c s.zero)) [
    | inl e ↦
        ap₂ (λ t u. t ⊕ x ⊗ u) ((s.beq_iff c s.zero).0 e) (value_at-of_all_zero cs x (rw e at h))
        ∙ ring (x ∷ []) (:0 :+ var 0 :* :0) :0 refl
    | inr e ↦ cc (rw e at h)
  ]

  sum_products-value_at :
      (sum power x : F) (cs : List F) (n : ℕ)
      → length cs ≤ n + 1
      → sum_products sum cs (power ∷ next_powers x power n) ≡ sum ⊕ power ⊗ value_at cs x
  unfolding sum_products next_powers
  sum_products-value_at sum power x [] n h =
      ring (sum ∷ power ∷ []) (var 0) (var 0 :+ var 1 :* :0) refl
  sum_products-value_at sum power x (c ∷ []) zero h =
      ring (sum ∷ power ∷ x ∷ c ∷ []) (var 0 :+ var 1 :* var 3)
        (var 0 :+ var 1 :* (var 3 :+ var 2 :* :0)) refl
  sum_products-value_at sum power x (c ∷ d ∷ cs) zero h = absurd (omega arith)
  sum_products-value_at sum power x (c ∷ cs) (suc n) h =
      sum_products-value_at (sum ⊕ power ⊗ c) (power ⊗ x) x cs n (omega arith)
      ∙ ring (sum ∷ power ∷ x ∷ c ∷ value_at cs x ∷ [])
          ((var 0 :+ var 1 :* var 3) :+ var 1 :* var 2 :* var 4)
          (var 0 :+ var 1 :* (var 3 :+ var 2 :* var 4)) refl

  -- The sum of the products of coefficients and powers, with its shortcut for the zero polynomial,
  -- is the value by nested multiplication at every point.
  pub evaluate-value_at : (p : Polynomial F) (x : F) → evaluate p x ≡ value_at p x
  unfolding evaluate powers_of
  evaluate-value_at p x = elim (Bool-cases (all_zero p)) [
    | inl e ↦ rw e (sym (value_at-of_all_zero p x e))
    | inr e ↦ rw e (
        sum_products-value_at s.zero s.one x p (length p) (omega arith)
        ∙ ring (value_at p x ∷ []) (:0 :+ :1 :* var 0) (var 0) refl)
  ]
