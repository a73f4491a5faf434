-- ===== src/Proving/Remainder.antt =====
-- What the linearisation of the permutation widget leaves out of its term of the quotient.
use plonk.Prelude.{◌-◌, ltb, ◌≡◌, refl, ap, ap₂, ◌∙◌, false, some, List, [], ◌∷◌, get_elem?}
use plonk.Scalar.{Scalar, ◌⊕◌, ◌⊖◌, ◌⊗◌}
use plonk.Scalar.Ring.{var, :0, :1, ◌:+◌, ◌:-◌, ◌:*◌, :neg, ring}
use plonk.Scalar.Roots.{Roots}
use plonk.Error.{ok}
use plonk.Polynomial.{Polynomial, degree, add, evaluate}
use plonk.Polynomial.Sums.{add-evaluate}
use plonk.Polynomial.Scalars.{mul_scalar-evaluate}
use plonk.Domain.{EvaluationDomain, new, evaluate_all_lagrange_coefficients}
use plonk.Widget.Quotient.{square}
use plonk.Widget.Linearization.{ProofEvaluations}
use plonk.Widget.Permutation.{
  PermutationKey, PermutationChallenges, k_1, k_2, k_3, quotient_identity_range_check,
  quotient_copy_range_check, quotient_term_check_one, permutation_quotient,
  linearizer_identity_range_check, linearizer_copy_range_check, linearizer_check_is_one,
  permutation_linearization,
}
use plonk.Widget.Agreement.{at_point}
use plonk.Proving.{r_0_eval}

module _ {F : Type 0} ⦃s : Scalar F⦄ where
  pub move : (b k z : F) → b ⊗ k ⊗ z ≡ k ⊗ (b ⊗ z)
  move b k z = ring (b ∷ k ∷ z ∷ []) (var 0 :* var 1 :* var 2) (var 1 :* (var 0 :* var 2)) refl

  -- The value of the term that is left out of the linearisation.
  left_out :
      (A B C d g b s_4 zw al l1 z : F) (i : F)
      → i ⊗ z ⊗ al
          ⊕ s.neg (A ⊗ B ⊗ C ⊗ (d ⊕ b ⊗ s_4 ⊕ g) ⊗ zw ⊗ al)
          ⊕ (z ⊖ s.one) ⊗ (l1 ⊗ (al ⊗ al))
        ≡ z ⊗ (i ⊗ al)
          ⊕ s_4 ⊗ s.neg (A ⊗ B ⊗ C ⊗ (b ⊗ zw) ⊗ al)
          ⊕ z ⊗ (l1 ⊗ (al ⊗ al))
          ⊕ (s.zero ⊖ l1 ⊗ (al ⊗ al) ⊖ al ⊗ A ⊗ B ⊗ C ⊗ (d ⊕ g) ⊗ zw)
  left_out A B C d g b s_4 zw al l1 z i =
      ring (A ∷ B ∷ C ∷ d ∷ g ∷ b ∷ s_4 ∷ zw ∷ al ∷ l1 ∷ z ∷ i ∷ [])
        (var 11 :* var 10 :* var 8
          :+ :neg (var 0 :* var 1 :* var 2 :* (var 3 :+ var 5 :* var 6 :+ var 4) :* var 7 :* var 8)
          :+ (var 10 :- :1) :* (var 9 :* (var 8 :* var 8)))
        (var 10 :* (var 11 :* var 8)
          :+ var 6 :* :neg (var 0 :* var 1 :* var 2 :* (var 5 :* var 7) :* var 8)
          :+ var 10 :* (var 9 :* (var 8 :* var 8))
          :+ (:0
              :- var 9 :* (var 8 :* var 8)
              :- var 8 :* var 0 :* var 1 :* var 2 :* (var 3 :+ var 4) :* var 7))
        refl

  abbrev pub permutation_at : F → PermutationKey (Polynomial F) → PermutationKey (List F)
  permutation_at x key = record {
    s_sigma_1 = at_point x key.s_sigma_1;
    s_sigma_2 = at_point x key.s_sigma_2;
    s_sigma_3 = at_point x key.s_sigma_3;
    s_sigma_4 = at_point x key.s_sigma_4;
  }

  -- The evaluations of the permutation polynomials are those at `x`.
  pub record PermutedAt (x : F) (key : PermutationKey (Polynomial F)) (ev : ProofEvaluations F)
      : Type 0 where
    pub sigma_1_lem : ev.s_sigma_1_eval ≡ evaluate key.s_sigma_1 x
    pub sigma_2_lem : ev.s_sigma_2_eval ≡ evaluate key.s_sigma_2 x
    pub sigma_3_lem : ev.s_sigma_3_eval ≡ evaluate key.s_sigma_3 x

  -- The factors that the linearisation and the quotient share.
  abbrev pub identity_factor : F → PermutationChallenges F → ProofEvaluations F → F
  identity_factor x ch ev =
      (ev.a_eval ⊕ ch.beta ⊗ x ⊕ ch.gamma)
      ⊗ (ev.b_eval ⊕ k_1 ⊗ (ch.beta ⊗ x) ⊕ ch.gamma)
      ⊗ (ev.c_eval ⊕ k_2 ⊗ (ch.beta ⊗ x) ⊕ ch.gamma)
      ⊗ (ev.d_eval ⊕ k_3 ⊗ (ch.beta ⊗ x) ⊕ ch.gamma)

  abbrev pub copy_factor : PermutationChallenges F → ProofEvaluations F → F
  copy_factor ch ev =
      (ev.a_eval ⊕ ch.beta ⊗ ev.s_sigma_1_eval ⊕ ch.gamma)
      ⊗ (ev.b_eval ⊕ ch.beta ⊗ ev.s_sigma_2_eval ⊕ ch.gamma)
      ⊗ (ev.c_eval ⊕ ch.beta ⊗ ev.s_sigma_3_eval ⊕ ch.gamma)
      ⊗ (ch.beta ⊗ ev.z_eval)
      ⊗ ch.alpha

  pub permutation_quotient_value :
      (key : PermutationKey (Polynomial F)) (ev : ProofEvaluations F) (ch : PermutationChallenges F)
      (x z l1 : F)
      → PermutedAt x key ev
      → permutation_quotient
          (permutation_at x key)
          (x ∷ [])
          0
          ev.a_eval
          ev.b_eval
          ev.c_eval
          ev.d_eval
          z
          ev.z_eval
          (l1 ⊗ square ch.alpha)
          ch
        ≡ some (
            z ⊗ (identity_factor x ch ev ⊗ ch.alpha)
            ⊕ evaluate key.s_sigma_4 x ⊗ s.neg (copy_factor ch ev)
            ⊕ z ⊗ (l1 ⊗ square ch.alpha)
            ⊕ r_0_eval s.zero l1 ch ev)
  unfolding permutation_quotient quotient_identity_range_check quotient_copy_range_check
      quotient_term_check_one r_0_eval
  permutation_quotient_value key ev ch x z l1 h =
      rw
        (
          ← h.sigma_1_lem,
          ← h.sigma_2_lem,
          ← h.sigma_3_lem,
          move ch.beta k_1 x,
          move ch.beta k_2 x,
          move ch.beta k_3 x,
        )
        (ap some (
          left_out _ _ _ ev.d_eval ch.gamma ch.beta (evaluate key.s_sigma_4 x) ev.z_eval ch.alpha l1
            z (identity_factor x ch ev)))

  module _ ⦃r : Roots F⦄ where
    -- The linearisation of the widget, and its value at every point.
    pub permutation_linearization-evaluate :
        (key : PermutationKey (Polynomial F)) (ev : ProofEvaluations F)
        (ch : PermutationChallenges F) (z_poly : Polynomial F) (d : EvaluationDomain F) (z l1 : F)
        (us : List F)
        → ltb (degree z_poly) 2 ≡ false
        → new (degree z_poly - 2) ≡ ok d
        → evaluate_all_lagrange_coefficients d z ≡ some us
        → get_elem? us 0 ≡ some l1
        → (q : Polynomial F) × (permutation_linearization key z ch ev z_poly ≡ some q)
          × ((x : F)
              → evaluate q x
                ≡ evaluate z_poly x ⊗ (identity_factor z ch ev ⊗ ch.alpha)
                  ⊕ evaluate key.s_sigma_4 x ⊗ s.neg (copy_factor ch ev)
                  ⊕ evaluate z_poly x ⊗ (l1 ⊗ square ch.alpha))
    unfolding permutation_linearization linearizer_identity_range_check linearizer_copy_range_check
        linearizer_check_is_one
    permutation_linearization-evaluate key ev ch z_poly d z l1 us large created lagrange first =
        let (a, e_a, v_a) = mul_scalar-evaluate z_poly (identity_factor z ch ev ⊗ ch.alpha) in
        let (b, e_b, v_b) = mul_scalar-evaluate key.s_sigma_4 (s.neg (copy_factor ch ev)) in
        let (c, e_c, v_c) = mul_scalar-evaluate z_poly (l1 ⊗ square ch.alpha) in
        (
          add (add a b) c,
          rw (e_a, e_b, large, created, lagrange, first, e_c) refl,
          λ x.
              add-evaluate (add a b) c x
              ∙ ap₂ s.add (add-evaluate a b x ∙ ap₂ s.add (v_a x) (v_b x)) (v_c x),
        )
