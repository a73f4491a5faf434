-- ===== src/Proving/PublicInputs.antt =====
-- The indices and the value of `compute_barycentric_eval`.
use plonk.Prelude.{
  ℕ, suc, ◌+◌, ◌≡◌, refl, sym, ap, ◌∙◌, Bool-cases, inl, inr, some, List, [], ◌∷◌, get_elem?, map,
  arith,
}
use plonk.Scalar.{Scalar, ◌⊕◌, ◌⊖◌, ◌⊗◌}
use plonk.Scalar.Ring.{var, :0, ◌:+◌, ◌:*◌, ring, add-zero}
use plonk.Scalar.Roots.{Roots}
use plonk.Inversion.Inverses.{inverse_or_zero, batch_inversion_lem}
use plonk.Domain.{EvaluationDomain}
use plonk.Proving.{non_zero_evaluations, denominators, sum_evaluations, compute_barycentric_eval}

module _ {F : Type 0} ⦃s : Scalar F⦄ ⦃r : Roots F⦄ where
  -- The sum of the evaluations from the `k`-th on, each divided by its denominator.
  abbrev pub weighted : EvaluationDomain F → F → ℕ → List F → F
  weighted d x k [] = s.zero
  weighted d x k (e ∷ es) =
      inverse_or_zero (r.pow d.group_gen_inv k ⊗ x ⊖ s.one) ⊗ e ⊕ weighted d x (suc k) es

  sum_evaluations_lem :
      (d : EvaluationDomain F) (x : F) (all : List F) (k : ℕ) (es : List F) (sum : F)
      → ((j : ℕ) → get_elem? es j ≡ get_elem? all (k + j))
      → sum_evaluations all sum
          (map inverse_or_zero (denominators d x (non_zero_evaluations k es)))
          (non_zero_evaluations k es)
        ≡ some (sum ⊕ weighted d x k es)
  unfolding sum_evaluations non_zero_evaluations denominators
  sum_evaluations_lem d x all k [] sum h = ap some (sym (add-zero sum))
  sum_evaluations_lem d x all k (e ∷ es) sum h =
      let w = inverse_or_zero (r.pow d.group_gen_inv k ⊗ x ⊖ s.one) in
      let rest = weighted d x (suc k) es in
      let h' : (j : ℕ) → get_elem? es j ≡ get_elem? all (suc k + j) =
        λ j. h (suc j) ∙ ap (get_elem? all) {x = k + suc j} (omega arith) in
      elim (Bool-cases (s.beq e s.zero)) [
        | inl z ↦
            rw (non_zero_evaluations, z)
              (sum_evaluations_lem d x all (suc k) es sum h'
                ∙ ap some (
                    ring (sum ∷ w ∷ rest ∷ []) (var 0 :+ var 2) (var 0 :+ (var 1 :* :0 :+ var 2))
                      refl
                    ∙ ap (λ t. sum ⊕ (w ⊗ t ⊕ rest)) (sym ((s.beq_iff e s.zero).0 z))))
        | inr n ↦
            let found : get_elem? all k ≡ some e =
              sym (h 0 ∙ ap (get_elem? all) {x = k + 0} (omega arith)) in
            rw (non_zero_evaluations, n, found)
              (sum_evaluations_lem d x all (suc k) es (sum ⊕ w ⊗ e) h'
                ∙ ap some (s.add_assoc sum (w ⊗ e) rest))
      ]

  pub compute_barycentric_eval_lem :
      (evaluations : List F) (x : F) (d : EvaluationDomain F)
      → compute_barycentric_eval evaluations x d
        ≡ some (weighted d x 0 evaluations ⊗ ((r.pow x d.size ⊖ s.one) ⊗ d.size_inv))
  unfolding compute_barycentric_eval
  compute_barycentric_eval_lem evaluations x d =
      rw
        (
          batch_inversion_lem (denominators d x (non_zero_evaluations 0 evaluations)),
          sum_evaluations_lem d x evaluations 0 evaluations s.zero
              (λ j. ap (get_elem? evaluations) {y = 0 + j} (omega arith)),
          s.zero-add (weighted d x 0 evaluations),
        )
        refl
