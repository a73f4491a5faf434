-- ===== src/Proving/Commitments.antt =====
-- The verifier's commitment to the linearisation polynomial.
use plonk.Prelude.{
  ◌-◌, ◌*◌, ltb, ◌≡◌, ◌≢◌, refl, sym, ap, subst, ◌∙◌, false, some, List, [], ◌∷◌, get_elem?,
}
use plonk.Scalar.{Scalar, ◌⊕◌, ◌⊖◌, ◌⊗◌}
use plonk.Scalar.Ring.{var, :0, ◌:+◌, ◌:-◌, ◌:*◌, :neg, ring}
use plonk.Scalar.Roots.{Roots}
use plonk.Error.{ok}
use plonk.Group.{Group}
use plonk.Group.Laws.{times-zero}
use plonk.Polynomial.{Polynomial, degree, evaluate}
use plonk.Domain.{
  EvaluationDomain, new, evaluate_vanishing_polynomial, compute_first_lagrange_evaluation,
}
use plonk.Domain.Creation.{IsDomain}
use plonk.Domain.Lagrange.{evaluate_all_lagrange_coefficients_lem}
use plonk.Widget.Quotient.{square}
use plonk.Widget.Linearization.{ProofEvaluations, ProverKey, Challenges}
use plonk.Widget.Commitment.{Terms, VerifierKey}
use plonk.Widget.Verifier.{
  Sums, push-Sums, Commits, circuit_commitment-compute_circuit_satisfiability,
}
use plonk.Widget.Permutation.{
  PermutationKey, PermutationChallenges, k_1, k_2, k_3, permutation_commitment,
}
use plonk.Proving.{Parts, compute_barycentric_eval, compute, compute_linearization_commitment}
use plonk.Proving.PublicInputs.{weighted, compute_barycentric_eval_lem}
use plonk.Proving.Remainder.{move, identity_factor, copy_factor, permutation_linearization-evaluate}
use plonk.Proving.Value.{parts_value, compute-evaluate}

module _ {F : Type 0} ⦃s : Scalar F⦄ where
  regroup :
      (v zx A B C D al l1 u s_4 X Y Z : F)
      → v ⊕ zx ⊗ (A ⊗ B ⊗ C ⊗ (D ⊗ al) ⊕ l1 ⊗ (al ⊗ al) ⊕ u) ⊕ s_4 ⊗ s.neg (X ⊗ (Y ⊗ Z ⊗ al))
        ≡ v
          ⊕ (zx ⊗ (A ⊗ B ⊗ C ⊗ D ⊗ al)
              ⊕ s_4 ⊗ s.neg (X ⊗ (Y ⊗ Z) ⊗ al)
              ⊕ zx ⊗ (l1 ⊗ (al ⊗ al))
              ⊕ u ⊗ zx)
  regroup v zx A B C D al l1 u s_4 X Y Z =
      ring (v ∷ zx ∷ A ∷ B ∷ C ∷ D ∷ al ∷ l1 ∷ u ∷ s_4 ∷ X ∷ Y ∷ Z ∷ [])
        (var 0
          :+ var 1
            :* (var 2 :* var 3 :* var 4 :* (var 5 :* var 6) :+ var 7 :* (var 6 :* var 6) :+ var 8)
          :+ var 9 :* :neg (var 10 :* (var 11 :* var 12 :* var 6)))
        (var 0
          :+ (var 1 :* (var 2 :* var 3 :* var 4 :* var 5 :* var 6)
              :+ var 9 :* :neg (var 10 :* (var 11 :* var 12) :* var 6)
              :+ var 1 :* (var 7 :* (var 6 :* var 6))
              :+ var 8 :* var 1))
        refl

  gather :
      (f p w tl tm th tf n_1 n_2 n_3 v pi : F)
      → s.zero ⊕ f ⊕ (p ⊕ w) ⊕ tl ⊗ v ⊕ tm ⊗ (n_1 ⊗ v) ⊕ th ⊗ (n_2 ⊗ v) ⊕ tf ⊗ (n_3 ⊗ v)
        ≡ f ⊕ pi ⊕ p ⊕ (tl ⊕ tm ⊗ n_1 ⊕ th ⊗ n_2 ⊕ tf ⊗ n_3) ⊗ v ⊖ pi ⊕ w
  gather f p w tl tm th tf n_1 n_2 n_3 v pi =
      ring (f ∷ p ∷ w ∷ tl ∷ tm ∷ th ∷ tf ∷ n_1 ∷ n_2 ∷ n_3 ∷ v ∷ pi ∷ [])
        (:0
          :+ var 0
          :+ (var 1 :+ var 2)
          :+ var 3 :* var 10
          :+ var 4 :* (var 7 :* var 10)
          :+ var 5 :* (var 8 :* var 10)
          :+ var 6 :* (var 9 :* var 10))
        (var 0
          :+ var 11
          :+ var 1
          :+ (var 3 :+ var 4 :* var 7 :+ var 5 :* var 8 :+ var 6 :* var 9) :* var 10
          :- var 11
          :+ var 2)
        refl

module _ {F G : Type 0} ⦃s : Scalar F⦄ ⦃group : Group F G⦄ where
  permutation_Sums :
      (x : F) (g : G) (v : F) (t : Terms F G) (perm : PermutationKey G) (ev : ProofEvaluations F)
      (z u l1 : F) (pch : PermutationChallenges F) (z_comm : G) (zx s_4 : F)
      → z_comm ≡ group.times g zx
      → perm.s_sigma_4 ≡ group.times g s_4
      → Sums g v t
      → Sums g
          (v
            ⊕ (zx ⊗ (identity_factor z pch ev ⊗ pch.alpha)
                ⊕ s_4 ⊗ s.neg (copy_factor pch ev)
                ⊕ zx ⊗ (l1 ⊗ square pch.alpha)
                ⊕ u ⊗ zx))
          (permutation_commitment perm ev z u pch l1 z_comm t)
  unfolding permutation_commitment
  permutation_Sums x g v t perm ev z u l1 pch z_comm zx s_4 e_z e_s sums =
      subst (λ w. Sums g w (permutation_commitment perm ev z u pch l1 z_comm t))
        (rw (move pch.beta k_1 z, move pch.beta k_2 z, move pch.beta k_3 z)
          (regroup v zx _ _ _ _ pch.alpha l1 u s_4 _ pch.beta ev.z_eval))
        (push-Sums g _ s_4 _ perm.s_sigma_4 _ e_s (push-Sums g v zx _ z_comm t e_z sums))

  -- The commitments are to these polynomials at the secret point.
  pub record CommitsAll (x : F) (g : G) (perm : PermutationKey (Polynomial F))
      (perm_vk : PermutationKey G) (z_poly : Polynomial F) (z_comm : G)
      (parts : Parts (Polynomial F)) (comms : Parts G) : Type 0 where
    pub s_sigma_4_lem : perm_vk.s_sigma_4 ≡ group.times g (evaluate perm.s_sigma_4 x)
    pub z_lem : z_comm ≡ group.times g (evaluate z_poly x)
    pub t_low_lem : comms.t_low ≡ group.times g (evaluate parts.t_low x)
    pub t_mid_lem : comms.t_mid ≡ group.times g (evaluate parts.t_mid x)
    pub t_high_lem : comms.t_high ≡ group.times g (evaluate parts.t_high x)
    pub t_fourth_lem : comms.t_fourth ≡ group.times g (evaluate parts.t_fourth x)

  empty-Sums : (g : G) → Sums g s.zero (record { scalars = []; points = [] })
  empty-Sums g = record { aligned = refl; total = group.msm-nil [] ∙ sym (times-zero F g) }

  module _ ⦃r : Roots F⦄ where
    -- If the verifier has the commitments to the prover's polynomials at the secret point, the
    -- domain is made from the degree of z(X), the challenge is outside of it and l1 is the
    -- verifier's first Lagrange evaluation: the commitment that the verifier combines is the one
    -- to the prover's linearisation polynomial, which is computed without panic, less the public
    -- input evaluation, plus u times z(X).
    pub compute_linearization_commitment-compute :
        (x : F) (g : G) (edwards_d : F) (key : ProverKey (Polynomial F)) (vk : VerifierKey G)
        (perm : PermutationKey (Polynomial F)) (perm_vk : PermutationKey G)
        (pch : PermutationChallenges F) (ch : Challenges F) (z u l1 : F) (z_poly : Polynomial F)
        (z_comm : G) (ev : ProofEvaluations F) (d : EvaluationDomain F)
        (parts : Parts (Polynomial F)) (comms : Parts G) (inputs : List F)
        → Commits x g key vk
        → CommitsAll x g perm perm_vk z_poly z_comm parts comms
        → ltb (degree z_poly) 2 ≡ false
        → new (degree z_poly - 2) ≡ ok d
        → IsDomain (degree z_poly - 2) d
        → r.pow z d.size ≢ s.one
        → compute_first_lagrange_evaluation d (evaluate_vanishing_polynomial d z) z ≡ some l1
        → (q : Polynomial F) × (pi : F) × (compute edwards_d key perm pch ch z z_poly ev d parts
              inputs
            ≡ some q)
          × (compute_barycentric_eval inputs z d ≡ some pi)
          × (compute_linearization_commitment edwards_d vk perm_vk pch ch z u l1 z_comm comms ev d
              ≡ group.times g (evaluate q x ⊖ pi ⊕ u ⊗ evaluate z_poly x))
    unfolding compute_linearization_commitment
    compute_linearization_commitment-compute x g edwards_d key vk perm perm_vk pch ch z u l1 z_poly
          z_comm ev d parts comms inputs h h' large created dom out e_l1 =
        let (us, e_us, len, all, first) =
          evaluate_all_lagrange_coefficients_lem (degree z_poly - 2) d z dom out in
        let found : get_elem? us 0 ≡ some l1 = sym first ∙ e_l1 in
        let pi = weighted d z 0 inputs ⊗ ((r.pow z d.size ⊖ s.one) ⊗ d.size_inv) in
        let e_pi = compute_barycentric_eval_lem inputs z d in
        let (f_1, e_1, sums) =
          circuit_commitment-compute_circuit_satisfiability x g edwards_d ch ev key vk s.zero _ h
            (empty-Sums g) in
        let (f_2, e_2, v_2) =
          permutation_linearization-evaluate perm ev pch z_poly d z l1 us large created e_us
            found in
        let (q, e_q, v_q) =
          compute-evaluate edwards_d key perm pch ch z z_poly ev d parts inputs f_1 f_2 pi e_1 e_pi
            e_2 in
        let sums =
          permutation_Sums x g _ _ perm_vk ev z u l1 pch z_comm (evaluate z_poly x)
            (evaluate perm.s_sigma_4 x) h'.z_lem h'.s_sigma_4_lem sums in
        let sums = push-Sums g _ _ _ _ _ h'.t_low_lem sums in
        let sums = push-Sums g _ _ _ _ _ h'.t_mid_lem sums in
        let sums = push-Sums g _ _ _ _ _ h'.t_high_lem sums in
        let sums = push-Sums g _ _ _ _ _ h'.t_fourth_lem sums in
        (
          q,
          pi,
          e_q,
          e_pi,
          sums.total
              ∙ ap (group.times g) (
                  gather (evaluate f_1 x) _ (u ⊗ evaluate z_poly x) (evaluate parts.t_low x)
                    (evaluate parts.t_mid x) (evaluate parts.t_high x) (evaluate parts.t_fourth x)
                    (r.pow z d.size) (r.pow z (2 * d.size)) (r.pow z (3 * d.size))
                    (s.neg (evaluate_vanishing_polynomial d z)) pi
                  ∙ ap (λ y. y ⊖ pi ⊕ u ⊗ evaluate z_poly x)
                      (sym (
                        v_q x
                        ∙ ap
                            (λ y.
                              evaluate f_1 x
                              ⊕ pi
                              ⊕ y
                              ⊕ parts_value d z parts x ⊗ s.neg (evaluate_vanishing_polynomial d z))
                            (v_2 x)))),
        )
