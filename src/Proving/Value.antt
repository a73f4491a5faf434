-- ===== src/Proving/Value.antt =====
-- The value of the linearisation polynomial at the evaluation challenge.
use plonk.Prelude.{
  zero, ◌-◌, ◌*◌, ltb, ◌≡◌, ◌≢◌, ◌<◌, refl, ap, ap₂, ◌∙◌, false, some, List, [], ◌∷◌,
}
use plonk.Scalar.{Scalar, ◌⊕◌, ◌⊖◌, ◌⊗◌}
use plonk.Scalar.Ring.{var, ◌:+◌, ◌:-◌, ◌:*◌, :neg, ring}
use plonk.Scalar.Roots.{Roots}
use plonk.Error.{ok}
use plonk.Polynomial.{Polynomial, degree, add, evaluate}
use plonk.Polynomial.Sums.{add-evaluate}
use plonk.Polynomial.Scalars.{mul_scalar-evaluate, add_scalar-evaluate}
use plonk.Domain.{
  EvaluationDomain, new, evaluate_vanishing_polynomial, compute_first_lagrange_evaluation,
}
use plonk.Domain.Creation.{IsDomain, power-positive}
use plonk.Domain.Lagrange.{evaluate_all_lagrange_coefficients_lem}
use plonk.Widget.Quotient.{square}
use plonk.Widget.Linearization.{
  ProofEvaluations, ProverKey, Challenges, compute_circuit_satisfiability,
}
use plonk.Widget.Agreement.{EvaluatedAt, prover_key_at}
use plonk.Widget.Equation.{circuit_satisfiability_equation, compute_circuit_satisfiability_lem}
use plonk.Widget.Permutation.{
  PermutationKey, PermutationChallenges, permutation_quotient, permutation_linearization,
}
use plonk.Proving.{Parts, compute_barycentric_eval, compute, r_0_eval}
use plonk.Proving.PublicInputs.{weighted, compute_barycentric_eval_lem}
use plonk.Proving.Remainder.{
  PermutedAt, permutation_at, permutation_linearization-evaluate, permutation_quotient_value,
}

module _ {F : Type 0} ⦃s : Scalar F⦄ ⦃r : Roots F⦄ where
  -- The value of the quotient polynomial from those of its parts.
  abbrev pub parts_value : EvaluationDomain F → F → Parts (Polynomial F) → F → F
  parts_value d z parts x =
      evaluate parts.t_low x
      ⊕ evaluate parts.t_mid x ⊗ r.pow z d.size
      ⊕ evaluate parts.t_high x ⊗ r.pow z (2 * d.size)
      ⊕ evaluate parts.t_fourth x ⊗ r.pow z (3 * d.size)

  -- The linearisation from those of the circuit and of the permutation.
  pub compute-evaluate :
      (edwards_d : F) (key : ProverKey (Polynomial F)) (perm : PermutationKey (Polynomial F))
      (pch : PermutationChallenges F) (ch : Challenges F) (z : F) (z_poly : Polynomial F)
      (ev : ProofEvaluations F) (d : EvaluationDomain F) (parts : Parts (Polynomial F))
      (inputs : List F) (f_1 f_2 : Polynomial F) (pi : F)
      → compute_circuit_satisfiability edwards_d ch ev key ≡ some f_1
      → compute_barycentric_eval inputs z d ≡ some pi
      → permutation_linearization perm z pch ev z_poly ≡ some f_2
      → (q : Polynomial F) × (compute edwards_d key perm pch ch z z_poly ev d parts inputs ≡ some q)
        × ((x : F)
            → evaluate q x
              ≡ evaluate f_1 x
                ⊕ pi
                ⊕ evaluate f_2 x
                ⊕ parts_value d z parts x ⊗ s.neg (evaluate_vanishing_polynomial d z))
  unfolding compute
  compute-evaluate edwards_d key perm pch ch z z_poly ev d parts inputs f_1 f_2 pi e_1 e_pi e_2 =
      let (f, e_f, v_f) = add_scalar-evaluate f_1 pi in
      let (b, e_b, v_b) = mul_scalar-evaluate parts.t_mid (r.pow z d.size) in
      let (c, e_c, v_c) = mul_scalar-evaluate parts.t_high (r.pow z (2 * d.size)) in
      let (t, e_t, v_t) = mul_scalar-evaluate parts.t_fourth (r.pow z (3 * d.size)) in
      let abc = add (add parts.t_low b) c in
      let (quot, e_quot, v_quot) =
        mul_scalar-evaluate (add abc t) (s.neg (evaluate_vanishing_polynomial d z)) in
      (
        add (add f f_2) quot,
        rw (e_1, e_pi, e_f, e_2, e_b, e_c, e_t, e_quot) refl,
        λ x.
            add-evaluate (add f f_2) quot x
            ∙ ap₂ s.add (add-evaluate f f_2 x ∙ ap (λ y. y ⊕ evaluate f_2 x) (v_f x)) (
                v_quot x
                ∙ ap (λ y. y ⊗ s.neg (evaluate_vanishing_polynomial d z))
                    (add-evaluate abc t x
                      ∙ ap₂ s.add
                          (add-evaluate (add parts.t_low b) c x
                            ∙ ap₂ s.add
                                (add-evaluate parts.t_low b x
                                  ∙ ap (λ y. evaluate parts.t_low x ⊕ y) (v_b x))
                                (v_c x))
                          (v_t x))),
      )

  balance : (f pi p t v rest : F) → f ⊕ pi ⊕ p ⊕ t ⊗ s.neg v ⊕ v ⊗ t ≡ (f ⊕ pi) ⊕ (p ⊕ rest) ⊖ rest
  balance f pi p t v rest =
      ring (f ∷ pi ∷ p ∷ t ∷ v ∷ rest ∷ [])
        (var 0 :+ var 1 :+ var 2 :+ var 3 :* :neg (var 4) :+ var 4 :* var 3)
        (var 0 :+ var 1 :+ (var 2 :+ var 5) :- var 5) refl

  -- For a permutation polynomial z(X) of degree two or more, the domain made from its degree, a
  -- challenge outside of the domain, and evaluations that are those of the key's polynomials at
  -- the challenge: the linearisation polynomial is computed without panic, and its value at the
  -- challenge plus the vanishing polynomial times the quotient polynomial's value is the sum of
  -- the circuit's and the permutation's terms of the numerator there, less the verifier's constant
  -- r_0 without its public input.
  pub compute_lem :
      (edwards_d : F) (key : ProverKey (Polynomial F)) (perm : PermutationKey (Polynomial F))
      (pch : PermutationChallenges F) (ch : Challenges F) (z : F) (z_poly : Polynomial F)
      (ev : ProofEvaluations F) (d : EvaluationDomain F) (parts : Parts (Polynomial F))
      (inputs : List F)
      → ltb (degree z_poly) 2 ≡ false
      → new (degree z_poly - 2) ≡ ok d
      → IsDomain (degree z_poly - 2) d
      → r.pow z d.size ≢ s.one
      → EvaluatedAt z key ev
      → PermutedAt z perm ev
      → (q : Polynomial F) × (pi : F) × (l1 : F) × (t_1 : F) × (t_2 : F) × (compute edwards_d key
            perm pch ch z z_poly ev d parts inputs
          ≡ some q)
        × (compute_barycentric_eval inputs z d ≡ some pi)
        × (compute_first_lagrange_evaluation d (evaluate_vanishing_polynomial d z) z ≡ some l1)
        × (circuit_satisfiability_equation edwards_d ch
              (prover_key_at z key)
              zero
              ev.a_eval
              ev.b_eval
              ev.c_eval
              ev.d_eval
              ev.a_w_eval
              ev.b_w_eval
              ev.d_w_eval
              pi
            ≡ some t_1)
        × (permutation_quotient
              (permutation_at z perm)
              (z ∷ [])
              zero
              ev.a_eval
              ev.b_eval
              ev.c_eval
              ev.d_eval
              (evaluate z_poly z)
              ev.z_eval
              (l1 ⊗ square pch.alpha)
              pch
            ≡ some t_2)
        × (evaluate q z ⊕ evaluate_vanishing_polynomial d z ⊗ parts_value d z parts z
            ≡ t_1 ⊕ t_2 ⊖ r_0_eval s.zero l1 pch ev)
  compute_lem edwards_d key perm pch ch z z_poly ev d parts inputs large created dom out at
        perm_at =
      let (us, e_us, len, all, first) =
        evaluate_all_lagrange_coefficients_lem (degree z_poly - 2) d z dom out in
      let positive : 0 < d.size = rw dom.size_lem (power-positive d.log_size_of_group) in
      let (l1, e_l1, value) = all 0 positive in
      let pi = weighted d z 0 inputs ⊗ ((r.pow z d.size ⊖ s.one) ⊗ d.size_inv) in
      let e_pi = compute_barycentric_eval_lem inputs z d in
      let (f_1, e_1, t_1) = compute_circuit_satisfiability_lem edwards_d ch ev key z pi at in
      let (f_2, e_2, v_2) =
        permutation_linearization-evaluate perm ev pch z_poly d z l1 us large created e_us e_l1 in
      let (q, e_q, v_q) =
        compute-evaluate edwards_d key perm pch ch z z_poly ev d parts inputs f_1 f_2 _ e_1 e_pi
          e_2 in
      (
        q,
        _,
        l1,
        _,
        _,
        e_q,
        e_pi,
        first ∙ e_l1,
        t_1,
        permutation_quotient_value perm ev pch z (evaluate z_poly z) l1 perm_at,
        ap (λ y. y ⊕ evaluate_vanishing_polynomial d z ⊗ parts_value d z parts z)
              (v_q z
                ∙ ap
                    (λ y.
                      evaluate f_1 z
                      ⊕ pi
                      ⊕ y
                      ⊕ parts_value d z parts z ⊗ s.neg (evaluate_vanishing_polynomial d z))
                    (v_2 z))
            ∙ balance (evaluate f_1 z) _ _ (parts_value d z parts z)
                (evaluate_vanishing_polynomial d z) (r_0_eval s.zero l1 pch ev),
      )
