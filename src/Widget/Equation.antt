-- ===== src/Widget/Equation.antt =====
-- `compute_circuit_satisfiability_equation` of src/proof_system/quotient_poly.rs at one index, and
-- the linearisation of the circuit against it.
use plonk.Prelude.{ℕ, zero, ◌≡◌, refl, Option, some, List}
use plonk.Scalar.{Scalar, ◌⊕◌}
use plonk.Polynomial.{Polynomial, add, add_assign, evaluate}
use plonk.Polynomial.Sums.{add-evaluate, add_assign-evaluate}
use plonk.Widget.Quotient.{
  ◌>>=◌, arithmetic_quotient, range_quotient, logic_quotient, fixed_base_quotient,
  curve_addition_quotient,
}
use plonk.Widget.Linearization.{
  ProofEvaluations, ProverKey, Challenges, compute_circuit_satisfiability,
}
use plonk.Widget.Agreement.{
  EvaluatedAt, prover_key_at, arithmetic_Agree, range_Agree, logic_Agree, fixed_base_Agree,
  curve_addition_Agree,
}

module _ {F : Type 0} ⦃s : Scalar F⦄ where
  unfoldable pub circuit_satisfiability_equation :
      F → Challenges F → ProverKey (List F) → ℕ → F → F → F → F → F → F → F → F → Option F
  circuit_satisfiability_equation edwards_d challenges prover_key i a b c d a_w b_w d_w pi = do
    t_arith ← arithmetic_quotient prover_key.arithmetic i a b c d
    t_range ← range_quotient prover_key.q_range i challenges.range_separation_challenge a b c d d_w
    t_logic ←
        logic_quotient prover_key.logic i challenges.logic_separation_challenge a a_w b b_w c d d_w
    t_fixed ←
        fixed_base_quotient edwards_d prover_key.fixed_base i
          challenges.fixed_base_separation_challenge a a_w b b_w c d d_w
    t_var ←
        curve_addition_quotient edwards_d prover_key.q_variable_group_add i
          challenges.var_base_separation_challenge a a_w b b_w c d d_w
    some (t_arith ⊕ t_range ⊕ t_logic ⊕ t_fixed ⊕ t_var ⊕ pi)

  -- If the evaluations of the selectors are those at a point, the linearisation of the circuit
  -- exists, and its value at the point plus the public input is the numerator of the quotient
  -- polynomial that the five widgets compute there.
  pub compute_circuit_satisfiability_lem :
      (edwards_d : F) (challenges : Challenges F) (ev : ProofEvaluations F)
      (key : ProverKey (Polynomial F)) (x pi : F)
      → EvaluatedAt x key ev
      → (q : Polynomial F) × (compute_circuit_satisfiability edwards_d challenges ev key ≡ some q)
        × (circuit_satisfiability_equation edwards_d challenges
              (prover_key_at x key)
              zero
              ev.a_eval
              ev.b_eval
              ev.c_eval
              ev.d_eval
              ev.a_w_eval
              ev.b_w_eval
              ev.d_w_eval
              pi
            ≡ some (evaluate q x ⊕ pi))
  unfolding compute_circuit_satisfiability circuit_satisfiability_equation
  compute_circuit_satisfiability_lem edwards_d ch ev key x pi h =
      let (a, e_a, t_a) = arithmetic_Agree key.arithmetic ev x h.q_arith_lem in
      let (b, e_b, t_b) = range_Agree key.q_range ch.range_separation_challenge ev x in
      let (c, e_c, t_c) =
        logic_Agree key.logic ch.logic_separation_challenge ev x h.logic_q_c_lem in
      let (d, e_d, t_d) =
        fixed_base_Agree edwards_d key.fixed_base ch.fixed_base_separation_challenge ev x h.q_l_lem
          h.q_r_lem h.q_c_lem in
      let (e, e_e, t_e) =
        curve_addition_Agree edwards_d key.q_variable_group_add ch.var_base_separation_challenge ev
          x in
      (
        add_assign (add_assign (add_assign (add a b) c) d) e,
        rw (e_a, e_b, e_c, e_d, e_e) refl,
        rw
            (
              t_a,
              t_b,
              t_c,
              t_d,
              t_e,
              add_assign-evaluate (add_assign (add_assign (add a b) c) d) e x,
              add_assign-evaluate (add_assign (add a b) c) d x,
              add_assign-evaluate (add a b) c x,
              add-evaluate a b x,
            )
            refl,
      )
