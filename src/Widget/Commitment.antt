-- ===== src/Widget/Commitment.antt =====
-- `compute_linearization_commitment` of each widget's verifier key
-- (src/proof_system/widget/*/verifierkey.rs): the scalars and points that it pushes.
use plonk.Prelude.{List, [], ◌∷◌, ◌++◌}
use plonk.Scalar.{Scalar, ◌⊕◌, ◌⊖◌, ◌⊗◌}
use plonk.Widget.Quotient.{
  ArithmeticKey, square, delta, delta_xor_and, extract_bit, check_bit_consistency,
}
use plonk.Widget.Linearization.{ProofEvaluations, Challenges}

-- The two vectors that are pushed to.
pub record Terms (F G : Type 0) : Type 0 where
  pub scalars : List F
  pub points : List G

-- The commitments of a verifier key that the linearisation of the widgets uses.
pub record VerifierKey (G : Type 0) : Type 0 where
  pub arithmetic : ArithmeticKey G
  pub q_range : G
  pub q_logic : G
  pub q_fixed_group_add : G
  pub q_variable_group_add : G

module _ {F G : Type 0} where
  -- `scalars.push(c); points.push(p)`
  unfoldable pub push : F → G → Terms F G → Terms F G
  push c p t = record { scalars = t.scalars ++ c ∷ []; points = t.points ++ p ∷ [] }

module _ {F G : Type 0} ⦃s : Scalar F⦄ where
  unfoldable pub arithmetic_commitment :
      ArithmeticKey G → ProofEvaluations F → Terms F G → Terms F G
  arithmetic_commitment key evaluations terms =
      let q_arith_eval = evaluations.q_arith_eval in
      let terms = push (evaluations.a_eval ⊗ evaluations.b_eval ⊗ q_arith_eval) key.q_m terms in
      let terms = push (evaluations.a_eval ⊗ q_arith_eval) key.q_l terms in
      let terms = push (evaluations.b_eval ⊗ q_arith_eval) key.q_r terms in
      let terms = push (evaluations.c_eval ⊗ q_arith_eval) key.q_o terms in
      let terms = push (evaluations.d_eval ⊗ q_arith_eval) key.q_f terms in
      push q_arith_eval key.q_c terms

  unfoldable pub range_commitment : G → F → ProofEvaluations F → Terms F G → Terms F G
  range_commitment q_range range_separation_challenge evaluations terms =
      let four = s.from 4 in
      let kappa = square range_separation_challenge in
      let kappa_sq = square kappa in
      let kappa_cu = kappa_sq ⊗ kappa in
      let b_1 = delta (evaluations.c_eval ⊖ four ⊗ evaluations.d_eval) in
      let b_2 = delta (evaluations.b_eval ⊖ four ⊗ evaluations.c_eval) ⊗ kappa in
      let b_3 = delta (evaluations.a_eval ⊖ four ⊗ evaluations.b_eval) ⊗ kappa_sq in
      let b_4 = delta (evaluations.d_w_eval ⊖ four ⊗ evaluations.a_eval) ⊗ kappa_cu in
      push ((b_1 ⊕ b_2 ⊕ b_3 ⊕ b_4) ⊗ range_separation_challenge) q_range terms

  unfoldable pub logic_commitment : G → F → ProofEvaluations F → Terms F G → Terms F G
  logic_commitment q_logic logic_separation_challenge evaluations terms =
      let four = s.from 4 in
      let kappa = square logic_separation_challenge in
      let kappa_sq = square kappa in
      let kappa_cu = kappa_sq ⊗ kappa in
      let kappa_qu = kappa_cu ⊗ kappa in
      let a = evaluations.a_w_eval ⊖ four ⊗ evaluations.a_eval in
      let c_0 = delta a in
      let b = evaluations.b_w_eval ⊖ four ⊗ evaluations.b_eval in
      let c_1 = delta b ⊗ kappa in
      let d = evaluations.d_w_eval ⊖ four ⊗ evaluations.d_eval in
      let c_2 = delta d ⊗ kappa_sq in
      let w = evaluations.c_eval in
      let c_3 = (w ⊖ a ⊗ b) ⊗ kappa_cu in
      let c_4 = delta_xor_and a b w d evaluations.q_c_eval ⊗ kappa_qu in
      push ((c_0 ⊕ c_1 ⊕ c_2 ⊕ c_3 ⊕ c_4) ⊗ logic_separation_challenge) q_logic terms

  unfoldable pub fixed_base_commitment : F → G → F → ProofEvaluations F → Terms F G → Terms F G
  fixed_base_commitment edwards_d q_fixed_group_add ecc_separation_challenge evaluations terms =
      let kappa = square ecc_separation_challenge in
      let kappa_sq = square kappa in
      let kappa_cu = kappa_sq ⊗ kappa in
      let x_beta_poly = evaluations.q_l_eval in
      let y_beta_eval = evaluations.q_r_eval in
      let acc_x = evaluations.a_eval in
      let acc_x_w = evaluations.a_w_eval in
      let acc_y = evaluations.b_eval in
      let acc_y_w = evaluations.b_w_eval in
      let xy_alpha = evaluations.c_eval in
      let bit = extract_bit evaluations.d_eval evaluations.d_w_eval in
      let bit_consistency = check_bit_consistency bit in
      let y_alpha = square bit ⊗ (y_beta_eval ⊖ s.one) ⊕ s.one in
      let x_alpha = x_beta_poly ⊗ bit in
      let xy_consistency = (bit ⊗ evaluations.q_c_eval ⊖ xy_alpha) ⊗ kappa in
      let x_3 = acc_x_w in
      let x_lhs = x_3 ⊕ x_3 ⊗ xy_alpha ⊗ acc_x ⊗ acc_y ⊗ edwards_d in
      let x_rhs = x_alpha ⊗ acc_y ⊕ y_alpha ⊗ acc_x in
      let x_acc_consistency = (x_lhs ⊖ x_rhs) ⊗ kappa_sq in
      let y_3 = acc_y_w in
      let y_lhs = y_3 ⊖ y_3 ⊗ xy_alpha ⊗ acc_x ⊗ acc_y ⊗ edwards_d in
      let y_rhs = x_alpha ⊗ acc_x ⊕ y_alpha ⊗ acc_y in
      let y_acc_consistency = (y_lhs ⊖ y_rhs) ⊗ kappa_cu in
      let a = bit_consistency ⊕ x_acc_consistency ⊕ y_acc_consistency ⊕ xy_consistency in
      push (a ⊗ ecc_separation_challenge) q_fixed_group_add terms

  unfoldable pub curve_addition_commitment : F → G → F → ProofEvaluations F → Terms F G → Terms F G
  curve_addition_commitment edwards_d q_variable_group_add curve_add_separation_challenge
        evaluations terms =
      let kappa = square curve_add_separation_challenge in
      let x_1 = evaluations.a_eval in
      let x_3 = evaluations.a_w_eval in
      let y_1 = evaluations.b_eval in
      let y_3 = evaluations.b_w_eval in
      let x_2 = evaluations.c_eval in
      let y_2 = evaluations.d_eval in
      let x1_y2 = evaluations.d_w_eval in
      let xy_consistency = x_1 ⊗ y_2 ⊖ x1_y2 in
      let y1_x2 = y_1 ⊗ x_2 in
      let y1_y2 = y_1 ⊗ y_2 in
      let x1_x2 = x_1 ⊗ x_2 in
      let x3_lhs = x1_y2 ⊕ y1_x2 in
      let x3_rhs = x_3 ⊕ x_3 ⊗ (edwards_d ⊗ x1_y2 ⊗ y1_x2) in
      let x3_consistency = (x3_lhs ⊖ x3_rhs) ⊗ kappa in
      let y3_lhs = y1_y2 ⊕ x1_x2 in
      let y3_rhs = y_3 ⊖ y_3 ⊗ edwards_d ⊗ x1_y2 ⊗ y1_x2 in
      let y3_consistency = (y3_lhs ⊖ y3_rhs) ⊗ square kappa in
      let identity = xy_consistency ⊕ x3_consistency ⊕ y3_consistency in
      push (identity ⊗ curve_add_separation_challenge) q_variable_group_add terms

  -- The pushes for the five widgets, in the order of `compute_linearization_commitment` of
  -- src/proof_system/proof.rs.
  unfoldable pub circuit_commitment :
      F → VerifierKey G → Challenges F → ProofEvaluations F → Terms F G → Terms F G
  circuit_commitment edwards_d verifier_key challenges evaluations terms =
      let terms = arithmetic_commitment verifier_key.arithmetic evaluations terms in
      let terms =
        range_commitment verifier_key.q_range challenges.range_separation_challenge evaluations
          terms in
      let terms =
        logic_commitment verifier_key.q_logic challenges.logic_separation_challenge evaluations
          terms in
      let terms =
        fixed_base_commitment edwards_d verifier_key.q_fixed_group_add
          challenges.fixed_base_separation_challenge evaluations terms in
      curve_addition_commitment edwards_d verifier_key.q_variable_group_add
        challenges.var_base_separation_challenge evaluations terms
