-- ===== src/Widget/Linearization.antt =====
-- `compute_linearization` of each widget, and their sum in src/proof_system/linearization_poly.rs.
-- `none` is the failed assertion of a product of a polynomial with a scalar.
use plonk.Prelude.{Option, some}
use plonk.Scalar.{Scalar, ◌⊕◌, ◌⊖◌, ◌⊗◌}
use plonk.Polynomial.{Polynomial, add, add_assign, mul_scalar}
use plonk.Widget.Quotient.{
  ArithmeticKey, LogicKey, FixedBaseKey, ◌>>=◌, square, delta, delta_xor_and, extract_bit,
  check_bit_consistency,
}

pub record ProofEvaluations (F : Type 0) : Type 0 where
  pub a_eval : F
  pub b_eval : F
  pub c_eval : F
  pub d_eval : F
  pub a_w_eval : F
  pub b_w_eval : F
  pub d_w_eval : F
  pub q_arith_eval : F
  pub q_c_eval : F
  pub q_l_eval : F
  pub q_r_eval : F
  pub s_sigma_1_eval : F
  pub s_sigma_2_eval : F
  pub s_sigma_3_eval : F
  pub z_eval : F

-- The selectors of all widgets but the permutation's.
pub record ProverKey (A : Type 0) : Type 0 where
  pub arithmetic : ArithmeticKey A
  pub q_range : A
  pub logic : LogicKey A
  pub fixed_base : FixedBaseKey A
  pub q_variable_group_add : A

-- The separation challenges.
pub record Challenges (F : Type 0) : Type 0 where
  pub range_separation_challenge : F
  pub logic_separation_challenge : F
  pub fixed_base_separation_challenge : F
  pub var_base_separation_challenge : F

module _ {F : Type 0} ⦃s : Scalar F⦄ where
  unfoldable pub arithmetic_linearization :
      ArithmeticKey (Polynomial F) → ProofEvaluations F → Option (Polynomial F)
  arithmetic_linearization key evaluations = do
    let ab = evaluations.a_eval ⊗ evaluations.b_eval
    a_0 ← mul_scalar key.q_m ab
    a_1 ← mul_scalar key.q_l evaluations.a_eval
    a_2 ← mul_scalar key.q_r evaluations.b_eval
    a_3 ← mul_scalar key.q_o evaluations.c_eval
    a_4 ← mul_scalar key.q_f evaluations.d_eval
    let a = add a_0 a_1
    let a = add a a_2
    let a = add a a_3
    let a = add a a_4
    let a = add a key.q_c
    mul_scalar a evaluations.q_arith_eval

  unfoldable pub range_linearization : Polynomial F → F → ProofEvaluations F → Option (Polynomial F)
  range_linearization q_range range_separation_challenge evaluations =
      let four = s.from 4 in
      let kappa = square range_separation_challenge in
      let kappa_sq = square kappa in
      let kappa_cu = kappa_sq ⊗ kappa in
      let b_1 = delta (evaluations.c_eval ⊖ four ⊗ evaluations.d_eval) in
      let b_2 = delta (evaluations.b_eval ⊖ four ⊗ evaluations.c_eval) ⊗ kappa in
      let b_3 = delta (evaluations.a_eval ⊖ four ⊗ evaluations.b_eval) ⊗ kappa_sq in
      let b_4 = delta (evaluations.d_w_eval ⊖ four ⊗ evaluations.a_eval) ⊗ kappa_cu in
      let t = (b_1 ⊕ b_2 ⊕ b_3 ⊕ b_4) ⊗ range_separation_challenge in mul_scalar q_range t

  unfoldable pub logic_linearization :
      LogicKey (Polynomial F) → F → ProofEvaluations F → Option (Polynomial F)
  logic_linearization key logic_separation_challenge evaluations =
      let four = s.from 4 in
      let kappa = square logic_separation_challenge in
      let kappa_sq = square kappa in
      let kappa_cu = kappa_sq ⊗ kappa in
      let kappa_qu = kappa_cu ⊗ kappa in
      let a = evaluations.a_w_eval ⊖ four ⊗ evaluations.a_eval in
      let c_0 = delta a in
      let b = evaluations.b_w_eval ⊖ four ⊗ evaluations.b_eval in
      let c_1 = delta b ⊗ kappa in
      let d = evaluations.d_w_eval ⊖ four ⊗ evaluations.d_eval in
      let c_2 = delta d ⊗ kappa_sq in
      let w = evaluations.c_eval in
      let c_3 = (w ⊖ a ⊗ b) ⊗ kappa_cu in
      let c_4 = delta_xor_and a b w d evaluations.q_c_eval ⊗ kappa_qu in
      let t = (c_0 ⊕ c_1 ⊕ c_2 ⊕ c_3 ⊕ c_4) ⊗ logic_separation_challenge in mul_scalar key.q_logic t

  unfoldable pub fixed_base_linearization :
      F → FixedBaseKey (Polynomial F) → F → ProofEvaluations F → Option (Polynomial F)
  fixed_base_linearization edwards_d key ecc_separation_challenge evaluations =
      let kappa = square ecc_separation_challenge in
      let kappa_sq = square kappa in
      let kappa_cu = kappa_sq ⊗ kappa in
      let x_beta_eval = evaluations.q_l_eval in
      let y_beta_eval = evaluations.q_r_eval in
      let acc_x = evaluations.a_eval in
      let acc_x_w = evaluations.a_w_eval in
      let acc_y = evaluations.b_eval in
      let acc_y_w = evaluations.b_w_eval in
      let xy_alpha = evaluations.c_eval in
      let bit = extract_bit evaluations.d_eval evaluations.d_w_eval in
      let bit_consistency = check_bit_consistency bit in
      let y_alpha = square bit ⊗ (y_beta_eval ⊖ s.one) ⊕ s.one in
      let x_alpha = x_beta_eval ⊗ bit in
      let xy_consistency = (bit ⊗ evaluations.q_c_eval ⊖ xy_alpha) ⊗ kappa in
      let x_3 = acc_x_w in
      let x_lhs = x_3 ⊕ x_3 ⊗ xy_alpha ⊗ acc_x ⊗ acc_y ⊗ edwards_d in
      let x_rhs = x_alpha ⊗ acc_y ⊕ y_alpha ⊗ acc_x in
      let x_acc_consistency = (x_lhs ⊖ x_rhs) ⊗ kappa_sq in
      let y_3 = acc_y_w in
      let y_lhs = y_3 ⊖ y_3 ⊗ xy_alpha ⊗ acc_x ⊗ acc_y ⊗ edwards_d in
      let y_rhs = x_alpha ⊗ acc_x ⊕ y_alpha ⊗ acc_y in
      let y_acc_consistency = (y_lhs ⊖ y_rhs) ⊗ kappa_cu in
      let a = bit_consistency ⊕ x_acc_consistency ⊕ y_acc_consistency ⊕ xy_consistency in
      mul_scalar key.q_fixed_group_add (a ⊗ ecc_separation_challenge)

  unfoldable pub curve_addition_linearization :
      F → Polynomial F → F → ProofEvaluations F → Option (Polynomial F)
  curve_addition_linearization edwards_d q_variable_group_add curve_add_separation_challenge
        evaluations =
      let kappa = square curve_add_separation_challenge in
      let x_1 = evaluations.a_eval in
      let x_3 = evaluations.a_w_eval in
      let y_1 = evaluations.b_eval in
      let y_3 = evaluations.b_w_eval in
      let x_2 = evaluations.c_eval in
      let y_2 = evaluations.d_eval in
      let x1_y2 = evaluations.d_w_eval in
      let xy_consistency = x_1 ⊗ y_2 ⊖ x1_y2 in
      let y1_x2 = y_1 ⊗ x_2 in
      let y1_y2 = y_1 ⊗ y_2 in
      let x1_x2 = x_1 ⊗ x_2 in
      let x3_lhs = x1_y2 ⊕ y1_x2 in
      let x3_rhs = x_3 ⊕ x_3 ⊗ (edwards_d ⊗ x1_y2 ⊗ y1_x2) in
      let x3_consistency = (x3_lhs ⊖ x3_rhs) ⊗ kappa in
      let y3_lhs = y1_y2 ⊕ x1_x2 in
      let y3_rhs = y_3 ⊖ y_3 ⊗ edwards_d ⊗ x1_y2 ⊗ y1_x2 in
      let y3_consistency = (y3_lhs ⊖ y3_rhs) ⊗ square kappa in
      let identity = xy_consistency ⊕ x3_consistency ⊕ y3_consistency in
      mul_scalar q_variable_group_add (identity ⊗ curve_add_separation_challenge)

  unfoldable pub compute_circuit_satisfiability :
      F → Challenges F → ProofEvaluations F → ProverKey (Polynomial F) → Option (Polynomial F)
  compute_circuit_satisfiability edwards_d challenges evaluations prover_key = do
    a ← arithmetic_linearization prover_key.arithmetic evaluations
    b ← range_linearization prover_key.q_range challenges.range_separation_challenge evaluations
    c ← logic_linearization prover_key.logic challenges.logic_separation_challenge evaluations
    d ←
        fixed_base_linearization edwards_d prover_key.fixed_base
          challenges.fixed_base_separation_challenge evaluations
    e ←
        curve_addition_linearization edwards_d prover_key.q_variable_group_add
          challenges.var_base_separation_challenge evaluations
    let linearization_poly = add a b
    let linearization_poly = add_assign linearization_poly c
    let linearization_poly = add_assign linearization_poly d
    some (add_assign linearization_poly e)
