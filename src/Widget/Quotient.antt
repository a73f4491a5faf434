-- ===== src/Widget/Quotient.antt =====
-- `compute_quotient_i` of each widget. A selector's evaluations are a list; `none` is the panic
-- of an index out of bounds.
use plonk.Prelude.{ℕ, Option, none, some, List, get_elem?}
use plonk.Scalar.{Scalar, ◌⊕◌, ◌⊖◌, ◌⊗◌}

infixl 5 ◌>>=◌
abbrev pub ◌>>=◌ : {A B : Type 0} → Option A → (A → Option B) → Option B
none >>= f = none
some a >>= f = f a

-- The selectors of a widget. The prover's key has for each selector its polynomial and its
-- evaluations, the verifier's a commitment; a selector is an `A` here.
pub record ArithmeticKey (A : Type 0) : Type 0 where
  pub q_m : A
  pub q_l : A
  pub q_r : A
  pub q_o : A
  pub q_f : A
  pub q_c : A
  pub q_arith : A

pub record LogicKey (A : Type 0) : Type 0 where
  pub q_c : A
  pub q_logic : A

pub record FixedBaseKey (A : Type 0) : Type 0 where
  pub q_l : A
  pub q_r : A
  pub q_c : A
  pub q_fixed_group_add : A

module _ {F : Type 0} ⦃s : Scalar F⦄ where
  abbrev pub square : F → F
  square x = x ⊗ x

  unfoldable pub arithmetic_quotient : ArithmeticKey (List F) → ℕ → F → F → F → F → Option F
  arithmetic_quotient key index a_i b_i c_i d_i = do
    q_m_i ← get_elem? key.q_m index
    q_l_i ← get_elem? key.q_l index
    q_r_i ← get_elem? key.q_r index
    q_o_i ← get_elem? key.q_o index
    q_f_i ← get_elem? key.q_f index
    q_c_i ← get_elem? key.q_c index
    q_arith_i ← get_elem? key.q_arith index
    let a_1 = a_i ⊗ b_i ⊗ q_m_i
    let a_2 = a_i ⊗ q_l_i
    let a_3 = b_i ⊗ q_r_i
    let a_4 = c_i ⊗ q_o_i
    let a_5 = d_i ⊗ q_f_i
    let a_6 = q_c_i
    some ((a_1 ⊕ a_2 ⊕ a_3 ⊕ a_4 ⊕ a_5 ⊕ a_6) ⊗ q_arith_i)

  unfoldable pub delta : F → F
  delta f =
      let f_1 = f ⊖ s.one in let f_2 = f ⊖ s.from 2 in let f_3 = f ⊖ s.from 3 in f ⊗ f_1 ⊗ f_2 ⊗ f_3

  unfoldable pub range_quotient : List F → ℕ → F → F → F → F → F → F → Option F
  range_quotient q_range index range_separation_challenge a_i b_i c_i d_i d_i_w = do
    let four = s.from 4
    q_range_i ← get_elem? q_range index
    let kappa = square range_separation_challenge
    let kappa_sq = square kappa
    let kappa_cu = kappa_sq ⊗ kappa
    let b_1 = delta (c_i ⊖ four ⊗ d_i)
    let b_2 = delta (b_i ⊖ four ⊗ c_i) ⊗ kappa
    let b_3 = delta (a_i ⊖ four ⊗ b_i) ⊗ kappa_sq
    let b_4 = delta (d_i_w ⊖ four ⊗ a_i) ⊗ kappa_cu
    some ((b_1 ⊕ b_2 ⊕ b_3 ⊕ b_4) ⊗ q_range_i ⊗ range_separation_challenge)

  unfoldable pub delta_xor_and : F → F → F → F → F → F
  delta_xor_and a b w c q_c =
      let nine = s.from 9 in
      let two = s.from 2 in
      let three = s.from 3 in
      let four = s.from 4 in
      let eighteen = s.from 18 in
      let eighty_one = s.from 81 in
      let eighty_three = s.from 83 in
      let f =
        w
        ⊗ (w ⊗ (four ⊗ w ⊖ eighteen ⊗ (a ⊕ b) ⊕ eighty_one)
            ⊕ eighteen ⊗ (square a ⊕ square b)
            ⊖ eighty_one ⊗ (a ⊕ b)
            ⊕ eighty_three) in
      let e = three ⊗ (a ⊕ b ⊕ c) ⊖ two ⊗ f in let b' = q_c ⊗ (nine ⊗ c ⊖ three ⊗ (a ⊕ b)) in b' ⊕ e

  unfoldable pub logic_quotient : LogicKey (List F) → ℕ → F → F → F → F → F → F → F → F → Option F
  logic_quotient key index logic_separation_challenge a_i a_i_w b_i b_i_w c_i d_i d_i_w = do
    let four = s.from 4
    q_logic_i ← get_elem? key.q_logic index
    q_c_i ← get_elem? key.q_c index
    let kappa = square logic_separation_challenge
    let kappa_sq = square kappa
    let kappa_cu = kappa_sq ⊗ kappa
    let kappa_qu = kappa_cu ⊗ kappa
    let a = a_i_w ⊖ four ⊗ a_i
    let c_0 = delta a
    let b = b_i_w ⊖ four ⊗ b_i
    let c_1 = delta b ⊗ kappa
    let d = d_i_w ⊖ four ⊗ d_i
    let c_2 = delta d ⊗ kappa_sq
    let w = c_i
    let c_3 = (w ⊖ a ⊗ b) ⊗ kappa_cu
    let c_4 = delta_xor_and a b w d q_c_i ⊗ kappa_qu
    some (q_logic_i ⊗ (c_3 ⊕ c_0 ⊕ c_1 ⊕ c_2 ⊕ c_4) ⊗ logic_separation_challenge)

  -- `edwards_d` is the constant of dusk-jubjub.
  unfoldable pub curve_addition_quotient : F → List F → ℕ → F → F → F → F → F → F → F → F → Option F
  curve_addition_quotient edwards_d q_variable_group_add index curve_add_separation_challenge a_i
        a_i_w b_i b_i_w c_i d_i d_i_w =
      do
        q_variable_group_add_i ← get_elem? q_variable_group_add index
        let kappa = square curve_add_separation_challenge
        let x_1 = a_i
        let x_3 = a_i_w
        let y_1 = b_i
        let y_3 = b_i_w
        let x_2 = c_i
        let y_2 = d_i
        let x1_y2 = d_i_w
        let xy_consistency = x_1 ⊗ y_2 ⊖ x1_y2
        let y1_x2 = y_1 ⊗ x_2
        let y1_y2 = y_1 ⊗ y_2
        let x1_x2 = x_1 ⊗ x_2
        let x3_lhs = x1_y2 ⊕ y1_x2
        let x3_rhs = x_3 ⊕ x_3 ⊗ edwards_d ⊗ x1_y2 ⊗ y1_x2
        let x3_consistency = (x3_lhs ⊖ x3_rhs) ⊗ kappa
        let y3_lhs = y1_y2 ⊕ x1_x2
        let y3_rhs = y_3 ⊖ y_3 ⊗ edwards_d ⊗ x1_y2 ⊗ y1_x2
        let y3_consistency = (y3_lhs ⊖ y3_rhs) ⊗ square kappa
        let identity = xy_consistency ⊕ x3_consistency ⊕ y3_consistency
        some (identity ⊗ q_variable_group_add_i ⊗ curve_add_separation_challenge)

  unfoldable pub extract_bit : F → F → F
  extract_bit acc acc_w = acc_w ⊖ acc ⊖ acc

  unfoldable pub check_bit_consistency : F → F
  check_bit_consistency bit = bit ⊗ (bit ⊖ s.one) ⊗ (bit ⊕ s.one)

  unfoldable pub fixed_base_quotient :
      F → FixedBaseKey (List F) → ℕ → F → F → F → F → F → F → F → F → Option F
  fixed_base_quotient edwards_d key index ecc_separation_challenge a_i a_i_w b_i b_i_w c_i d_i
        d_i_w =
      do
        q_fixed_group_add_i ← get_elem? key.q_fixed_group_add index
        q_c_i ← get_elem? key.q_c index
        let kappa = square ecc_separation_challenge
        let kappa_sq = square kappa
        let kappa_cu = kappa_sq ⊗ kappa
        x_beta ← get_elem? key.q_l index
        y_beta ← get_elem? key.q_r index
        let acc_x = a_i
        let acc_x_w = a_i_w
        let acc_y = b_i
        let acc_y_w = b_i_w
        let xy_alpha = c_i
        let bit = extract_bit d_i d_i_w
        let bit_consistency = check_bit_consistency bit
        let y_alpha = square bit ⊗ (y_beta ⊖ s.one) ⊕ s.one
        let x_alpha = bit ⊗ x_beta
        let xy_consistency = (bit ⊗ q_c_i ⊖ xy_alpha) ⊗ kappa
        let x_3 = acc_x_w
        let x_lhs = x_3 ⊕ x_3 ⊗ xy_alpha ⊗ acc_x ⊗ acc_y ⊗ edwards_d
        let x_rhs = acc_x ⊗ y_alpha ⊕ acc_y ⊗ x_alpha
        let x_acc_consistency = (x_lhs ⊖ x_rhs) ⊗ kappa_sq
        let y_3 = acc_y_w
        let y_lhs = y_3 ⊖ y_3 ⊗ xy_alpha ⊗ acc_x ⊗ acc_y ⊗ edwards_d
        let y_rhs = acc_y ⊗ y_alpha ⊕ acc_x ⊗ x_alpha
        let y_acc_consistency = (y_lhs ⊖ y_rhs) ⊗ kappa_cu
        let identity = bit_consistency ⊕ x_acc_consistency ⊕ y_acc_consistency ⊕ xy_consistency
        some (identity ⊗ q_fixed_group_add_i ⊗ ecc_separation_challenge)
