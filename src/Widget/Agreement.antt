-- ===== src/Widget/Agreement.antt =====
-- The linearisation of each widget against the term that it adds to the quotient polynomial.
use plonk.Prelude.{◌≡◌, refl, sym, ap, ◌∙◌, Option, some, List, [], ◌∷◌, zero}
use plonk.Scalar.{Scalar, ◌⊕◌, ◌⊖◌, ◌⊗◌}
use plonk.Scalar.Ring.{var, ◌:+◌, ◌:-◌, ◌:*◌, ring}
use plonk.Polynomial.{Polynomial, add, mul_scalar, evaluate}
use plonk.Polynomial.Sums.{add-evaluate}
use plonk.Polynomial.Scalars.{mul_scalar-evaluate}
use plonk.Widget.Quotient.{
  ArithmeticKey, LogicKey, FixedBaseKey, square, arithmetic_quotient, range_quotient,
  logic_quotient, fixed_base_quotient, curve_addition_quotient,
}
use plonk.Widget.Linearization.{
  ProofEvaluations, ProverKey, arithmetic_linearization, range_linearization, logic_linearization,
  fixed_base_linearization, curve_addition_linearization,
}

module _ {F : Type 0} ⦃s : Scalar F⦄ where
  -- The value of a selector at `x`, as the only evaluation of a list.
  abbrev pub at_point : F → Polynomial F → List F
  at_point x p = evaluate p x ∷ []

  -- The polynomial exists, and has at `x` the value of the term.
  abbrev pub Agree : F → Option (Polynomial F) → Option F → Type 0
  Agree x linearization quotient =
      (q : Polynomial F) × (linearization ≡ some q) × (quotient ≡ some (evaluate q x))

  Agree-mul_scalar :
      (x : F) (p : Polynomial F) (t v : F)
      → v ≡ evaluate p x ⊗ t
      → Agree x (mul_scalar p t) (some v)
  Agree-mul_scalar x p t v e =
      let (q, eq, value) = mul_scalar-evaluate p t in (q, eq, ap some (e ∙ sym (value x)))

  abbrev pub key_at : F → ArithmeticKey (Polynomial F) → ArithmeticKey (List F)
  key_at x key = record {
    q_m = at_point x key.q_m;
    q_l = at_point x key.q_l;
    q_r = at_point x key.q_r;
    q_o = at_point x key.q_o;
    q_f = at_point x key.q_f;
    q_c = at_point x key.q_c;
    q_arith = at_point x key.q_arith;
  }

  -- The value of the arithmetic linearisation at every point.
  pub arithmetic_linearization-evaluate :
      (key : ArithmeticKey (Polynomial F)) (ev : ProofEvaluations F)
      → (q : Polynomial F) × (arithmetic_linearization key ev ≡ some q)
        × ((x : F)
            → evaluate q x
              ≡ (evaluate key.q_m x ⊗ (ev.a_eval ⊗ ev.b_eval)
                  ⊕ evaluate key.q_l x ⊗ ev.a_eval
                  ⊕ evaluate key.q_r x ⊗ ev.b_eval
                  ⊕ evaluate key.q_o x ⊗ ev.c_eval
                  ⊕ evaluate key.q_f x ⊗ ev.d_eval
                  ⊕ evaluate key.q_c x)
                ⊗ ev.q_arith_eval)
  unfolding arithmetic_linearization
  arithmetic_linearization-evaluate key ev =
      let (a_0, e_0, v_0) = mul_scalar-evaluate key.q_m (ev.a_eval ⊗ ev.b_eval) in
      let (a_1, e_1, v_1) = mul_scalar-evaluate key.q_l ev.a_eval in
      let (a_2, e_2, v_2) = mul_scalar-evaluate key.q_r ev.b_eval in
      let (a_3, e_3, v_3) = mul_scalar-evaluate key.q_o ev.c_eval in
      let (a_4, e_4, v_4) = mul_scalar-evaluate key.q_f ev.d_eval in
      let sum = add (add (add (add (add a_0 a_1) a_2) a_3) a_4) key.q_c in
      let (q, e, v) = mul_scalar-evaluate sum ev.q_arith_eval in
      (
        q,
        rw (e_0, e_1, e_2, e_3, e_4) e,
        λ x.
            v x
            ∙ ap (λ t. t ⊗ ev.q_arith_eval)
                (rw
                  (
                    add-evaluate (add (add (add (add a_0 a_1) a_2) a_3) a_4) key.q_c x,
                    add-evaluate (add (add (add a_0 a_1) a_2) a_3) a_4 x,
                    add-evaluate (add (add a_0 a_1) a_2) a_3 x,
                    add-evaluate (add a_0 a_1) a_2 x,
                    add-evaluate a_0 a_1 x,
                    v_0 x,
                    v_1 x,
                    v_2 x,
                    v_3 x,
                    v_4 x,
                  )
                  refl),
      )

  pub arithmetic_Agree :
      (key : ArithmeticKey (Polynomial F)) (ev : ProofEvaluations F) (x : F)
      → ev.q_arith_eval ≡ evaluate key.q_arith x
      → Agree x
          (arithmetic_linearization key ev)
          (arithmetic_quotient (key_at x key) zero ev.a_eval ev.b_eval ev.c_eval ev.d_eval)
  unfolding arithmetic_quotient
  arithmetic_Agree key ev x h =
      let (q, e, v) = arithmetic_linearization-evaluate key ev in
      (
        q,
        e,
        ap some (
            rw (← h) (
              ring
                (evaluate key.q_m x
                  ∷ evaluate key.q_l x
                  ∷ evaluate key.q_r x
                  ∷ evaluate key.q_o x
                  ∷ evaluate key.q_f x
                  ∷ evaluate key.q_c x
                  ∷ ev.a_eval
                  ∷ ev.b_eval
                  ∷ ev.c_eval
                  ∷ ev.d_eval
                  ∷ ev.q_arith_eval
                  ∷ [])
                ((var 6 :* var 7 :* var 0
                    :+ var 6 :* var 1
                    :+ var 7 :* var 2
                    :+ var 8 :* var 3
                    :+ var 9 :* var 4
                    :+ var 5)
                  :* var 10)
                ((var 0 :* (var 6 :* var 7)
                    :+ var 1 :* var 6
                    :+ var 2 :* var 7
                    :+ var 3 :* var 8
                    :+ var 4 :* var 9
                    :+ var 5)
                  :* var 10)
                refl)
            ∙ sym (v x)),
      )

  reorder : (a q k : F) → a ⊗ q ⊗ k ≡ q ⊗ (a ⊗ k)
  reorder a q k = ring (a ∷ q ∷ k ∷ []) (var 0 :* var 1 :* var 2) (var 1 :* (var 0 :* var 2)) refl

  pub range_Agree :
      (q_range : Polynomial F) (k : F) (ev : ProofEvaluations F) (x : F)
      → Agree x (range_linearization q_range k ev) (
          range_quotient
            (at_point x q_range)
            zero
            k
            ev.a_eval
            ev.b_eval
            ev.c_eval
            ev.d_eval
            ev.d_w_eval)
  unfolding range_linearization range_quotient
  range_Agree q_range k ev x = Agree-mul_scalar x q_range _ _ (reorder _ (evaluate q_range x) k)

  reorder_5 :
      (q c_0 c_1 c_2 c_3 c_4 k : F)
      → q ⊗ (c_3 ⊕ c_0 ⊕ c_1 ⊕ c_2 ⊕ c_4) ⊗ k ≡ q ⊗ ((c_0 ⊕ c_1 ⊕ c_2 ⊕ c_3 ⊕ c_4) ⊗ k)
  reorder_5 q c_0 c_1 c_2 c_3 c_4 k =
      ring (q ∷ c_0 ∷ c_1 ∷ c_2 ∷ c_3 ∷ c_4 ∷ k ∷ [])
        (var 0 :* (var 4 :+ var 1 :+ var 2 :+ var 3 :+ var 5) :* var 6)
        (var 0 :* ((var 1 :+ var 2 :+ var 3 :+ var 4 :+ var 5) :* var 6)) refl

  abbrev pub logic_at : F → LogicKey (Polynomial F) → LogicKey (List F)
  logic_at x key = record { q_c = at_point x key.q_c; q_logic = at_point x key.q_logic }

  pub logic_Agree :
      (key : LogicKey (Polynomial F)) (k : F) (ev : ProofEvaluations F) (x : F)
      → ev.q_c_eval ≡ evaluate key.q_c x
      → Agree x (logic_linearization key k ev) (
          logic_quotient
            (logic_at x key)
            zero
            k
            ev.a_eval
            ev.a_w_eval
            ev.b_eval
            ev.b_w_eval
            ev.c_eval
            ev.d_eval
            ev.d_w_eval)
  unfolding logic_linearization logic_quotient
  logic_Agree key k ev x h =
      rw (← h) (Agree-mul_scalar x key.q_logic _ _ (reorder_5 (evaluate key.q_logic x) _ _ _ _ _ k))

  pub curve_addition_Agree :
      (edwards_d : F) (q_add : Polynomial F) (k : F) (ev : ProofEvaluations F) (x : F)
      → Agree x (curve_addition_linearization edwards_d q_add k ev) (
          curve_addition_quotient edwards_d
            (at_point x q_add)
            zero
            k
            ev.a_eval
            ev.a_w_eval
            ev.b_eval
            ev.b_w_eval
            ev.c_eval
            ev.d_eval
            ev.d_w_eval)
  unfolding curve_addition_linearization curve_addition_quotient
  curve_addition_Agree edwards_d q_add k ev x = Agree-mul_scalar x q_add _ _ (
      ap
        (λ t.
          (ev.a_eval ⊗ ev.d_eval
            ⊖ ev.d_w_eval
            ⊕ (ev.d_w_eval ⊕ ev.b_eval ⊗ ev.c_eval ⊖ (ev.a_w_eval ⊕ t)) ⊗ square k
            ⊕ (ev.b_eval ⊗ ev.d_eval
                ⊕ ev.a_eval ⊗ ev.c_eval
                ⊖ (ev.b_w_eval ⊖ ev.b_w_eval ⊗ edwards_d ⊗ ev.d_w_eval ⊗ (ev.b_eval ⊗ ev.c_eval)))
              ⊗ square (square k))
          ⊗ evaluate q_add x
          ⊗ k)
        (ring (ev.a_w_eval ∷ edwards_d ∷ ev.d_w_eval ∷ ev.b_eval ⊗ ev.c_eval ∷ [])
          (var 0 :* var 1 :* var 2 :* var 3) (var 0 :* (var 1 :* var 2 :* var 3)) refl)
      ∙ reorder _ (evaluate q_add x) k)

  abbrev pub fixed_base_at : F → FixedBaseKey (Polynomial F) → FixedBaseKey (List F)
  fixed_base_at x key = record {
    q_l = at_point x key.q_l;
    q_r = at_point x key.q_r;
    q_c = at_point x key.q_c;
    q_fixed_group_add = at_point x key.q_fixed_group_add;
  }

  -- The two orders in which the checks of the accumulator are written.
  reorder_checks :
      (bc xl xy yl k_2 k_3 ax ay ya bit xb q k : F)
      → (bc
            ⊕ (xl ⊖ (ax ⊗ ya ⊕ ay ⊗ (bit ⊗ xb))) ⊗ k_2
            ⊕ (yl ⊖ (ay ⊗ ya ⊕ ax ⊗ (bit ⊗ xb))) ⊗ k_3
            ⊕ xy)
          ⊗ q
          ⊗ k
        ≡ q
          ⊗ ((bc
                ⊕ (xl ⊖ (xb ⊗ bit ⊗ ay ⊕ ya ⊗ ax)) ⊗ k_2
                ⊕ (yl ⊖ (xb ⊗ bit ⊗ ax ⊕ ya ⊗ ay)) ⊗ k_3
                ⊕ xy)
              ⊗ k)
  reorder_checks bc xl xy yl k_2 k_3 ax ay ya bit xb q k =
      ring (bc ∷ xl ∷ xy ∷ yl ∷ k_2 ∷ k_3 ∷ ax ∷ ay ∷ ya ∷ bit ∷ xb ∷ q ∷ k ∷ [])
        ((var 0
            :+ (var 1 :- (var 6 :* var 8 :+ var 7 :* (var 9 :* var 10))) :* var 4
            :+ (var 3 :- (var 7 :* var 8 :+ var 6 :* (var 9 :* var 10))) :* var 5
            :+ var 2)
          :* var 11
          :* var 12)
        (var 11
          :* ((var 0
                :+ (var 1 :- (var 10 :* var 9 :* var 7 :+ var 8 :* var 6)) :* var 4
                :+ (var 3 :- (var 10 :* var 9 :* var 6 :+ var 8 :* var 7)) :* var 5
                :+ var 2)
              :* var 12))
        refl

  pub fixed_base_Agree :
      (edwards_d : F) (key : FixedBaseKey (Polynomial F)) (k : F) (ev : ProofEvaluations F) (x : F)
      → ev.q_l_eval ≡ evaluate key.q_l x
      → ev.q_r_eval ≡ evaluate key.q_r x
      → ev.q_c_eval ≡ evaluate key.q_c x
      → Agree x (fixed_base_linearization edwards_d key k ev) (
          fixed_base_quotient edwards_d
            (fixed_base_at x key)
            zero
            k
            ev.a_eval
            ev.a_w_eval
            ev.b_eval
            ev.b_w_eval
            ev.c_eval
            ev.d_eval
            ev.d_w_eval)
  unfolding fixed_base_linearization fixed_base_quotient
  fixed_base_Agree edwards_d key k ev x hl hr hc =
      rw (← hl, ← hr, ← hc)
        (Agree-mul_scalar x key.q_fixed_group_add _ _ (
          reorder_checks _ _ _ _ _ _ ev.a_eval ev.b_eval _ _ ev.q_l_eval
            (evaluate key.q_fixed_group_add x) k))

  -- The values at `x` that the linearisation of the circuit takes from the evaluations.
  pub record EvaluatedAt (x : F) (key : ProverKey (Polynomial F)) (ev : ProofEvaluations F)
      : Type 0 where
    pub q_arith_lem : ev.q_arith_eval ≡ evaluate key.arithmetic.q_arith x
    pub logic_q_c_lem : ev.q_c_eval ≡ evaluate key.logic.q_c x
    pub q_c_lem : ev.q_c_eval ≡ evaluate key.fixed_base.q_c x
    pub q_l_lem : ev.q_l_eval ≡ evaluate key.fixed_base.q_l x
    pub q_r_lem : ev.q_r_eval ≡ evaluate key.fixed_base.q_r x

  abbrev pub prover_key_at : F → ProverKey (Polynomial F) → ProverKey (List F)
  prover_key_at x key = record {
    arithmetic = key_at x key.arithmetic;
    q_range = at_point x key.q_range;
    logic = logic_at x key.logic;
    fixed_base = fixed_base_at x key.fixed_base;
    q_variable_group_add = at_point x key.q_variable_group_add;
  }
