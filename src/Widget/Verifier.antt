-- ===== src/Widget/Verifier.antt =====
-- The verifier's combination of commitments against the prover's linearisation.
use plonk.Prelude.{
  ◌≡◌, refl, sym, ap, ap₂, ◌∙◌, Option, some, List, [], ◌∷◌, ◌++◌, length, length-append, arith,
}
use plonk.Scalar.{Scalar, ◌⊕◌, ◌⊗◌}
use plonk.Scalar.Ring.{var, ◌:+◌, ◌:*◌, ring}
use plonk.Group.{Group}
use plonk.Group.Laws.{plus-identity}
use plonk.Polynomial.{Polynomial, add, add_assign, mul_scalar, evaluate}
use plonk.Polynomial.Sums.{add-evaluate, add_assign-evaluate}
use plonk.Polynomial.Scalars.{mul_scalar-evaluate}
use plonk.Widget.Quotient.{LogicKey, FixedBaseKey}
use plonk.Widget.Linearization.{
  ProofEvaluations, ProverKey, Challenges, arithmetic_linearization, range_linearization,
  logic_linearization, fixed_base_linearization, curve_addition_linearization,
  compute_circuit_satisfiability,
}
use plonk.Widget.Agreement.{arithmetic_linearization-evaluate}
use plonk.Widget.Commitment.{
  Terms, VerifierKey, push, arithmetic_commitment, range_commitment, logic_commitment,
  fixed_base_commitment, curve_addition_commitment, circuit_commitment,
}

module _ {F : Type 0} ⦃s : Scalar F⦄ where
  -- The terms of the arithmetic widget, one by one and as a product.
  arithmetic_terms :
      (v m l r o f k a b c d q : F)
      → v ⊕ m ⊗ (a ⊗ b ⊗ q) ⊕ l ⊗ (a ⊗ q) ⊕ r ⊗ (b ⊗ q) ⊕ o ⊗ (c ⊗ q) ⊕ f ⊗ (d ⊗ q) ⊕ k ⊗ q
        ≡ v ⊕ (m ⊗ (a ⊗ b) ⊕ l ⊗ a ⊕ r ⊗ b ⊕ o ⊗ c ⊕ f ⊗ d ⊕ k) ⊗ q
  arithmetic_terms v m l r o f k a b c d q =
      ring (v ∷ m ∷ l ∷ r ∷ o ∷ f ∷ k ∷ a ∷ b ∷ c ∷ d ∷ q ∷ [])
        (var 0
          :+ var 1 :* (var 7 :* var 8 :* var 11)
          :+ var 2 :* (var 7 :* var 11)
          :+ var 3 :* (var 8 :* var 11)
          :+ var 4 :* (var 9 :* var 11)
          :+ var 5 :* (var 10 :* var 11)
          :+ var 6 :* var 11)
        (var 0
          :+ (var 1 :* (var 7 :* var 8)
              :+ var 2 :* var 7
              :+ var 3 :* var 8
              :+ var 4 :* var 9
              :+ var 5 :* var 10
              :+ var 6)
            :* var 11)
        refl

  sum_terms : (v a b c d e : F) → v ⊕ a ⊕ b ⊕ c ⊕ d ⊕ e ≡ v ⊕ (a ⊕ b ⊕ c ⊕ d ⊕ e)
  sum_terms v a b c d e =
      ring (v ∷ a ∷ b ∷ c ∷ d ∷ e ∷ []) (var 0 :+ var 1 :+ var 2 :+ var 3 :+ var 4 :+ var 5)
        (var 0 :+ (var 1 :+ var 2 :+ var 3 :+ var 4 :+ var 5)) refl

module _ {F G : Type 0} ⦃s : Scalar F⦄ ⦃group : Group F G⦄ where
  -- The products of the terms sum to the multiple of `g` by `v`.
  pub record Sums (g : G) (v : F) (t : Terms F G) : Type 0 where
    pub aligned : length t.points ≡ length t.scalars
    pub total : group.msm t.points t.scalars ≡ group.times g v

  msm-append :
      (ps : List G) (cs : List F) (p : G) (c : F)
      → length ps ≡ length cs
      → group.msm (ps ++ p ∷ []) (cs ++ c ∷ []) ≡ group.plus (group.msm ps cs) (group.times p c)
  msm-append [] [] p c h =
      group.msm-cons p [] c []
      ∙ ap (group.plus (group.times p c)) (group.msm-nil [])
      ∙ plus-identity F _
      ∙ sym (group.identity-plus _)
      ∙ ap (λ t. group.plus t (group.times p c)) (sym (group.msm-nil []))
  msm-append [] (d ∷ cs) p c h = absurd (omega arith)
  msm-append (q ∷ ps) [] p c h = absurd (omega arith)
  msm-append (q ∷ ps) (d ∷ cs) p c h =
      group.msm-cons q _ d _
      ∙ ap (group.plus (group.times q d)) (msm-append ps cs p c (omega arith))
      ∙ sym (group.plus_assoc _ _ _)
      ∙ ap (λ t. group.plus t (group.times p c)) (sym (group.msm-cons q ps d cs))

  pub push-Sums :
      (g : G) (v a c : F) (p : G) (t : Terms F G)
      → p ≡ group.times g a
      → Sums g v t
      → Sums g (v ⊕ a ⊗ c) (push c p t)
  unfolding push
  push-Sums g v a c p t e h = record {
    aligned =
        omega (arith, h.aligned, length-append t.points (p ∷ []), length-append t.scalars (c ∷ []));
    total =
        msm-append t.points t.scalars p c h.aligned
        ∙ ap₂ group.plus h.total (ap (λ q. group.times q c) e ∙ sym (group.times-mul g a c))
        ∙ sym (group.times-add g v (a ⊗ c));
  }

  -- The linearisation exists, and the terms grow by its value at `x`.
  abbrev Follows : F → G → F → Option (Polynomial F) → Terms F G → Type 0
  Follows x g v linearization t =
      (q : Polynomial F) × (linearization ≡ some q) × Sums g (v ⊕ evaluate q x) t

  push-Follows :
      (x : F) (g : G) (v c : F) (p : Polynomial F) (commitment : G) (t : Terms F G)
      → commitment ≡ group.times g (evaluate p x)
      → Sums g v t
      → Follows x g v (mul_scalar p c) (push c commitment t)
  push-Follows x g v c p commitment t e h =
      let (q, eq, value) = mul_scalar-evaluate p c in
      let sums = push-Sums g v (evaluate p x) c commitment t e h in
      (
        q,
        eq,
        record {
          aligned = sums.aligned;
          total = sums.total ∙ ap (λ y. group.times g (v ⊕ y)) (sym (value x));
        },
      )

  -- The verifier's commitments are those of the prover's polynomials at the secret point.
  pub record Commits (x : F) (g : G) (key : ProverKey (Polynomial F)) (vk : VerifierKey G)
      : Type 0 where
    pub q_m_lem : vk.arithmetic.q_m ≡ group.times g (evaluate key.arithmetic.q_m x)
    pub q_l_lem : vk.arithmetic.q_l ≡ group.times g (evaluate key.arithmetic.q_l x)
    pub q_r_lem : vk.arithmetic.q_r ≡ group.times g (evaluate key.arithmetic.q_r x)
    pub q_o_lem : vk.arithmetic.q_o ≡ group.times g (evaluate key.arithmetic.q_o x)
    pub q_f_lem : vk.arithmetic.q_f ≡ group.times g (evaluate key.arithmetic.q_f x)
    pub q_c_lem : vk.arithmetic.q_c ≡ group.times g (evaluate key.arithmetic.q_c x)
    pub q_range_lem : vk.q_range ≡ group.times g (evaluate key.q_range x)
    pub q_logic_lem : vk.q_logic ≡ group.times g (evaluate key.logic.q_logic x)
    pub q_fixed_lem :
        vk.q_fixed_group_add ≡ group.times g (evaluate key.fixed_base.q_fixed_group_add x)
    pub q_variable_lem :
        vk.q_variable_group_add ≡ group.times g (evaluate key.q_variable_group_add x)

  arithmetic_Follows :
      (x : F) (g : G) (key : ProverKey (Polynomial F)) (vk : VerifierKey G)
      (ev : ProofEvaluations F) (v : F) (t : Terms F G)
      → Commits x g key vk
      → Sums g v t
      → Follows x g v
          (arithmetic_linearization key.arithmetic ev)
          (arithmetic_commitment vk.arithmetic ev t)
  unfolding arithmetic_commitment
  arithmetic_Follows x g key vk ev v t h sums =
      let (q, e, value) = arithmetic_linearization-evaluate key.arithmetic ev in
      let r = push-Sums g _ _ ev.q_arith_eval _ _ h.q_c_lem (
        push-Sums g _ _ _ _ _ h.q_f_lem (
          push-Sums g _ _ _ _ _ h.q_o_lem (
            push-Sums g _ _ _ _ _ h.q_r_lem
              (push-Sums g _ _ _ _ _ h.q_l_lem (push-Sums g v _ _ _ _ h.q_m_lem sums))))) in
      (
        q,
        e,
        record {
          aligned = r.aligned;
          total =
              r.total
              ∙ ap (group.times g)
                  (arithmetic_terms v _ _ _ _ _ _ _ _ _ _ _ ∙ ap (λ y. v ⊕ y) (sym (value x)));
        },
      )

  range_Follows :
      (x : F) (g : G) (p : Polynomial F) (commitment : G) (k : F) (ev : ProofEvaluations F) (v : F)
      (t : Terms F G)
      → commitment ≡ group.times g (evaluate p x)
      → Sums g v t
      → Follows x g v (range_linearization p k ev) (range_commitment commitment k ev t)
  unfolding range_linearization range_commitment
  range_Follows x g p commitment k ev v t = push-Follows x g v _ p commitment t

  logic_Follows :
      (x : F) (g : G) (key : LogicKey (Polynomial F)) (commitment : G) (k : F)
      (ev : ProofEvaluations F) (v : F) (t : Terms F G)
      → commitment ≡ group.times g (evaluate key.q_logic x)
      → Sums g v t
      → Follows x g v (logic_linearization key k ev) (logic_commitment commitment k ev t)
  unfolding logic_linearization logic_commitment
  logic_Follows x g key commitment k ev v t = push-Follows x g v _ key.q_logic commitment t

  fixed_base_Follows :
      (x : F) (g : G) (edwards_d : F) (key : FixedBaseKey (Polynomial F)) (commitment : G) (k : F)
      (ev : ProofEvaluations F) (v : F) (t : Terms F G)
      → commitment ≡ group.times g (evaluate key.q_fixed_group_add x)
      → Sums g v t
      → Follows x g v
          (fixed_base_linearization edwards_d key k ev)
          (fixed_base_commitment edwards_d commitment k ev t)
  unfolding fixed_base_linearization fixed_base_commitment
  fixed_base_Follows x g edwards_d key commitment k ev v t =
      push-Follows x g v _ key.q_fixed_group_add commitment t

  curve_addition_Follows :
      (x : F) (g : G) (edwards_d : F) (p : Polynomial F) (commitment : G) (k : F)
      (ev : ProofEvaluations F) (v : F) (t : Terms F G)
      → commitment ≡ group.times g (evaluate p x)
      → Sums g v t
      → Follows x g v
          (curve_addition_linearization edwards_d p k ev)
          (curve_addition_commitment edwards_d commitment k ev t)
  unfolding curve_addition_linearization curve_addition_commitment
  curve_addition_Follows x g edwards_d p commitment k ev v t = push-Follows x g v _ p commitment t

  -- If the verifier's key has the commitments to the prover's selectors at the secret point, the
  -- terms that the verifier's widgets push sum to the commitment to the prover's linearisation of
  -- the circuit, which exists, on top of what the terms before them sum to.
  pub circuit_commitment-compute_circuit_satisfiability :
      (x : F) (g : G) (edwards_d : F) (challenges : Challenges F) (ev : ProofEvaluations F)
      (key : ProverKey (Polynomial F)) (vk : VerifierKey G) (v : F) (t : Terms F G)
      → Commits x g key vk
      → Sums g v t
      → (q : Polynomial F) × (compute_circuit_satisfiability edwards_d challenges ev key ≡ some q)
        × Sums g (v ⊕ evaluate q x) (circuit_commitment edwards_d vk challenges ev t)
  unfolding compute_circuit_satisfiability circuit_commitment
  circuit_commitment-compute_circuit_satisfiability x g edwards_d ch ev key vk v t h sums =
      let (a, e_a, s_a) = arithmetic_Follows x g key vk ev v t h sums in
      let (b, e_b, s_b) =
        range_Follows x g key.q_range _ ch.range_separation_challenge ev _ _ h.q_range_lem s_a in
      let (c, e_c, s_c) =
        logic_Follows x g key.logic _ ch.logic_separation_challenge ev _ _ h.q_logic_lem s_b in
      let (d, e_d, s_d) =
        fixed_base_Follows x g edwards_d key.fixed_base _ ch.fixed_base_separation_challenge ev _ _
          h.q_fixed_lem s_c in
      let (e, e_e, s_e) =
        curve_addition_Follows x g edwards_d key.q_variable_group_add _
          ch.var_base_separation_challenge ev _ _ h.q_variable_lem s_d in
      let value : v ⊕ evaluate a x ⊕ evaluate b x ⊕ evaluate c x ⊕ evaluate d x ⊕ evaluate e x
          ≡ v ⊕ evaluate (add_assign (add_assign (add_assign (add a b) c) d) e) x =
        rw
          (
            add_assign-evaluate (add_assign (add_assign (add a b) c) d) e x,
            add_assign-evaluate (add_assign (add a b) c) d x,
            add_assign-evaluate (add a b) c x,
            add-evaluate a b x,
          )
          (sum_terms v (evaluate a x) (evaluate b x) (evaluate c x) (evaluate d x)
            (evaluate e x)) in
      (
        add_assign (add_assign (add_assign (add a b) c) d) e,
        rw (e_a, e_b, e_c, e_d, e_e) refl,
        record { aligned = s_e.aligned; total = s_e.total ∙ ap (group.times g) value },
      )
