-- ===== src/Proving/Honest.antt =====
-- What an honest prover computes, as the verifier needs it.
use plonk.Prelude.{zero, ◌-◌, ltb, ◌≡◌, ◌≢◌, refl, sym, ap, ap₂, ◌∙◌, false, some, List, [], ◌∷◌}
use plonk.Scalar.{Scalar, ◌⊕◌, ◌⊖◌, ◌⊗◌}
use plonk.Scalar.Ring.{var, :0, :1, ◌:+◌, ◌:-◌, ◌:*◌, ring}
use plonk.Scalar.Roots.{Roots}
use plonk.Error.{ok}
use plonk.Polynomial.{Polynomial, degree, powers_of, next_powers, evaluate}
use plonk.Kzg.Aggregate.{dot}
use plonk.Domain.{
  EvaluationDomain, new, evaluate_vanishing_polynomial, compute_first_lagrange_evaluation,
}
use plonk.Domain.Creation.{IsDomain}
use plonk.Widget.Quotient.{square}
use plonk.Widget.Linearization.{ProofEvaluations, ProverKey, Challenges}
use plonk.Widget.Agreement.{EvaluatedAt, prover_key_at}
use plonk.Widget.Equation.{circuit_satisfiability_equation}
use plonk.Widget.Permutation.{PermutationKey, PermutationChallenges, permutation_quotient}
use plonk.Proving.{Parts, compute_barycentric_eval, compute, r_0_eval}
use plonk.Proving.Remainder.{PermutedAt, permutation_at}
use plonk.Proving.Value.{parts_value, compute_lem}
use plonk.Proving.Complete.{weighted_8, weighted_4}

-- The polynomials of the wires and of the permutation.
pub record Wires (F : Type 0) : Type 0 where
  pub a : Polynomial F
  pub b : Polynomial F
  pub c : Polynomial F
  pub d : Polynomial F
  pub z : Polynomial F

pub some_injective : {A : Type 0} {a b : A} → some a ≡ some b → a ≡ b
some_injective h = cc

module _ {F : Type 0} ⦃s : Scalar F⦄ where
  pub dot-weighted_8 :
      (v r a b c d s_1 s_2 s_3 : F)
      → dot (r ∷ a ∷ b ∷ c ∷ d ∷ s_1 ∷ s_2 ∷ s_3 ∷ []) (powers_of v 7)
        ≡ weighted_8 v r a b c d s_1 s_2 s_3
  unfolding powers_of next_powers
  dot-weighted_8 v r a b c d s_1 s_2 s_3 =
      ring (v ∷ r ∷ a ∷ b ∷ c ∷ d ∷ s_1 ∷ s_2 ∷ s_3 ∷ [])
        (var 1 :* :1
          :+ (var 2 :* (:1 :* var 0)
              :+ (var 3 :* (:1 :* var 0 :* var 0)
                  :+ (var 4 :* (:1 :* var 0 :* var 0 :* var 0)
                      :+ (var 5 :* (:1 :* var 0 :* var 0 :* var 0 :* var 0)
                          :+ (var 6 :* (:1 :* var 0 :* var 0 :* var 0 :* var 0 :* var 0)
                              :+ (var 7
                                    :* (:1 :* var 0 :* var 0 :* var 0 :* var 0 :* var 0 :* var 0)
                                  :+ (var 8
                                        :* (:1
                                            :* var 0
                                            :* var 0
                                            :* var 0
                                            :* var 0
                                            :* var 0
                                            :* var 0
                                            :* var 0)
                                      :+ :0))))))))
        (var 1
          :+ var 2 :* var 0
          :+ var 3 :* (var 0 :* var 0)
          :+ var 4 :* (var 0 :* var 0 :* var 0)
          :+ var 5 :* (var 0 :* var 0 :* var 0 :* var 0)
          :+ var 6 :* (var 0 :* var 0 :* var 0 :* var 0 :* var 0)
          :+ var 7 :* (var 0 :* var 0 :* var 0 :* var 0 :* var 0 :* var 0)
          :+ var 8 :* (var 0 :* var 0 :* var 0 :* var 0 :* var 0 :* var 0 :* var 0))
        refl

  pub dot-weighted_4 :
      (w z a b d : F) → dot (z ∷ a ∷ b ∷ d ∷ []) (powers_of w 3) ≡ weighted_4 w z a b d
  unfolding powers_of next_powers
  dot-weighted_4 w z a b d =
      ring (w ∷ z ∷ a ∷ b ∷ d ∷ [])
        (var 1 :* :1
          :+ (var 2 :* (:1 :* var 0)
              :+ (var 3 :* (:1 :* var 0 :* var 0)
                  :+ (var 4 :* (:1 :* var 0 :* var 0 :* var 0) :+ :0))))
        (var 1 :+ var 2 :* var 0 :+ var 3 :* (var 0 :* var 0) :+ var 4 :* (var 0 :* var 0 :* var 0))
        refl

  -- The evaluations are those of the polynomials at the challenge and at the next element.
  pub record OpenedAt (z om : F) (wires : Wires F) (ev : ProofEvaluations F) : Type 0 where
    pub a_lem : ev.a_eval ≡ evaluate wires.a z
    pub b_lem : ev.b_eval ≡ evaluate wires.b z
    pub c_lem : ev.c_eval ≡ evaluate wires.c z
    pub d_lem : ev.d_eval ≡ evaluate wires.d z
    pub a_w_lem : ev.a_w_eval ≡ evaluate wires.a (z ⊗ om)
    pub b_w_lem : ev.b_w_eval ≡ evaluate wires.b (z ⊗ om)
    pub d_w_lem : ev.d_w_eval ≡ evaluate wires.d (z ⊗ om)
    pub z_lem : ev.z_eval ≡ evaluate wires.z (z ⊗ om)

  remainder :
      (e vt pi l1 : F) (pch : PermutationChallenges F) (ev : ProofEvaluations F)
      → e ⊕ vt ≡ vt ⊖ r_0_eval s.zero l1 pch ev
      → e ≡ pi ⊖ r_0_eval pi l1 pch ev
  unfolding r_0_eval
  remainder e vt pi l1 pch ev h =
      ring (e ∷ vt ∷ []) (var 0) (var 0 :+ var 1 :- var 1) refl
      ∙ ap (λ y. y ⊖ vt) h
      ∙ ring (vt ∷ pi ∷ _ ∷ _ ∷ []) (var 0 :- (:0 :- var 2 :- var 3) :- var 0)
          (var 1 :- (var 1 :- var 2 :- var 3)) refl

module _ {F : Type 0} ⦃s : Scalar F⦄ ⦃r : Roots F⦄ where
  -- The quotient identity at the challenge determines the value of the linearisation there.
  pub linearization_value :
      (edwards_d : F) (key : ProverKey (Polynomial F)) (perm : PermutationKey (Polynomial F))
      (pch : PermutationChallenges F) (ch : Challenges F) (z : F) (z_poly : Polynomial F)
      (ev : ProofEvaluations F) (d : EvaluationDomain F) (parts : Parts (Polynomial F))
      (inputs : List F) (pi l1 t_1 t_2 : F) (q : Polynomial F)
      → ltb (degree z_poly) 2 ≡ false
      → new (degree z_poly - 2) ≡ ok d
      → IsDomain (degree z_poly - 2) d
      → r.pow z d.size ≢ s.one
      → EvaluatedAt z key ev
      → PermutedAt z perm ev
      → compute_barycentric_eval inputs z d ≡ some pi
      → compute_first_lagrange_evaluation d (evaluate_vanishing_polynomial d z) z ≡ some l1
      → circuit_satisfiability_equation edwards_d ch
          (prover_key_at z key)
          zero
          ev.a_eval
          ev.b_eval
          ev.c_eval
          ev.d_eval
          ev.a_w_eval
          ev.b_w_eval
          ev.d_w_eval
          pi
        ≡ some t_1
      → permutation_quotient
          (permutation_at z perm)
          (z ∷ [])
          zero
          ev.a_eval
          ev.b_eval
          ev.c_eval
          ev.d_eval
          (evaluate z_poly z)
          ev.z_eval
          (l1 ⊗ square pch.alpha)
          pch
        ≡ some t_2
      → t_1 ⊕ t_2 ≡ evaluate_vanishing_polynomial d z ⊗ parts_value d z parts z
      → compute edwards_d key perm pch ch z z_poly ev d parts inputs ≡ some q
      → evaluate q z ≡ pi ⊖ r_0_eval pi l1 pch ev
  linearization_value edwards_d key perm pch ch z z_poly ev d parts inputs pi l1 t_1 t_2 q large
        created dom out at perm_at e_pi e_l1 e_t1 e_t2 identity e_q =
      let (q', pi', l1', t_1', t_2', e_q', e_pi', e_l1', e_t1', e_t2', value) =
        compute_lem edwards_d key perm pch ch z z_poly ev d parts inputs large created dom out at
          perm_at in
      let same_q : q' ≡ q = some_injective (sym e_q' ∙ e_q) in
      let same_pi : pi' ≡ pi = some_injective (sym e_pi' ∙ e_pi) in
      let same_l1 : l1' ≡ l1 = some_injective (sym e_l1' ∙ e_l1) in
      let same_t1 : t_1' ≡ t_1 = some_injective (
        sym e_t1'
        ∙ ap
            (circuit_satisfiability_equation edwards_d ch (prover_key_at z key) zero ev.a_eval
              ev.b_eval ev.c_eval ev.d_eval ev.a_w_eval ev.b_w_eval ev.d_w_eval)
            same_pi
        ∙ e_t1) in
      let same_t2 : t_2' ≡ t_2 = some_injective (
        sym e_t2'
        ∙ ap
            (λ y.
              permutation_quotient (permutation_at z perm) (z ∷ []) zero ev.a_eval ev.b_eval
                ev.c_eval ev.d_eval (evaluate z_poly z) ev.z_eval (y ⊗ square pch.alpha) pch)
            same_l1
        ∙ e_t2) in
      let vt = evaluate_vanishing_polynomial d z ⊗ parts_value d z parts z in
      remainder (evaluate q z) vt pi l1 pch ev (
        ap (λ y. evaluate y z ⊕ vt) (sym same_q)
        ∙ value
        ∙ ap₂ (λ y y'. y ⊖ r_0_eval s.zero y' pch ev) (ap₂ s.add same_t1 same_t2 ∙ identity)
            same_l1)
