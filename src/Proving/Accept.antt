-- ===== src/Proving/Accept.antt =====
-- `Proof::verify` on the proof of an honest prover.
use plonk.Prelude.{zero, ◌-◌, ltb, ◌≡◌, ◌≢◌, refl, sym, ap, ◌∙◌, false, some, List, [], ◌∷◌}
use plonk.Scalar.{Scalar, ◌⊕◌, ◌⊖◌, ◌⊗◌}
use plonk.Scalar.Roots.{Roots}
use plonk.Error.{ok}
use plonk.Group.{Group, Pairing}
use plonk.Polynomial.{Polynomial, degree, evaluate}
use plonk.Kzg.Key.{compute_aggregate_witness}
use plonk.Kzg.Commit.{opening_key_of}
use plonk.Kzg.Aggregate.{compute_aggregate_witness_lem}
use plonk.Domain.{
  EvaluationDomain, new, evaluate_vanishing_polynomial, compute_first_lagrange_evaluation,
}
use plonk.Domain.Creation.{IsDomain}
use plonk.Widget.Quotient.{square}
use plonk.Widget.Linearization.{ProofEvaluations, ProverKey, Challenges}
use plonk.Widget.Agreement.{EvaluatedAt, prover_key_at}
use plonk.Widget.Equation.{circuit_satisfiability_equation}
use plonk.Widget.Commitment.{VerifierKey}
use plonk.Widget.Verifier.{Commits}
use plonk.Widget.Permutation.{PermutationKey, PermutationChallenges, permutation_quotient}
use plonk.Proving.{Parts, compute_barycentric_eval, compute, r_0_eval}
use plonk.Proving.Remainder.{PermutedAt, permutation_at}
use plonk.Proving.Value.{parts_value}
use plonk.Proving.Commitments.{compute_linearization_commitment-compute}
use plonk.Proving.Verify.{Proof, OpeningChallenges, verify}
use plonk.Proving.Complete.{pairs_accepted}
use plonk.Proving.Honest.{
  Wires, OpenedAt, some_injective, dot-weighted_8, dot-weighted_4, linearization_value,
}

module _ {F G : Type 0} ⦃s : Scalar F⦄ ⦃group : Group F G⦄ where
  abbrev commit_to : F → G → Polynomial F → G
  commit_to x g p = group.times g (evaluate p x)

  abbrev pub permutation_commitments : F → G → PermutationKey (Polynomial F) → PermutationKey G
  permutation_commitments x g perm = record {
    s_sigma_1 = group.times g (evaluate perm.s_sigma_1 x);
    s_sigma_2 = group.times g (evaluate perm.s_sigma_2 x);
    s_sigma_3 = group.times g (evaluate perm.s_sigma_3 x);
    s_sigma_4 = group.times g (evaluate perm.s_sigma_4 x);
  }

  -- The commitments to the polynomials, with the evaluations.
  abbrev pub honest_proof :
      F
      → G
      → Wires F
      → Parts (Polynomial F)
      → ProofEvaluations F
      → Polynomial F
      → Polynomial F
      → Proof F G
  honest_proof x g wires parts ev w_z w_z_w = record {
    a_comm = group.times g (evaluate wires.a x);
    b_comm = group.times g (evaluate wires.b x);
    c_comm = group.times g (evaluate wires.c x);
    d_comm = group.times g (evaluate wires.d x);
    z_comm = group.times g (evaluate wires.z x);
    t_comms = record {
      t_low = group.times g (evaluate parts.t_low x);
      t_mid = group.times g (evaluate parts.t_mid x);
      t_high = group.times g (evaluate parts.t_high x);
      t_fourth = group.times g (evaluate parts.t_fourth x);
    };
    w_z_chall_comm = group.times g (evaluate w_z x);
    w_z_chall_w_comm = group.times g (evaluate w_z_w x);
    evaluations = ev;
  }

  module _ {H : Type 0} (T : Type 0) ⦃group_2 : Group F H⦄ ⦃pair : Pairing F G H T⦄
      ⦃r : Roots F⦄ where
    -- For an honest prover, whose commitments are to the polynomials at the secret point, whose
    -- evaluations are theirs at the challenge, and whose quotient polynomial there times the
    -- vanishing polynomial is the numerator of circuit and permutation: the linearisation and both
    -- aggregate witnesses are computed without panic, and the verifier accepts the proof with
    -- them, for every challenge outside of the domain that is made from the degree of z(X), for
    -- every secret point and for all other challenges.
    pub verify_lem :
        (x : F) (g : G) (h : H) (edwards_d : F) (key : ProverKey (Polynomial F))
        (vk : VerifierKey G) (perm : PermutationKey (Polynomial F)) (pch : PermutationChallenges F)
        (ch : Challenges F) (opening : OpeningChallenges F) (wires : Wires F)
        (parts : Parts (Polynomial F)) (ev : ProofEvaluations F) (d : EvaluationDomain F)
        (inputs : List F) (pi l1 t_1 t_2 : F)
        → Commits x g key vk
        → ltb (degree wires.z) 2 ≡ false
        → new (degree wires.z - 2) ≡ ok d
        → IsDomain (degree wires.z - 2) d
        → r.pow opening.z_challenge d.size ≢ s.one
        → EvaluatedAt opening.z_challenge key ev
        → PermutedAt opening.z_challenge perm ev
        → OpenedAt opening.z_challenge d.group_gen wires ev
        → compute_barycentric_eval inputs opening.z_challenge d ≡ some pi
        → compute_first_lagrange_evaluation d
            (evaluate_vanishing_polynomial d opening.z_challenge)
            opening.z_challenge
          ≡ some l1
        → circuit_satisfiability_equation edwards_d ch
            (prover_key_at opening.z_challenge key)
            zero
            ev.a_eval
            ev.b_eval
            ev.c_eval
            ev.d_eval
            ev.a_w_eval
            ev.b_w_eval
            ev.d_w_eval
            pi
          ≡ some t_1
        → permutation_quotient
            (permutation_at opening.z_challenge perm)
            (opening.z_challenge ∷ [])
            zero
            ev.a_eval
            ev.b_eval
            ev.c_eval
            ev.d_eval
            (evaluate wires.z opening.z_challenge)
            ev.z_eval
            (l1 ⊗ square pch.alpha)
            pch
          ≡ some t_2
        → t_1 ⊕ t_2
          ≡ evaluate_vanishing_polynomial d opening.z_challenge
            ⊗ parts_value d opening.z_challenge parts opening.z_challenge
        → (q : Polynomial F) × (w_z : Polynomial F) × (w_z_w : Polynomial F) × (compute edwards_d
              key perm pch ch opening.z_challenge wires.z ev d parts inputs
            ≡ some q)
          × (compute_aggregate_witness
                (q ∷ wires.a ∷ wires.b ∷ wires.c ∷ wires.d ∷ perm.s_sigma_1 ∷ perm.s_sigma_2
                  ∷ perm.s_sigma_3 ∷ [])
                opening.z_challenge
                opening.v_challenge
              ≡ ok w_z)
          × (compute_aggregate_witness
                (wires.z ∷ wires.a ∷ wires.b ∷ wires.d ∷ [])
                (opening.z_challenge ⊗ d.group_gen)
                opening.v_w_challenge
              ≡ ok w_z_w)
          × (verify T edwards_d
                (honest_proof x g wires parts ev w_z w_z_w)
                vk
                (permutation_commitments x g perm)
                (degree wires.z - 2)
                pch
                ch
                opening
                (opening_key_of x g h)
                inputs
              ≡ ok tt)
    unfolding verify
    verify_lem x g h edwards_d key vk perm pch ch opening wires parts ev d inputs pi l1 t_1 t_2
          commits large created dom out at perm_at opened e_pi e_l1 e_t1 e_t2 identity =
        let z = opening.z_challenge in
        let (q, pi', e_q, e_pi', linear) =
          compute_linearization_commitment-compute x g edwards_d key vk perm
            (permutation_commitments x g perm) pch ch z opening.u_challenge l1 wires.z
            (group.times g (evaluate wires.z x)) ev d parts _ inputs commits
            (record {
              s_sigma_4_lem = refl;
              z_lem = refl;
              t_low_lem = refl;
              t_mid_lem = refl;
              t_high_lem = refl;
              t_fourth_lem = refl;
            })
            large created dom out e_l1 in
        let same_pi : pi' ≡ pi = some_injective (sym e_pi' ∙ e_pi) in
        let value =
          linearization_value edwards_d key perm pch ch z wires.z ev d parts inputs pi l1 t_1 t_2 q
            large created dom out at perm_at e_pi e_l1 e_t1 e_t2 identity e_q in
        let (w, e_w, divides) =
          compute_aggregate_witness_lem q
            (wires.a ∷ wires.b ∷ wires.c ∷ wires.d ∷ perm.s_sigma_1 ∷ perm.s_sigma_2
              ∷ perm.s_sigma_3 ∷ [])
            z opening.v_challenge in
        let (w', e_w', divides') =
          compute_aggregate_witness_lem wires.z (wires.a ∷ wires.b ∷ wires.d ∷ []) (z ⊗ d.group_gen)
            opening.v_w_challenge in
        let accepted =
          pairs_accepted T x g h (honest_proof x g wires parts ev w w')
            (permutation_commitments x g perm) opening d.group_gen (r_0_eval pi l1 pch ev) pi
            (evaluate q x) (evaluate wires.z x) (evaluate wires.a x) (evaluate wires.b x)
            (evaluate wires.c x) (evaluate wires.d x) (evaluate perm.s_sigma_1 x)
            (evaluate perm.s_sigma_2 x) (evaluate perm.s_sigma_3 x) (evaluate w x) (evaluate w' x) _
            (record {
              a_lem = refl;
              b_lem = refl;
              c_lem = refl;
              d_lem = refl;
              s_1_lem = refl;
              s_2_lem = refl;
              s_3_lem = refl;
              w_z_lem = refl;
              w_z_w_lem = refl;
            })
            (linear
              ∙ ap
                  (λ y. group.times g (evaluate q x ⊖ y ⊕ opening.u_challenge ⊗ evaluate wires.z x))
                  same_pi)
            (sym (dot-weighted_8 _ _ _ _ _ _ _ _ _)
              ∙ divides x
              ∙ ap (λ y. (x ⊖ z) ⊗ evaluate w x ⊕ y)
                  (dot-weighted_8 _ _ _ _ _ _ _ _ _
                    ∙ rw
                        (
                          value, opened.a_lem, opened.b_lem, opened.c_lem, opened.d_lem,
                          perm_at.sigma_1_lem, perm_at.sigma_2_lem, perm_at.sigma_3_lem,
                        )
                        refl))
            (sym (dot-weighted_4 _ _ _ _ _)
              ∙ divides' x
              ∙ ap (λ y. (x ⊖ z ⊗ d.group_gen) ⊗ evaluate w' x ⊕ y)
                  (dot-weighted_4 _ _ _ _ _
                    ∙ rw (opened.z_lem, opened.a_w_lem, opened.b_w_lem, opened.d_w_lem) refl)) in
        (
          q,
          w,
          w',
          e_q,
          e_w,
          e_w',
          rw (verify, created, e_l1, e_pi, (pair.is_one_iff _).1 accepted) refl,
        )
