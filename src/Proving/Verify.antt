-- ===== src/Proving/Verify.antt =====
-- `Proof::verify` of src/proof_system/proof.rs: the challenges, which the source draws from the
-- transcript, are arguments; the vectors of fixed length are written out.
use plonk.Prelude.{ℕ, List, [], ◌∷◌, if◌then◌else◌}
use plonk.Scalar.{Scalar, ◌⊕◌, ◌⊗◌}
use plonk.Scalar.Roots.{Roots}
use plonk.Error.{Error, Outcome, ok, err, ◌>>=◌, asserted}
use plonk.Group.{Group, Pairing}
use plonk.Kzg.Key.{OpeningKey}
use plonk.Domain.{new, evaluate_vanishing_polynomial, compute_first_lagrange_evaluation}
use plonk.Widget.Linearization.{ProofEvaluations, Challenges}
use plonk.Widget.Commitment.{VerifierKey}
use plonk.Widget.Permutation.{PermutationKey, PermutationChallenges}
use plonk.Proving.{Parts, compute_barycentric_eval, r_0_eval, compute_linearization_commitment}

pub record Proof (F G : Type 0) : Type 0 where
  pub a_comm : G
  pub b_comm : G
  pub c_comm : G
  pub d_comm : G
  pub z_comm : G
  pub t_comms : Parts G
  pub w_z_chall_comm : G
  pub w_z_chall_w_comm : G
  pub evaluations : ProofEvaluations F

-- The challenges of the openings.
pub record OpeningChallenges (F : Type 0) : Type 0 where
  pub z_challenge : F
  pub v_challenge : F
  pub v_w_challenge : F
  pub u_challenge : F

-- `iter().sum()`
abbrev pub sum_all : {G : Type 0} → (G → G → G) → G → List G → G
sum_all plus sum [] = sum
sum_all plus sum (p ∷ ps) = sum_all plus (plus sum p) ps

module _ {F : Type 0} ⦃s : Scalar F⦄ where
  -- `E_scalar`
  unfoldable pub e_scalar : ProofEvaluations F → OpeningChallenges F → F → F
  e_scalar evaluations opening r_0 =
      let v_0 = opening.v_challenge in
      let v_1 = v_0 ⊗ opening.v_challenge in
      let v_2 = v_1 ⊗ opening.v_challenge in
      let v_3 = v_2 ⊗ opening.v_challenge in
      let v_4 = v_3 ⊗ opening.v_challenge in
      let v_5 = v_4 ⊗ opening.v_challenge in
      let v_6 = v_5 ⊗ opening.v_challenge in
      let v_7 = opening.v_w_challenge ⊗ opening.u_challenge in
      let v_8 = v_7 ⊗ opening.v_w_challenge in
      let v_9 = v_8 ⊗ opening.v_w_challenge in
      s.zero
      ⊕ evaluations.a_eval ⊗ v_0
      ⊕ evaluations.b_eval ⊗ v_1
      ⊕ evaluations.c_eval ⊗ v_2
      ⊕ evaluations.d_eval ⊗ v_3
      ⊕ evaluations.s_sigma_1_eval ⊗ v_4
      ⊕ evaluations.s_sigma_2_eval ⊗ v_5
      ⊕ evaluations.s_sigma_3_eval ⊗ v_6
      ⊕ evaluations.a_w_eval ⊗ v_7
      ⊕ evaluations.b_w_eval ⊗ v_8
      ⊕ evaluations.d_w_eval ⊗ v_9
      ⊕ (s.neg r_0 ⊕ opening.u_challenge ⊗ evaluations.z_eval)

module _ {F G : Type 0} ⦃s : Scalar F⦄ ⦃group : Group F G⦄ where
  -- `F`, from the identity, with the commitment `D` last.
  unfoldable pub f_point : Proof F G → PermutationKey G → OpeningChallenges F → G → G
  f_point proof permutation opening d =
      let v_0 = opening.v_challenge in
      let v_1 = v_0 ⊗ opening.v_challenge in
      let v_2 = v_1 ⊗ opening.v_challenge in
      let v_3 = v_2 ⊗ opening.v_challenge in
      let v_4 = v_3 ⊗ opening.v_challenge in
      let v_5 = v_4 ⊗ opening.v_challenge in
      let v_6 = v_5 ⊗ opening.v_challenge in
      let v_7 = opening.v_w_challenge ⊗ opening.u_challenge in
      let v_8 = v_7 ⊗ opening.v_w_challenge in
      let v_9 = v_8 ⊗ opening.v_w_challenge in
      group.plus
        (sum_all group.plus group.identity (
          group.times proof.a_comm (v_0 ⊕ v_7)
          ∷ group.times proof.b_comm (v_1 ⊕ v_8)
          ∷ group.times proof.c_comm v_2
          ∷ group.times proof.d_comm (v_3 ⊕ v_9)
          ∷ group.times permutation.s_sigma_1 v_4
          ∷ group.times permutation.s_sigma_2 v_5
          ∷ group.times permutation.s_sigma_3 v_6
          ∷ []))
        d

  -- The two points that are paired, with `E` a multiple of the generator.
  unfoldable pub left_point : Proof F G → OpeningChallenges F → G
  left_point proof opening =
      group.negate
        (group.plus proof.w_z_chall_comm (group.times proof.w_z_chall_w_comm opening.u_challenge))

  unfoldable pub right_point : Proof F G → OpeningChallenges F → F → G → G → G
  right_point proof opening group_gen f e =
      group.minus
        (group.plus
          (group.plus (group.times proof.w_z_chall_comm opening.z_challenge) (
            group.times proof.w_z_chall_w_comm
              (opening.u_challenge ⊗ opening.z_challenge ⊗ group_gen)))
          f)
        e

  module _ {H : Type 0} (T : Type 0) ⦃group_2 : Group F H⦄ ⦃pair : Pairing F G H T⦄
      ⦃r : Roots F⦄ where
    unfoldable pub verify :
        F
        → Proof F G
        → VerifierKey G
        → PermutationKey G
        → ℕ
        → PermutationChallenges F
        → Challenges F
        → OpeningChallenges F
        → OpeningKey G H
        → List F
        → Outcome (Unit {0})
    unfolding e_scalar f_point left_point right_point
    verify edwards_d proof verifier_key permutation n permutation_challenges challenges opening
          opening_key pub_inputs =
        do
          domain ← new n
          let z_challenge = opening.z_challenge
          let z_h_eval = evaluate_vanishing_polynomial domain z_challenge
          l1_eval ← asserted (compute_first_lagrange_evaluation domain z_h_eval z_challenge)
          let d =
              compute_linearization_commitment edwards_d verifier_key permutation
                permutation_challenges challenges z_challenge opening.u_challenge l1_eval
                proof.z_comm proof.t_comms proof.evaluations domain
          pi_eval ← asserted (compute_barycentric_eval pub_inputs z_challenge domain)
          let r_0 = r_0_eval pi_eval l1_eval permutation_challenges proof.evaluations
          let e = group.times opening_key.g (e_scalar proof.evaluations opening r_0)
          let f = f_point proof permutation opening d
          let left = left_point proof opening
          let right = right_point proof opening domain.group_gen f e
          (if pair.is_one
                (pair.multi_pairing ((left, opening_key.x_h) ∷ (right, opening_key.h) ∷ []))
              then ok tt
              else err Error.proof_verification_error)
