-- ===== src/Proving.antt =====
-- The linearisation polynomial (src/proof_system/linearization_poly.rs) and what the verifier
-- computes in its place (src/proof_system/proof.rs). `none` is a panic.
pub mod Remainder
pub mod PublicInputs
pub mod Value
pub mod Commitments
pub mod Verify
pub mod Complete
pub mod Honest
pub mod Accept
use plonk.Prelude.{
  ℕ, zero, suc, ◌*◌, true, false, Option, none, some, List, [], ◌∷◌, get_elem?, map,
}
use plonk.Scalar.{Scalar, ◌⊕◌, ◌⊖◌, ◌⊗◌}
use plonk.Scalar.Roots.{Roots}
use plonk.Group.{Group}
use plonk.Inversion.{batch_inversion}
use plonk.Polynomial.{Polynomial, add, add_scalar, mul_scalar}
use plonk.Domain.{EvaluationDomain, evaluate_vanishing_polynomial}
use plonk.Widget.Quotient.{◌>>=◌, square}
use plonk.Widget.Linearization.{
  ProofEvaluations, ProverKey, Challenges, compute_circuit_satisfiability,
}
use plonk.Widget.Commitment.{Terms, VerifierKey, push, circuit_commitment}
use plonk.Widget.Permutation.{
  PermutationKey, PermutationChallenges, permutation_linearization, permutation_commitment,
}

-- The four parts of the quotient polynomial.
pub record Parts (A : Type 0) : Type 0 where
  pub t_low : A
  pub t_mid : A
  pub t_high : A
  pub t_fourth : A

module _ {F : Type 0} ⦃s : Scalar F⦄ where
  -- The indices from `i` on of the evaluations that are not zero.
  unfoldable pub non_zero_evaluations : ℕ → List F → List ℕ
  non_zero_evaluations i [] = []
  non_zero_evaluations i (evaluation ∷ es) = elim (s.beq evaluation s.zero) [
    | true ↦ non_zero_evaluations (suc i) es
    | false ↦ i ∷ non_zero_evaluations (suc i) es
  ]

  unfoldable pub sum_evaluations : List F → F → List F → List ℕ → Option F
  sum_evaluations evaluations sum [] is = some sum
  sum_evaluations evaluations sum (d ∷ ds) [] = some sum
  sum_evaluations evaluations sum (d ∷ ds) (i ∷ is) = do
    eval ← get_elem? evaluations i
    sum_evaluations evaluations (sum ⊕ d ⊗ eval) ds is

  -- The value `r_0_eval` of `Proof::verify`.
  unfoldable pub r_0_eval : F → F → PermutationChallenges F → ProofEvaluations F → F
  r_0_eval pi_eval l1_eval challenges evaluations =
      let alpha = challenges.alpha in
      let beta = challenges.beta in
      let gamma = challenges.gamma in
      pi_eval
      ⊖ l1_eval ⊗ square alpha
      ⊖ alpha
        ⊗ (evaluations.a_eval ⊕ beta ⊗ evaluations.s_sigma_1_eval ⊕ gamma)
        ⊗ (evaluations.b_eval ⊕ beta ⊗ evaluations.s_sigma_2_eval ⊕ gamma)
        ⊗ (evaluations.c_eval ⊕ beta ⊗ evaluations.s_sigma_3_eval ⊕ gamma)
        ⊗ (evaluations.d_eval ⊕ gamma)
        ⊗ evaluations.z_eval

module _ {F : Type 0} ⦃s : Scalar F⦄ ⦃r : Roots F⦄ where
  unfoldable pub denominators : EvaluationDomain F → F → List ℕ → List F
  denominators domain point indices =
      map (λ index. r.pow domain.group_gen_inv index ⊗ point ⊖ s.one) indices

  unfoldable pub compute_barycentric_eval : List F → F → EvaluationDomain F → Option F
  unfolding non_zero_evaluations denominators sum_evaluations
  compute_barycentric_eval evaluations point domain = do
    let numerator = (r.pow point domain.size ⊖ s.one) ⊗ domain.size_inv
    let indices = non_zero_evaluations 0 evaluations
    ds ← batch_inversion (denominators domain point indices)
    result ← sum_evaluations evaluations s.zero ds indices
    some (result ⊗ numerator)

  -- `compute` of src/proof_system/linearization_poly.rs
  unfoldable pub compute :
      F
      → ProverKey (Polynomial F)
      → PermutationKey (Polynomial F)
      → PermutationChallenges F
      → Challenges F
      → F
      → Polynomial F
      → ProofEvaluations F
      → EvaluationDomain F
      → Parts (Polynomial F)
      → List F
      → Option (Polynomial F)
  compute edwards_d prover_key permutation permutation_challenges challenges z_challenge z_poly
        evaluations domain parts pub_inputs =
      do
        f_1 ← compute_circuit_satisfiability edwards_d challenges evaluations prover_key
        pi_eval ← compute_barycentric_eval pub_inputs z_challenge domain
        f_1 ← add_scalar f_1 pi_eval
        f_2 ←
            permutation_linearization permutation z_challenge permutation_challenges evaluations
              z_poly
        let domain_size = domain.size
        let z_n = r.pow z_challenge domain_size
        let z_two_n = r.pow z_challenge (2 * domain_size)
        let z_three_n = r.pow z_challenge (3 * domain_size)
        b ← mul_scalar parts.t_mid z_n
        c ← mul_scalar parts.t_high z_two_n
        d ← mul_scalar parts.t_fourth z_three_n
        let abc = add (add parts.t_low b) c
        let quot = add abc d
        let z_h_eval = s.neg (evaluate_vanishing_polynomial domain z_challenge)
        quot ← mul_scalar quot z_h_eval
        let f = add f_1 f_2
        some (add f quot)

  -- `compute_linearization_commitment` of src/proof_system/proof.rs
  unfoldable pub compute_linearization_commitment :
      {G : Type 0} ⦃group : Group F G⦄
      → F
      → VerifierKey G
      → PermutationKey G
      → PermutationChallenges F
      → Challenges F
      → F
      → F
      → F
      → G
      → Parts G
      → ProofEvaluations F
      → EvaluationDomain F
      → G
  compute_linearization_commitment ⦃group⦄ edwards_d verifier_key permutation permutation_challenges
        challenges z_challenge u_challenge l1_eval z_comm parts evaluations domain =
      let terms =
        circuit_commitment edwards_d verifier_key challenges evaluations
          (record { scalars = []; points = [] }) in
      let terms =
        permutation_commitment permutation evaluations z_challenge u_challenge
          permutation_challenges l1_eval z_comm terms in
      let domain_size = domain.size in
      let z_h_eval = s.neg (evaluate_vanishing_polynomial domain z_challenge) in
      let z_n = r.pow z_challenge domain_size ⊗ z_h_eval in
      let z_two_n = r.pow z_challenge (2 * domain_size) ⊗ z_h_eval in
      let z_three_n = r.pow z_challenge (3 * domain_size) ⊗ z_h_eval in
      let terms = push z_h_eval parts.t_low terms in
      let terms = push z_n parts.t_mid terms in
      let terms = push z_two_n parts.t_high terms in
      let terms = push z_three_n parts.t_fourth terms in group.msm terms.points terms.scalars
