-- ===== src/Widget/Permutation.antt =====
-- The widget of the permutation argument: src/proof_system/widget/permutation/*.rs, and the
-- constants of src/composer/permutation/constants.rs. `none` is a panic.
use plonk.Prelude.{ℕ, ◌-◌, ltb, if◌then◌else◌, Option, none, some, List, get_elem?}
use plonk.Scalar.{Scalar, ◌⊕◌, ◌⊖◌, ◌⊗◌}
use plonk.Scalar.Roots.{Roots}
use plonk.Error.{Outcome, ok, err, panic}
use plonk.Polynomial.{Polynomial, degree, add, mul_scalar}
use plonk.Domain.{EvaluationDomain, new, evaluate_all_lagrange_coefficients}
use plonk.Widget.Quotient.{◌>>=◌, square}
use plonk.Widget.Linearization.{ProofEvaluations}
use plonk.Widget.Commitment.{Terms, push}

pub record PermutationKey (A : Type 0) : Type 0 where
  pub s_sigma_1 : A
  pub s_sigma_2 : A
  pub s_sigma_3 : A
  pub s_sigma_4 : A

-- The challenges of the permutation argument.
pub record PermutationChallenges (F : Type 0) : Type 0 where
  pub alpha : F
  pub beta : F
  pub gamma : F

-- `unwrap`
abbrev pub unwrap : {A : Type 0} → Outcome A → Option A
unwrap (ok a) = some a
unwrap (err e) = none
unwrap panic = none

module _ {F : Type 0} ⦃s : Scalar F⦄ where
  abbrev pub k_1 : F
  k_1 = s.from 7

  abbrev pub k_2 : F
  k_2 = s.from 13

  abbrev pub k_3 : F
  k_3 = s.from 17

  unfoldable pub quotient_identity_range_check :
      List F → ℕ → F → F → F → F → F → PermutationChallenges F → Option F
  quotient_identity_range_check linear_evaluations index a b c d z challenges = do
    x ← get_elem? linear_evaluations index
    let beta = challenges.beta
    let gamma = challenges.gamma
    some (
        (a ⊕ beta ⊗ x ⊕ gamma)
        ⊗ (b ⊕ beta ⊗ k_1 ⊗ x ⊕ gamma)
        ⊗ (c ⊕ beta ⊗ k_2 ⊗ x ⊕ gamma)
        ⊗ (d ⊕ beta ⊗ k_3 ⊗ x ⊕ gamma)
        ⊗ z
        ⊗ challenges.alpha)

  unfoldable pub quotient_copy_range_check :
      PermutationKey (List F) → ℕ → F → F → F → F → F → PermutationChallenges F → Option F
  quotient_copy_range_check key index a b c d z_w challenges = do
    s_sigma_1_eval ← get_elem? key.s_sigma_1 index
    s_sigma_2_eval ← get_elem? key.s_sigma_2 index
    s_sigma_3_eval ← get_elem? key.s_sigma_3 index
    s_sigma_4_eval ← get_elem? key.s_sigma_4 index
    let beta = challenges.beta
    let gamma = challenges.gamma
    let product =
        (a ⊕ beta ⊗ s_sigma_1_eval ⊕ gamma)
        ⊗ (b ⊕ beta ⊗ s_sigma_2_eval ⊕ gamma)
        ⊗ (c ⊕ beta ⊗ s_sigma_3_eval ⊕ gamma)
        ⊗ (d ⊕ beta ⊗ s_sigma_4_eval ⊕ gamma)
        ⊗ z_w
        ⊗ challenges.alpha
    some (s.neg product)

  unfoldable pub quotient_term_check_one : F → F → F
  quotient_term_check_one z l1_alpha_sq = (z ⊖ s.one) ⊗ l1_alpha_sq

  unfoldable pub permutation_quotient :
      PermutationKey (List F)
      → List F
      → ℕ
      → F
      → F
      → F
      → F
      → F
      → F
      → F
      → PermutationChallenges F
      → Option F
  unfolding quotient_identity_range_check quotient_copy_range_check quotient_term_check_one
  permutation_quotient key linear_evaluations index a b c d z z_w l1_alpha_sq challenges = do
    t_a ← quotient_identity_range_check linear_evaluations index a b c d z challenges
    t_b ← quotient_copy_range_check key index a b c d z_w challenges
    let t_c = quotient_term_check_one z l1_alpha_sq
    some (t_a ⊕ t_b ⊕ t_c)

  unfoldable pub linearizer_identity_range_check :
      ProofEvaluations F → F → PermutationChallenges F → Polynomial F → Option (Polynomial F)
  linearizer_identity_range_check evaluations z_challenge challenges z_poly =
      let gamma = challenges.gamma in
      let beta_z = challenges.beta ⊗ z_challenge in
      let a_0 = evaluations.a_eval ⊕ beta_z ⊕ gamma in
      let beta_z_k1 = k_1 ⊗ beta_z in
      let a_1 = evaluations.b_eval ⊕ beta_z_k1 ⊕ gamma in
      let beta_z_k2 = k_2 ⊗ beta_z in
      let a_2 = evaluations.c_eval ⊕ beta_z_k2 ⊕ gamma in
      let beta_z_k3 = k_3 ⊗ beta_z in
      let a_3 = evaluations.d_eval ⊕ beta_z_k3 ⊕ gamma in
      mul_scalar z_poly (a_0 ⊗ a_1 ⊗ a_2 ⊗ a_3 ⊗ challenges.alpha)

  unfoldable pub linearizer_copy_range_check :
      ProofEvaluations F → PermutationChallenges F → Polynomial F → Option (Polynomial F)
  linearizer_copy_range_check evaluations challenges s_sigma_4_poly =
      let beta = challenges.beta in
      let gamma = challenges.gamma in
      let a_0 = evaluations.a_eval ⊕ beta ⊗ evaluations.s_sigma_1_eval ⊕ gamma in
      let a_1 = evaluations.b_eval ⊕ beta ⊗ evaluations.s_sigma_2_eval ⊕ gamma in
      let a_2 = evaluations.c_eval ⊕ beta ⊗ evaluations.s_sigma_3_eval ⊕ gamma in
      let beta_z_eval = beta ⊗ evaluations.z_eval in
      let a = a_0 ⊗ a_1 ⊗ a_2 ⊗ beta_z_eval ⊗ challenges.alpha in
      mul_scalar s_sigma_4_poly (s.neg a)

  module _ ⦃r : Roots F⦄ where
    unfoldable pub linearizer_check_is_one :
        EvaluationDomain F → F → F → Polynomial F → Option (Polynomial F)
    linearizer_check_is_one domain z_challenge alpha_sq z_coeffs = do
      coefficients ← evaluate_all_lagrange_coefficients domain z_challenge
      l_1_z ← get_elem? coefficients 0
      mul_scalar z_coeffs (l_1_z ⊗ alpha_sq)

    -- The subtraction below zero and the `unwrap` of the domain are panics.
    unfoldable pub permutation_linearization :
        PermutationKey (Polynomial F)
        → F
        → PermutationChallenges F
        → ProofEvaluations F
        → Polynomial F
        → Option (Polynomial F)
    unfolding linearizer_identity_range_check linearizer_copy_range_check linearizer_check_is_one
    permutation_linearization key z_challenge challenges evaluations z_poly = do
      a ← linearizer_identity_range_check evaluations z_challenge challenges z_poly
      b ← linearizer_copy_range_check evaluations challenges key.s_sigma_4
      domain ← (if ltb (degree z_poly) 2 then none else unwrap (new (degree z_poly - 2)))
      c ← linearizer_check_is_one domain z_challenge (square challenges.alpha) z_poly
      some (add (add a b) c)

  module _ {G : Type 0} where
    unfoldable pub permutation_commitment :
        PermutationKey G
        → ProofEvaluations F
        → F
        → F
        → PermutationChallenges F
        → F
        → G
        → Terms F G
        → Terms F G
    permutation_commitment key evaluations z_challenge u_challenge challenges l1_eval z_comm terms =
        let alpha = challenges.alpha in
        let beta = challenges.beta in
        let gamma = challenges.gamma in
        let alpha_sq = square alpha in
        let x =
          (evaluations.a_eval ⊕ beta ⊗ z_challenge ⊕ gamma)
          ⊗ (evaluations.b_eval ⊕ beta ⊗ k_1 ⊗ z_challenge ⊕ gamma)
          ⊗ (evaluations.c_eval ⊕ beta ⊗ k_2 ⊗ z_challenge ⊕ gamma)
          ⊗ ((evaluations.d_eval ⊕ beta ⊗ k_3 ⊗ z_challenge ⊕ gamma) ⊗ alpha) in
        let r = l1_eval ⊗ alpha_sq in
        let terms = push (x ⊕ r ⊕ u_challenge) z_comm terms in
        let y = s.neg (
          (evaluations.a_eval ⊕ beta ⊗ evaluations.s_sigma_1_eval ⊕ gamma)
          ⊗ (evaluations.b_eval ⊕ beta ⊗ evaluations.s_sigma_2_eval ⊕ gamma)
          ⊗ (evaluations.c_eval ⊕ beta ⊗ evaluations.s_sigma_3_eval ⊕ gamma)
          ⊗ (beta ⊗ evaluations.z_eval ⊗ alpha)) in
        push y key.s_sigma_4 terms
