-- ===== src/Tests/Proving.antt =====
-- The theorems on the linearisation polynomial, over the field with 17 elements.
use plonk.Prelude.{zero, ◌-◌, ltb, ◌≡◌, ◌≢◌, refl, sym, ap, ◌∙◌, false, some, [], ◌∷◌, arith}
use plonk.Scalar.{◌⊕◌, ◌⊖◌, ◌⊗◌}
use plonk.Error.{ok}
use plonk.Polynomial.{Polynomial, degree, evaluate}
use plonk.Polynomial.Evaluate.{evaluate-value_at}
use plonk.Domain.{new, evaluate_vanishing_polynomial, compute_first_lagrange_evaluation}
use plonk.Domain.Creation.{IsDomain}
use plonk.Widget.Quotient.{square}
use plonk.Widget.Agreement.{prover_key_at}
use plonk.Widget.Equation.{circuit_satisfiability_equation}
use plonk.Widget.Permutation.{PermutationKey, PermutationChallenges, permutation_quotient}
use plonk.Proving.{
  Parts, compute, compute_barycentric_eval, r_0_eval, compute_linearization_commitment,
}
use plonk.Proving.Remainder.{PermutedAt, permutation_at}
use plonk.Proving.Value.{parts_value, compute_lem}
use plonk.Proving.Commitments.{CommitsAll, compute_linearization_commitment-compute}
use plonk.Tests.Field.{Z17, z17, of_ℕ, Z17-ext}
use plonk.Tests.Kzg.{group_17}
use plonk.Tests.Domain.{roots_17, pow_17, domain_4, domain_4-new, domain_4-IsDomain}
use plonk.Tests.Linearization.{
  linear, quadratic, key, evaluations, challenges, evaluations_at, verifier_key, key-Commits,
  commit_linear, commit_quadratic,
}

-- 3 + 2 X + X^5, with the value 14 at 3 and 10 at 5.
abbrev pub quintic : Polynomial Z17
quintic = of_ℕ 3 ∷ of_ℕ 2 ∷ of_ℕ 0 ∷ of_ℕ 0 ∷ of_ℕ 0 ∷ of_ℕ 1 ∷ []

abbrev pub permutation : PermutationKey (Polynomial Z17)
permutation = record {
  s_sigma_1 = of_ℕ 3 ∷ of_ℕ 1 ∷ [];
  s_sigma_2 = of_ℕ 5 ∷ of_ℕ 1 ∷ [];
  s_sigma_3 = of_ℕ 6 ∷ of_ℕ 1 ∷ [];
  s_sigma_4 = linear;
}

abbrev pub permutation_challenges : PermutationChallenges Z17
permutation_challenges = record { alpha = of_ℕ 7; beta = of_ℕ 2; gamma = of_ℕ 9 }

abbrev parts : Parts (Polynomial Z17)
parts = record { t_low = linear; t_mid = quadratic; t_high = linear; t_fourth = quadratic }

pub quintic_large : ltb (degree quintic) 2 ≡ false
unfolding degree
quintic_large = refl

pub quintic-new : new (degree quintic - 2) ≡ ok domain_4
unfolding degree
quintic-new = domain_4-new

pub quintic-IsDomain : IsDomain (degree quintic - 2) domain_4
unfolding degree
quintic-IsDomain = domain_4-IsDomain

pub three_outside : pow_17 (of_ℕ 3) 4 ≢ of_ℕ 1
three_outside e = let e' : 13 ≡ 1 = ap (λ x. x.value) e in omega (arith, e')

pub evaluations-PermutedAt : PermutedAt (of_ℕ 3) permutation evaluations
evaluations-PermutedAt = record {
  sigma_1_lem = sym (evaluate-value_at permutation.s_sigma_1 (of_ℕ 3) ∙ Z17-ext _ _ refl);
  sigma_2_lem = sym (evaluate-value_at permutation.s_sigma_2 (of_ℕ 3) ∙ Z17-ext _ _ refl);
  sigma_3_lem = sym (evaluate-value_at permutation.s_sigma_3 (of_ℕ 3) ∙ Z17-ext _ _ refl);
}

compute_lem_example :
    (q : Polynomial Z17) × (pi : Z17) × (l1 : Z17) × (t_1 : Z17) × (t_2 : Z17) × (compute
        (of_ℕ 3)
        key
        permutation
        permutation_challenges
        challenges
        (of_ℕ 3)
        quintic
        evaluations
        domain_4
        parts
        (of_ℕ 0 ∷ of_ℕ 6 ∷ [])
      ≡ some q)
    × (compute_barycentric_eval (of_ℕ 0 ∷ of_ℕ 6 ∷ []) (of_ℕ 3) domain_4 ≡ some pi)
    × (compute_first_lagrange_evaluation domain_4
          (evaluate_vanishing_polynomial domain_4 (of_ℕ 3))
          (of_ℕ 3)
        ≡ some l1)
    × (circuit_satisfiability_equation
          (of_ℕ 3)
          challenges
          (prover_key_at (of_ℕ 3) key)
          zero
          (of_ℕ 2)
          (of_ℕ 3)
          (of_ℕ 5)
          (of_ℕ 7)
          (of_ℕ 11)
          (of_ℕ 13)
          (of_ℕ 1)
          pi
        ≡ some t_1)
    × (permutation_quotient
          (permutation_at (of_ℕ 3) permutation)
          (of_ℕ 3 ∷ [])
          zero
          (of_ℕ 2)
          (of_ℕ 3)
          (of_ℕ 5)
          (of_ℕ 7)
          (evaluate quintic (of_ℕ 3))
          (of_ℕ 10)
          (l1 ⊗ square (of_ℕ 7))
          permutation_challenges
        ≡ some t_2)
    × (evaluate q (of_ℕ 3)
          ⊕ evaluate_vanishing_polynomial domain_4 (of_ℕ 3)
            ⊗ parts_value domain_4 (of_ℕ 3) parts (of_ℕ 3)
        ≡ t_1 ⊕ t_2 ⊖ r_0_eval (of_ℕ 0) l1 permutation_challenges evaluations)
compute_lem_example =
    compute_lem (of_ℕ 3) key permutation permutation_challenges challenges (of_ℕ 3) quintic
      evaluations domain_4 parts (of_ℕ 0 ∷ of_ℕ 6 ∷ []) quintic_large quintic-new quintic-IsDomain
      three_outside evaluations_at evaluations-PermutedAt

abbrev permutation_commitments : PermutationKey Z17
permutation_commitments = record {
  s_sigma_1 = of_ℕ 12;
  s_sigma_2 = of_ℕ 16;
  s_sigma_3 = of_ℕ 1;
  s_sigma_4 = of_ℕ 11;
}

abbrev part_commitments : Parts Z17
part_commitments = record { t_low = of_ℕ 11; t_mid = of_ℕ 0; t_high = of_ℕ 11; t_fourth = of_ℕ 0 }

all-CommitsAll :
    CommitsAll
      (of_ℕ 3)
      (of_ℕ 2)
      permutation
      permutation_commitments
      quintic
      (of_ℕ 11)
      parts
      part_commitments
all-CommitsAll = record {
  s_sigma_4_lem = commit_linear;
  z_lem =
      Z17-ext _ _ refl
      ∙ ap (λ y. of_ℕ 2 ⊗ y) {x = of_ℕ 14}
          (sym (evaluate-value_at quintic (of_ℕ 3) ∙ Z17-ext _ _ refl));
  t_low_lem = commit_linear;
  t_mid_lem = commit_quadratic;
  t_high_lem = commit_linear;
  t_fourth_lem = commit_quadratic;
}

five_outside : pow_17 (of_ℕ 5) 4 ≢ of_ℕ 1
five_outside e = let e' : 13 ≡ 1 = ap (λ x. x.value) e in omega (arith, e')

first_at_5 :
    compute_first_lagrange_evaluation domain_4
      (evaluate_vanishing_polynomial domain_4 (of_ℕ 5))
      (of_ℕ 5)
    ≡ some (of_ℕ 5)
unfolding compute_first_lagrange_evaluation evaluate_vanishing_polynomial
first_at_5 = ap some (Z17-ext _ _ refl)

compute_linearization_commitment-compute_example :
    (q : Polynomial Z17) × (pi : Z17) × (compute
        (of_ℕ 3)
        key
        permutation
        permutation_challenges
        challenges
        (of_ℕ 5)
        quintic
        evaluations
        domain_4
        parts
        (of_ℕ 4 ∷ [])
      ≡ some q)
    × (compute_barycentric_eval (of_ℕ 4 ∷ []) (of_ℕ 5) domain_4 ≡ some pi)
    × (compute_linearization_commitment
          (of_ℕ 3)
          verifier_key
          permutation_commitments
          permutation_challenges
          challenges
          (of_ℕ 5)
          (of_ℕ 8)
          (of_ℕ 5)
          (of_ℕ 11)
          part_commitments
          evaluations
          domain_4
        ≡ of_ℕ 2 ⊗ (evaluate q (of_ℕ 3) ⊖ pi ⊕ of_ℕ 8 ⊗ evaluate quintic (of_ℕ 3)))
compute_linearization_commitment-compute_example =
    compute_linearization_commitment-compute (of_ℕ 3) (of_ℕ 2) (of_ℕ 3) key verifier_key permutation
      permutation_commitments permutation_challenges challenges (of_ℕ 5) (of_ℕ 8) (of_ℕ 5) quintic
      (of_ℕ 11) evaluations domain_4 parts part_commitments (of_ℕ 4 ∷ []) key-Commits all-CommitsAll
      quintic_large quintic-new quintic-IsDomain five_outside first_at_5
