-- ===== src/Tests/Verify.antt =====
-- The verifier on an honest proof, over the field with 17 elements.
use plonk.Prelude.{zero, ◌-◌, ◌≡◌, refl, sym, ap, ◌∙◌, some, [], ◌∷◌}
use plonk.Scalar.{◌⊕◌, ◌⊗◌}
use plonk.Error.{ok}
use plonk.Polynomial.{Polynomial, degree, evaluate, powers_of}
use plonk.Polynomial.Evaluate.{value_at, evaluate-value_at}
use plonk.Kzg.Key.{compute_aggregate_witness}
use plonk.Kzg.Commit.{opening_key_of}
use plonk.Inversion.Inverses.{inverse_or_zero}
use plonk.Domain.{evaluate_vanishing_polynomial, compute_first_lagrange_evaluation}
use plonk.Widget.Quotient.{
  square, arithmetic_quotient, range_quotient, logic_quotient, fixed_base_quotient,
  curve_addition_quotient, delta, delta_xor_and, check_bit_consistency, extract_bit,
}
use plonk.Widget.Agreement.{prover_key_at}
use plonk.Widget.Equation.{circuit_satisfiability_equation}
use plonk.Widget.Permutation.{permutation_quotient}
use plonk.Proving.{Parts, compute, compute_barycentric_eval}
use plonk.Proving.PublicInputs.{compute_barycentric_eval_lem}
use plonk.Proving.Remainder.{permutation_at}
use plonk.Proving.Value.{parts_value}
use plonk.Proving.Verify.{OpeningChallenges, verify}
use plonk.Proving.Honest.{Wires, OpenedAt}
use plonk.Proving.Accept.{permutation_commitments, honest_proof, verify_lem}
use plonk.Tests.Field.{Z17, z17, of_ℕ, Z17-ext}
use plonk.Tests.Kzg.{group_17, pairing_17}
use plonk.Tests.Domain.{roots_17, domain_4}
use plonk.Tests.Linearization.{
  key, evaluations, challenges, evaluations_at, verifier_key, key-Commits,
}
use plonk.Tests.Proving.{
  quintic, permutation, permutation_challenges, quintic_large, quintic-new, quintic-IsDomain,
  three_outside, evaluations-PermutedAt,
}

abbrev wires : Wires Z17
wires = record {
  a = of_ℕ 14 ∷ of_ℕ 13 ∷ [];
  b = of_ℕ 5 ∷ of_ℕ 5 ∷ [];
  c = of_ℕ 5 ∷ [];
  d = of_ℕ 16 ∷ of_ℕ 14 ∷ [];
  z = quintic;
}

abbrev opening : OpeningChallenges Z17
opening = record {
  z_challenge = of_ℕ 3;
  v_challenge = of_ℕ 5;
  v_w_challenge = of_ℕ 6;
  u_challenge = of_ℕ 8;
}

at_point : (p : Polynomial Z17) (x y : Z17) → (value_at p x).value ≡ y.value → y ≡ evaluate p x
at_point p x y h = sym (evaluate-value_at p x ∙ Z17-ext _ _ h)

wires-OpenedAt : OpenedAt (of_ℕ 3) domain_4.group_gen wires evaluations
wires-OpenedAt = record {
  a_lem = at_point wires.a (of_ℕ 3) (of_ℕ 2) refl;
  b_lem = at_point wires.b (of_ℕ 3) (of_ℕ 3) refl;
  c_lem = at_point wires.c (of_ℕ 3) (of_ℕ 5) refl;
  d_lem = at_point wires.d (of_ℕ 3) (of_ℕ 7) refl;
  a_w_lem = at_point wires.a (of_ℕ 3 ⊗ domain_4.group_gen) (of_ℕ 11) refl;
  b_w_lem = at_point wires.b (of_ℕ 3 ⊗ domain_4.group_gen) (of_ℕ 13) refl;
  d_w_lem = at_point wires.d (of_ℕ 3 ⊗ domain_4.group_gen) (of_ℕ 1) refl;
  z_lem = at_point wires.z (of_ℕ 3 ⊗ domain_4.group_gen) (of_ℕ 10) refl;
}

public_input_at_3 : compute_barycentric_eval (of_ℕ 1 ∷ []) (of_ℕ 3) domain_4 ≡ some (of_ℕ 10)
unfolding inverse_or_zero
public_input_at_3 =
    compute_barycentric_eval_lem (of_ℕ 1 ∷ []) (of_ℕ 3) domain_4 ∙ ap some (Z17-ext _ _ refl)

first_at_3 :
    compute_first_lagrange_evaluation domain_4
      (evaluate_vanishing_polynomial domain_4 (of_ℕ 3))
      (of_ℕ 3)
    ≡ some (of_ℕ 10)
unfolding compute_first_lagrange_evaluation evaluate_vanishing_polynomial
first_at_3 = ap some (Z17-ext _ _ refl)

circuit_at_3 :
    circuit_satisfiability_equation
      (of_ℕ 3)
      challenges
      (prover_key_at (of_ℕ 3) key)
      zero
      (of_ℕ 2)
      (of_ℕ 3)
      (of_ℕ 5)
      (of_ℕ 7)
      (of_ℕ 11)
      (of_ℕ 13)
      (of_ℕ 1)
      (of_ℕ 10)
    ≡ some (of_ℕ 1)
unfolding circuit_satisfiability_equation arithmetic_quotient range_quotient logic_quotient
    fixed_base_quotient curve_addition_quotient evaluate powers_of delta delta_xor_and
    check_bit_consistency extract_bit
circuit_at_3 = ap some (Z17-ext _ _ refl)

permutation_at_3 :
    permutation_quotient
      (permutation_at (of_ℕ 3) permutation)
      (of_ℕ 3 ∷ [])
      zero
      (of_ℕ 2)
      (of_ℕ 3)
      (of_ℕ 5)
      (of_ℕ 7)
      (evaluate quintic (of_ℕ 3))
      (of_ℕ 10)
      (of_ℕ 10 ⊗ square (of_ℕ 7))
      permutation_challenges
    ≡ some (of_ℕ 0)
unfolding permutation_quotient evaluate powers_of
permutation_at_3 = ap some (Z17-ext _ _ refl)

-- The first part has the value 10 at 3, and the second is zero there.
abbrev parts : Parts (Polynomial Z17)
parts = record {
  t_low = of_ℕ 1 ∷ of_ℕ 3 ∷ [];
  t_mid = of_ℕ 1 ∷ of_ℕ 2 ∷ of_ℕ 3 ∷ [];
  t_high = [];
  t_fourth = [];
}

identity_at_3 :
    of_ℕ 1 ⊕ of_ℕ 0
    ≡ evaluate_vanishing_polynomial domain_4 (of_ℕ 3) ⊗ parts_value domain_4 (of_ℕ 3) parts (of_ℕ 3)
unfolding evaluate_vanishing_polynomial evaluate powers_of
identity_at_3 = Z17-ext _ _ refl

verify_lem_example :
    (q : Polynomial Z17) × (w_z : Polynomial Z17) × (w_z_w : Polynomial Z17) × (compute
        (of_ℕ 3)
        key
        permutation
        permutation_challenges
        challenges
        (of_ℕ 3)
        quintic
        evaluations
        domain_4
        parts
        (of_ℕ 1 ∷ [])
      ≡ some q)
    × (compute_aggregate_witness
          (q ∷ wires.a ∷ wires.b ∷ wires.c ∷ wires.d ∷ permutation.s_sigma_1 ∷ permutation.s_sigma_2
            ∷ permutation.s_sigma_3 ∷ [])
          (of_ℕ 3)
          (of_ℕ 5)
        ≡ ok w_z)
    × (compute_aggregate_witness
          (quintic ∷ wires.a ∷ wires.b ∷ wires.d ∷ [])
          (of_ℕ 3 ⊗ domain_4.group_gen)
          (of_ℕ 6)
        ≡ ok w_z_w)
    × (verify Z17
          (of_ℕ 3)
          (honest_proof (of_ℕ 3) (of_ℕ 2) wires parts evaluations w_z w_z_w)
          verifier_key
          (permutation_commitments (of_ℕ 3) (of_ℕ 2) permutation)
          (degree quintic - 2)
          permutation_challenges
          challenges
          opening
          (opening_key_of (of_ℕ 3) (of_ℕ 2) (of_ℕ 7))
          (of_ℕ 1 ∷ [])
        ≡ ok tt)
verify_lem_example =
    verify_lem Z17 (of_ℕ 3) (of_ℕ 2) (of_ℕ 7) (of_ℕ 3) key verifier_key permutation
      permutation_challenges challenges opening wires parts evaluations domain_4 (of_ℕ 1 ∷ [])
      (of_ℕ 10) (of_ℕ 10) (of_ℕ 1) (of_ℕ 0) key-Commits quintic_large quintic-new quintic-IsDomain
      three_outside evaluations_at evaluations-PermutedAt wires-OpenedAt public_input_at_3
      first_at_3 circuit_at_3 permutation_at_3 identity_at_3
