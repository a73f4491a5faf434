-- ===== src/Tests/Linearization.antt =====
-- The theorems on the linearisation, over the field with 17 elements.
use plonk.Prelude.{◌≡◌, refl, sym, ap, ◌∙◌, zero, some, [], ◌∷◌}
use plonk.Scalar.{◌⊕◌, ◌⊗◌}
use plonk.Polynomial.{Polynomial, evaluate}
use plonk.Polynomial.Evaluate.{evaluate-value_at}
use plonk.Widget.Linearization.{
  ProofEvaluations, ProverKey, Challenges, compute_circuit_satisfiability,
}
use plonk.Widget.Agreement.{EvaluatedAt, prover_key_at}
use plonk.Widget.Equation.{circuit_satisfiability_equation, compute_circuit_satisfiability_lem}
use plonk.Widget.Commitment.{VerifierKey}
use plonk.Widget.Verifier.{Commits}
use plonk.Tests.Field.{Z17, z17, of_ℕ, Z17-ext}
use plonk.Tests.Kzg.{group_17}

abbrev pub linear : Polynomial Z17
linear = of_ℕ 4 ∷ of_ℕ 9 ∷ []

abbrev pub quadratic : Polynomial Z17
quadratic = of_ℕ 1 ∷ of_ℕ 2 ∷ of_ℕ 3 ∷ []

abbrev pub key : ProverKey (Polynomial Z17)
key = record {
  arithmetic = record {
    q_m = linear;
    q_l = quadratic;
    q_r = linear;
    q_o = quadratic;
    q_f = linear;
    q_c = quadratic;
    q_arith = linear;
  };
  q_range = quadratic;
  logic = record { q_c = quadratic; q_logic = linear };
  fixed_base = record {
    q_l = quadratic;
    q_r = linear;
    q_c = quadratic;
    q_fixed_group_add = linear;
  };
  q_variable_group_add = quadratic;
}

-- `linear` is 14 and `quadratic` is 0 at the point 3.
abbrev pub evaluations : ProofEvaluations Z17
evaluations = record {
  a_eval = of_ℕ 2;
  b_eval = of_ℕ 3;
  c_eval = of_ℕ 5;
  d_eval = of_ℕ 7;
  a_w_eval = of_ℕ 11;
  b_w_eval = of_ℕ 13;
  d_w_eval = of_ℕ 1;
  q_arith_eval = of_ℕ 14;
  q_c_eval = of_ℕ 0;
  q_l_eval = of_ℕ 0;
  q_r_eval = of_ℕ 14;
  s_sigma_1_eval = of_ℕ 6;
  s_sigma_2_eval = of_ℕ 8;
  s_sigma_3_eval = of_ℕ 9;
  z_eval = of_ℕ 10;
}

abbrev pub challenges : Challenges Z17
challenges = record {
  range_separation_challenge = of_ℕ 2;
  logic_separation_challenge = of_ℕ 3;
  fixed_base_separation_challenge = of_ℕ 4;
  var_base_separation_challenge = of_ℕ 5;
}

pub linear_at_3 : of_ℕ 14 ≡ evaluate linear (of_ℕ 3)
linear_at_3 = sym (evaluate-value_at linear (of_ℕ 3) ∙ Z17-ext _ _ refl)

pub quadratic_at_3 : of_ℕ 0 ≡ evaluate quadratic (of_ℕ 3)
quadratic_at_3 = sym (evaluate-value_at quadratic (of_ℕ 3) ∙ Z17-ext _ _ refl)

pub commit_linear : of_ℕ 11 ≡ of_ℕ 2 ⊗ evaluate linear (of_ℕ 3)
commit_linear = Z17-ext _ _ refl ∙ ap (λ y. of_ℕ 2 ⊗ y) linear_at_3

pub commit_quadratic : of_ℕ 0 ≡ of_ℕ 2 ⊗ evaluate quadratic (of_ℕ 3)
commit_quadratic = Z17-ext _ _ refl ∙ ap (λ y. of_ℕ 2 ⊗ y) quadratic_at_3

pub evaluations_at : EvaluatedAt (of_ℕ 3) key evaluations
evaluations_at = record {
  q_arith_lem = linear_at_3;
  logic_q_c_lem = quadratic_at_3;
  q_c_lem = quadratic_at_3;
  q_l_lem = quadratic_at_3;
  q_r_lem = linear_at_3;
}

compute_circuit_satisfiability_lem_example :
    (q : Polynomial Z17) × (compute_circuit_satisfiability (of_ℕ 3) challenges evaluations key
      ≡ some q)
    × (circuit_satisfiability_equation
          (of_ℕ 3)
          challenges
          (prover_key_at (of_ℕ 3) key)
          zero
          (of_ℕ 2)
          (of_ℕ 3)
          (of_ℕ 5)
          (of_ℕ 7)
          (of_ℕ 11)
          (of_ℕ 13)
          (of_ℕ 1)
          (of_ℕ 6)
        ≡ some (evaluate q (of_ℕ 3) ⊕ of_ℕ 6))
compute_circuit_satisfiability_lem_example =
    compute_circuit_satisfiability_lem (of_ℕ 3) challenges evaluations key (of_ℕ 3) (of_ℕ 6)
      evaluations_at

-- The commitments with the generator 2.
abbrev pub verifier_key : VerifierKey Z17
verifier_key = record {
  arithmetic = record {
    q_m = of_ℕ 11;
    q_l = of_ℕ 0;
    q_r = of_ℕ 11;
    q_o = of_ℕ 0;
    q_f = of_ℕ 11;
    q_c = of_ℕ 0;
    q_arith = of_ℕ 11;
  };
  q_range = of_ℕ 0;
  q_logic = of_ℕ 11;
  q_fixed_group_add = of_ℕ 11;
  q_variable_group_add = of_ℕ 0;
}

pub key-Commits : Commits (of_ℕ 3) (of_ℕ 2) key verifier_key
key-Commits = record {
  q_m_lem = commit_linear;
  q_l_lem = commit_quadratic;
  q_r_lem = commit_linear;
  q_o_lem = commit_quadratic;
  q_f_lem = commit_linear;
  q_c_lem = commit_quadratic;
  q_range_lem = commit_quadratic;
  q_logic_lem = commit_linear;
  q_fixed_lem = commit_linear;
  q_variable_lem = commit_quadratic;
}
