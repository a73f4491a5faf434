-- ===== src/Tests/Domain.antt =====
-- The theorems on domains, with the roots of unity of the field with 17 elements.
use plonk.Prelude.{
  ℕ, zero, suc, ◌^◌, ◌%◌, ◌≤◌, ◌<◌, ◌≡◌, ◌≢◌, ◌⊎◌, refl, ap, some, List, [], ◌∷◌, length, get_elem?,
  map, arith,
}
use plonk.Scalar.{◌⊖◌, ◌⊗◌}
use plonk.Scalar.Roots.{Roots}
use plonk.Error.{Error, ok, err}
use plonk.Inversion.{batch_inversion}
use plonk.Inversion.Inverses.{inverse_or_zero, batch_inversion_lem}
use plonk.Domain.{
  EvaluationDomain, new, next_power_of_two, least_log, trailing_zeros, squarings, elements, collect,
  evaluate_vanishing_polynomial, evaluate_all_lagrange_coefficients,
  compute_first_lagrange_evaluation,
}
use plonk.Domain.Creation.{LeastLog, IsDomain, new_lem}
use plonk.Domain.Iteration.{powers_from, elements_lem}
use plonk.Domain.Lagrange.{evaluate_all_lagrange_coefficients_lem}
use plonk.Tests.Field.{Z17, z17, of_ℕ, Z17-ext}

abbrev pub pow_17 : Z17 → ℕ → Z17
pow_17 a zero = of_ℕ 1
pow_17 a (suc n) = pow_17 a n ⊗ a

pub root_order : (k : ℕ) → pow_17 (of_ℕ 3) (2 ^ k) ≡ of_ℕ 1 → 4 ≤ k
root_order zero h = let e : 3 ≡ 1 = ap (λ x. x.value) h in absurd (omega (arith, e))
root_order (suc zero) h = let e : 9 ≡ 1 = ap (λ x. x.value) h in absurd (omega (arith, e))
root_order (suc (suc zero)) h = let e : 13 ≡ 1 = ap (λ x. x.value) h in absurd (omega (arith, e))
root_order (suc (suc (suc zero))) h =
    let e : 16 ≡ 1 = ap (λ x. x.value) h in absurd (omega (arith, e))
root_order (suc (suc (suc (suc k)))) h = omega arith

pub of_ℕ-ne-zero : (n : ℕ) → n % 17 ≢ 0 → of_ℕ n ≢ of_ℕ 0
of_ℕ-ne-zero n h e = h (ap (λ x. x.value) e)

instance abbrev pub roots_17 : Roots Z17
roots_17 = record {
  pow = pow_17;
  two_adacity = 4;
  root_of_unity = of_ℕ 3;
  generator = of_ℕ 3;
  pow-zero = λ a. refl;
  pow-suc = λ a n. refl;
  positive = omega arith;
  below = omega arith;
  root = Z17-ext _ _ refl;
  primitive = root_order;
  generator-ne-zero = of_ℕ-ne-zero 3 (λ e. omega (arith, e));
  two-ne-zero = of_ℕ-ne-zero 2 (λ e. omega (arith, e));
}

-- The domain of four elements, with the generator 13.
abbrev pub domain_4 : EvaluationDomain Z17
domain_4 = record {
  size = 4;
  log_size_of_group = 2;
  size_as_field_element = of_ℕ 4;
  size_inv = of_ℕ (4 ^ 15);
  group_gen = of_ℕ 9 ⊗ of_ℕ 9;
  group_gen_inv = of_ℕ (13 ^ 15);
  generator_inv = of_ℕ (3 ^ 15);
}

three-LeastLog : LeastLog 3 2
three-LeastLog = record { enough = omega arith; least = least }
  where
    least : (j : ℕ) → j < 2 → 2 ^ j < 3
    least zero h = omega arith
    least (suc zero) h = omega arith
    least (suc (suc j)) h = absurd (omega arith)

pub domain_4-IsDomain : IsDomain 3 domain_4
domain_4-IsDomain = record {
  size_lem = refl;
  least = three-LeastLog;
  size_as_field_element_lem = refl;
  size_inverse = Z17-ext _ _ refl;
  gen_inverse = Z17-ext _ _ refl;
  generator_inverse = Z17-ext _ _ refl;
  order = Z17-ext _ _ refl;
  primitive = primitive;
}
  where
    primitive : (j : ℕ) → j < 2 → pow_17 domain_4.group_gen (2 ^ j) ≢ of_ℕ 1
    primitive zero h e = let e' : 13 ≡ 1 = ap (λ x. x.value) e in omega (arith, e')
    primitive (suc zero) h e = let e' : 16 ≡ 1 = ap (λ x. x.value) e in omega (arith, e')
    primitive (suc (suc j)) h e = omega (arith, h)

new_lem_example :
    ((2 < 4)
      × (d : EvaluationDomain Z17) × (new 3 ≡ ok d)
      × (d.log_size_of_group ≡ 2)
      × IsDomain 3 d)
    ⊎ ((4 ≤ 2) × (new {F = Z17} 3 ≡ err (Error.invalid_eval_domain_size 2 4)))
new_lem_example = new_lem 3 2 (omega arith) three-LeastLog

elements_lem_example :
    (collect 5 (elements domain_4) ≡ some (powers_from domain_4.group_gen 0 4))
    × ((i : ℕ) → evaluate_vanishing_polynomial domain_4 (pow_17 domain_4.group_gen i) ≡ of_ℕ 0)
elements_lem_example = elements_lem 3 domain_4 domain_4-IsDomain

batch_inversion_lem_example :
    batch_inversion (of_ℕ 3 ∷ of_ℕ 0 ∷ of_ℕ 5 ∷ [])
    ≡ some (map inverse_or_zero (of_ℕ 3 ∷ of_ℕ 0 ∷ of_ℕ 5 ∷ []))
batch_inversion_lem_example = batch_inversion_lem (of_ℕ 3 ∷ of_ℕ 0 ∷ of_ℕ 5 ∷ [])

two_outside : pow_17 (of_ℕ 2) 4 ≢ of_ℕ 1
two_outside e = let e' : 16 ≡ 1 = ap (λ x. x.value) e in omega (arith, e')

evaluate_all_lagrange_coefficients_lem_example :
    (us : List Z17) × (evaluate_all_lagrange_coefficients domain_4 (of_ℕ 2) ≡ some us)
    × (length us ≡ 4)
    × ((i : ℕ)
        → i < 4
        → (u : Z17) × (get_elem? us i ≡ some u)
          × (u ⊗ (of_ℕ 2 ⊖ pow_17 domain_4.group_gen i)
              ≡ (pow_17 (of_ℕ 2) 4 ⊖ of_ℕ 1) ⊗ domain_4.size_inv ⊗ pow_17 domain_4.group_gen i))
    × (compute_first_lagrange_evaluation domain_4
          (evaluate_vanishing_polynomial domain_4 (of_ℕ 2))
          (of_ℕ 2)
        ≡ get_elem? us 0)
evaluate_all_lagrange_coefficients_lem_example =
    evaluate_all_lagrange_coefficients_lem 3 domain_4 (of_ℕ 2) domain_4-IsDomain two_outside

pub domain_4-new : new 3 ≡ ok domain_4
unfolding new next_power_of_two least_log trailing_zeros squarings
domain_4-new = refl
