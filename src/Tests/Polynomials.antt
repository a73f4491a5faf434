-- ===== src/Tests/Polynomials.antt =====
-- The theorems on polynomials, at polynomials over the field with 17 elements.
use plonk.Prelude.{◌≡◌, refl, some, [], ◌∷◌}
use plonk.Scalar.{◌⊕◌, ◌⊖◌, ◌⊗◌}
use plonk.Polynomial.{
  Polynomial, from_coefficients_vec, evaluate, add, add_assign_scaled, ruffini, add,
}
use plonk.Polynomial.Evaluate.{value_at, evaluate-value_at}
use plonk.Polynomial.Ruffini.{ruffini-evaluate}
use plonk.Polynomial.Sums.{add-evaluate, add_assign_scaled-evaluate}
use plonk.Tests.Field.{Z17, z17, of_ℕ}

-- 1 + 2 X + 3 X^2
abbrev quadratic : Polynomial Z17
quadratic = of_ℕ 1 ∷ of_ℕ 2 ∷ of_ℕ 3 ∷ []

-- 5 + 14 X^2, with a zero on top.
abbrev padded : Polynomial Z17
padded = of_ℕ 5 ∷ of_ℕ 0 ∷ of_ℕ 14 ∷ of_ℕ 0 ∷ []

evaluate-value_at_example : evaluate quadratic (of_ℕ 4) ≡ value_at quadratic (of_ℕ 4)
evaluate-value_at_example = evaluate-value_at quadratic (of_ℕ 4)

-- 3 X^2 + 2 X + 1 = (X - 2) * (3 X + 8) + 17
ruffini-quadratic : ruffini quadratic (of_ℕ 2) ≡ some (of_ℕ 8 ∷ of_ℕ 3 ∷ [])
unfolding ruffini from_coefficients_vec
ruffini-quadratic = refl

ruffini-evaluate_example :
    (q : Polynomial Z17) × (ruffini quadratic (of_ℕ 2) ≡ some q)
    × ((x : Z17) → evaluate quadratic x ≡ (x ⊖ of_ℕ 2) ⊗ evaluate q x ⊕ evaluate quadratic (of_ℕ 2))
ruffini-evaluate_example = ruffini-evaluate quadratic (of_ℕ 2)

add-evaluate_example :
    evaluate (add quadratic padded) (of_ℕ 3)
    ≡ evaluate quadratic (of_ℕ 3) ⊕ evaluate padded (of_ℕ 3)
add-evaluate_example = add-evaluate quadratic padded (of_ℕ 3)

add_assign_scaled-evaluate_example :
    evaluate (add_assign_scaled quadratic (of_ℕ 7) padded) (of_ℕ 3)
    ≡ evaluate quadratic (of_ℕ 3) ⊕ of_ℕ 7 ⊗ evaluate padded (of_ℕ 3)
add_assign_scaled-evaluate_example = add_assign_scaled-evaluate quadratic (of_ℕ 7) padded (of_ℕ 3)
