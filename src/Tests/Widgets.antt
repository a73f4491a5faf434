-- ===== src/Tests/Widgets.antt =====
-- The theorems on the widgets, over the field with 17 elements.
use plonk.Prelude.{◌≡◌, ◌≢◌, ◌↔◌, refl, ap, true, false, some, List, [], ◌∷◌, arith}
use plonk.Scalar.{◌⊗◌}
use plonk.Widget.Quotient.{LogicKey, delta, delta_xor_and, range_quotient, logic_quotient}
use plonk.Widget.Range.{IsQuad, delta_iff, range_quotient_vanishes}
use plonk.Widget.Logic.{delta_xor_and_iff, logic_quotient_vanishes}
use plonk.Widget.CurveAddition.{IsSum, Vanishes, curve_addition_quotient_iff}
use plonk.Tests.Field.{Z17, z17, of_ℕ, Z17-ext}

delta_iff_example : (delta (of_ℕ 3) ≡ of_ℕ 0) ↔ IsQuad (of_ℕ 3)
delta_iff_example = delta_iff (of_ℕ 3)

-- The accumulators of the digits 2, 3, 1 and 0 after 0.
range_quotient_vanishes_example :
    range_quotient (of_ℕ 1 ∷ []) 0 (of_ℕ 5) (of_ℕ 45) (of_ℕ 11) (of_ℕ 2) (of_ℕ 0) (of_ℕ 180)
    ≡ some (of_ℕ 0)
range_quotient_vanishes_example =
    range_quotient_vanishes (of_ℕ 1 ∷ []) 0 (of_ℕ 1) (of_ℕ 5) (of_ℕ 45) (of_ℕ 11) (of_ℕ 2) (of_ℕ 0)
      (of_ℕ 180) refl (2, omega arith, Z17-ext _ _ refl) (3, omega arith, Z17-ext _ _ refl)
      (1, omega arith, Z17-ext _ _ refl) (0, omega arith, Z17-ext _ _ refl)

delta_xor_and_iff_example :
    (delta_xor_and (of_ℕ 3) (of_ℕ 2) (of_ℕ 6) (of_ℕ 1) (z17.neg (of_ℕ 1)) ≡ of_ℕ 0)
    ↔ (of_ℕ 1 ≡ of_ℕ 1)
delta_xor_and_iff_example =
    delta_xor_and_iff true 3 2 (of_ℕ 1) (λ e. absurd (omega (arith, ap (λ x. x.value) e)))
      (λ e. absurd (omega (arith, ap (λ x. x.value) e))) (omega arith) (omega arith)

abbrev and_key : LogicKey (List Z17)
and_key = record { q_c = of_ℕ 1 ∷ []; q_logic = of_ℕ 1 ∷ [] }

logic_quotient_vanishes_example :
    logic_quotient and_key 0
      (of_ℕ 5)
      (of_ℕ 1)
      (of_ℕ 7)
      (of_ℕ 2)
      (of_ℕ 10)
      (of_ℕ 6)
      (of_ℕ 0)
      (of_ℕ 2)
    ≡ some (of_ℕ 0)
logic_quotient_vanishes_example =
    logic_quotient_vanishes false and_key 0 3 2 (of_ℕ 1) (of_ℕ 5) (of_ℕ 1) (of_ℕ 7) (of_ℕ 2)
      (of_ℕ 10) (of_ℕ 0) (of_ℕ 2) refl refl (omega arith) (omega arith) (Z17-ext _ _ refl)
      (Z17-ext _ _ refl) (Z17-ext _ _ refl)

value_ne : (a b : Z17) → a.value ≢ b.value → a ≢ b
value_ne a b h e = h (ap (λ z. z.value) e)

pub challenges_nonzero : (of_ℕ 1 ≢ of_ℕ 0) × (of_ℕ 2 ≢ of_ℕ 0) × (of_ℕ 3 ≢ of_ℕ 0)
challenges_nonzero = (
  value_ne _ _ (λ e. omega arith),
  value_ne _ _ (λ e. omega arith),
  value_ne _ _ (λ e. omega arith),
)

pub challenges_distinct :
    (of_ℕ 1 ⊗ of_ℕ 1 ≢ of_ℕ 2 ⊗ of_ℕ 2)
    × (of_ℕ 1 ⊗ of_ℕ 1 ≢ of_ℕ 3 ⊗ of_ℕ 3)
    × (of_ℕ 2 ⊗ of_ℕ 2 ≢ of_ℕ 3 ⊗ of_ℕ 3)
challenges_distinct = (
  value_ne _ _ (λ e. omega arith),
  value_ne _ _ (λ e. omega arith),
  value_ne _ _ (λ e. omega arith),
)

-- The identity (0, 1) and the point (4, 0), with the coefficient 3.
curve_addition_quotient_iff_example :
    (Vanishes
        (of_ℕ 3)
        (of_ℕ 1 ∷ [])
        0
        (of_ℕ 4)
        (of_ℕ 0)
        (of_ℕ 0)
        (of_ℕ 1)
        (of_ℕ 4)
        (of_ℕ 0)
        (of_ℕ 4)
        (of_ℕ 1)
      × Vanishes
          (of_ℕ 3)
          (of_ℕ 1 ∷ [])
          0
          (of_ℕ 4)
          (of_ℕ 0)
          (of_ℕ 0)
          (of_ℕ 1)
          (of_ℕ 4)
          (of_ℕ 0)
          (of_ℕ 4)
          (of_ℕ 2)
      × Vanishes
          (of_ℕ 3)
          (of_ℕ 1 ∷ [])
          0
          (of_ℕ 4)
          (of_ℕ 0)
          (of_ℕ 0)
          (of_ℕ 1)
          (of_ℕ 4)
          (of_ℕ 0)
          (of_ℕ 4)
          (of_ℕ 3))
    ↔ ((of_ℕ 4 ≡ of_ℕ 4 ⊗ of_ℕ 1)
        × IsSum (of_ℕ 3) (of_ℕ 4) (of_ℕ 0) (of_ℕ 0) (of_ℕ 1) (of_ℕ 4) (of_ℕ 0))
curve_addition_quotient_iff_example =
    curve_addition_quotient_iff (of_ℕ 3) (of_ℕ 1 ∷ []) 0 (of_ℕ 1) (of_ℕ 4) (of_ℕ 0) (of_ℕ 0)
      (of_ℕ 1) (of_ℕ 4) (of_ℕ 0) (of_ℕ 4) (of_ℕ 1) (of_ℕ 2) (of_ℕ 3) refl challenges_nonzero.0
      challenges_nonzero challenges_distinct
