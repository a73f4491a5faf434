-- ===== src/Composer/Components.antt =====
-- The methods of the composer that select between values, test a bit or take a scalar apart.
use plonk.Prelude.{ℕ, zero, suc, ◌+◌, ◌&&◌, some, List, [], ◌∷◌, ltb, leb, if◌then◌else◌}
use plonk.Scalar.{Scalar, ◌⊕◌, ◌⊗◌, ◌⊖◌}
use plonk.Error.{panic}
use plonk.JubJub.{JubJub}
use plonk.Scalar.Bits.{ScalarBits}
use plonk.Wires.{Witness, WitnessPoint, zero_witness}
use plonk.Constraint.{new, ◌▹◌}
use plonk.Constraint
use plonk.Composer.State.{M, ◌>>=◌, ◌>>◌, ret, index}
use plonk.Composer.Base.{
  minus_one, append_witness, append_gate, gate_add, gate_mul, assert_equal, assert_equal_constant,
  append_constant,
}

module _ {F : Type 0} ⦃s : Scalar F⦄ where
  unfoldable pub component_boolean : Witness → M F (Unit {0})
  component_boolean a = append_gate (
      new
      ▹ Constraint.mult (s.from 1)
      ▹ Constraint.output minus_one
      ▹ Constraint.a a
      ▹ Constraint.b a
      ▹ Constraint.c a
      ▹ Constraint.d zero_witness)

  unfoldable pub component_select : Witness → Witness → Witness → M F Witness
  component_select bit a b = do
    bit_times_a ← gate_mul (new ▹ Constraint.mult (s.from 1) ▹ Constraint.a bit ▹ Constraint.b a)
    one_min_bit ←
        gate_add
          (new ▹ Constraint.left minus_one ▹ Constraint.constant (s.from 1) ▹ Constraint.a bit)
    one_min_bit_b ←
        gate_mul (new ▹ Constraint.mult (s.from 1) ▹ Constraint.a one_min_bit ▹ Constraint.b b)
    gate_add (
        new
        ▹ Constraint.left (s.from 1)
        ▹ Constraint.right (s.from 1)
        ▹ Constraint.a one_min_bit_b
        ▹ Constraint.b bit_times_a)

  unfoldable pub component_select_one : Witness → Witness → M F Witness
  component_select_one bit value = do
    b ← index bit
    v ← index value
    f_x ← append_witness (s.one ⊖ b ⊕ b ⊗ v)
    append_gate (
        new
        ▹ Constraint.mult (s.from 1)
        ▹ Constraint.left minus_one
        ▹ Constraint.output minus_one
        ▹ Constraint.constant (s.from 1)
        ▹ Constraint.a bit
        ▹ Constraint.b value
        ▹ Constraint.c f_x)
    ret f_x

  unfoldable pub component_select_zero : Witness → Witness → M F Witness
  component_select_zero bit value =
      gate_mul (new ▹ Constraint.mult (s.from 1) ▹ Constraint.a bit ▹ Constraint.b value)

  unfoldable pub component_select_point : Witness → WitnessPoint → WitnessPoint → M F WitnessPoint
  component_select_point bit a b = do
    x ← component_select bit a.x b.x
    y ← component_select bit a.y b.y
    ret (record { x = x; y = y })

  unfoldable pub component_select_identity : Witness → WitnessPoint → M F WitnessPoint
  component_select_identity bit a = do
    x ← component_select_zero bit a.x
    y ← component_select_one bit a.y
    ret (record { x = x; y = y })

  unfoldable pub assert_equal_point : WitnessPoint → WitnessPoint → M F (Unit {0})
  assert_equal_point a b = do assert_equal a.x b.x; assert_equal a.y b.y

  module _ {P : Type 0} ⦃j : JubJub F P⦄ where
    unfoldable pub append_point : P → M F WitnessPoint
    append_point affine = do
      x ← append_witness (j.get_u affine)
      y ← append_witness (j.get_v affine)
      ret (record { x = x; y = y })

    unfoldable pub append_constant_point : P → M F WitnessPoint
    append_constant_point affine = do
      x ← append_constant (j.get_u affine)
      y ← append_constant (j.get_v affine)
      ret (record { x = x; y = y })

    unfoldable pub append_public_point : P → M F WitnessPoint
    append_public_point affine = do
      point ← append_point affine
      assert_equal_constant point.x s.zero (some (j.get_u affine))
      assert_equal_constant point.y s.zero (some (j.get_v affine))
      ret point

    unfoldable pub assert_equal_public_point : WitnessPoint → P → M F (Unit {0})
    assert_equal_public_point point public = do
      assert_equal_constant point.x s.zero (some (j.get_u public))
      assert_equal_constant point.y s.zero (some (j.get_v public))

  module _ ⦃bits : ScalarBits F⦄ where
    -- The fold over the bits, zipped with the `n` places of the result.
    unfoldable pub decompose : ℕ → ℕ → List ℕ → Witness → M F (List Witness × Witness)
    decompose zero i bs acc = ret ([], acc)
    decompose (suc n) i [] acc = ret ([], acc)
    decompose (suc n) i (bit ∷ bs) acc = do
      w_bit ← append_witness (s.from bit)
      component_boolean w_bit
      acc' ← gate_add (
          new
          ▹ Constraint.left (bits.pow_of_2 i)
          ▹ Constraint.right (s.from 1)
          ▹ Constraint.a w_bit
          ▹ Constraint.b acc)
      r ← decompose n (i + 1) bs acc'
      ret (w_bit ∷ r.0, r.1)

    unfoldable pub component_decomposition : ℕ → Witness → M F (List Witness)
    unfolding decompose
    component_decomposition n scalar = do
      _ ← if ltb 0 n && leb n 256 then ret tt else λ c. panic
      v ← index scalar
      r ← decompose n 0 (bits.to_bits v) zero_witness
      assert_equal r.1 scalar
      ret r.0
