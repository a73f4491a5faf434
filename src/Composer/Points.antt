-- ===== src/Composer/Points.antt =====
-- The methods of the composer on points of the embedded curve, with the gate of the curve
-- addition widget.
use plonk.Prelude.{List, [], ◌∷◌, reverse}
use plonk.Scalar.{Scalar, ◌⊗◌}
use plonk.Scalar.Bits.{ScalarBits}
use plonk.JubJub.{JubJub}
use plonk.Wires.{Witness, WitnessPoint, identity_point}
use plonk.Constraint.{new, ◌▹◌}
use plonk.Constraint
use plonk.Composer.State.{M, ◌>>=◌, ◌>>◌, ret, index}
use plonk.Composer.Base.{append_witness, append_custom_gate}
use plonk.Composer.Components.{component_decomposition, component_select_identity}

module _ {F : Type 0} (P : Type 0) ⦃s : Scalar F⦄ ⦃j : JubJub F P⦄ where
  unfoldable pub component_add_point : WitnessPoint → WitnessPoint → M F WitnessPoint
  component_add_point a b = do
    let x_1 = a.x
    let y_1 = a.y
    let x_2 = b.x
    let y_2 = b.y
    u_1 ← index x_1
    v_1 ← index y_1
    let p1 = j.from_raw_unchecked u_1 v_1
    u_2 ← index x_2
    v_2 ← index y_2
    let p2 = j.from_raw_unchecked u_2 v_2
    let point = j.add p1 p2
    let x_3 = j.get_u point
    let y_3 = j.get_v point
    let x1_y2 = u_1 ⊗ v_2
    x_1_y_2 ← append_witness x1_y2
    x_3 ← append_witness x_3
    y_3 ← append_witness y_3
    append_custom_gate (
        Constraint.group_add_variable_base
          (new ▹ Constraint.a x_1 ▹ Constraint.b y_1 ▹ Constraint.c x_2 ▹ Constraint.d y_2))
    append_custom_gate (new ▹ Constraint.a x_3 ▹ Constraint.b y_3 ▹ Constraint.d x_1_y_2)
    ret (record { x = x_3; y = y_3 })

  -- One round for each bit: double, then add the point or the identity.
  unfoldable pub mul_loop : WitnessPoint → List Witness → WitnessPoint → M F WitnessPoint
  mul_loop point [] result = ret result
  mul_loop point (bit ∷ bs) result = do
    result ← component_add_point result result
    point_to_add ← component_select_identity bit point
    result ← component_add_point result point_to_add
    mul_loop point bs result

  module _ ⦃bits : ScalarBits F⦄ where
    unfoldable pub component_mul_point : Witness → WitnessPoint → M F WitnessPoint
    component_mul_point jubjub point = do
      scalar_bits ← component_decomposition 252 jubjub
      mul_loop point (reverse scalar_bits) identity_point
