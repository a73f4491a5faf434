-- ===== src/Tests/Gadgets.antt =====
-- The theorems on the composer, at a new composer over the field with 17 elements.
use plonk.Prelude.{ℕ, ◌<◌, ◌≤◌, ◌≡◌, ◌⊎◌, refl, some, length, lookup, get_elem?, take, arith}
use plonk.Scalar.{◌⊕◌, ◌⊖◌, ◌⊗◌}
use plonk.Error.{Outcome, ok, err, panic}
use plonk.Wires.{zero_witness, one_witness, identity_point}
use plonk.Constraint.{new, ◌▹◌, coeff}
use plonk.Constraint
use plonk.Composer.State.{
  Composer, uninitialized, ◌>>=◌, index, append_witness_internal, append_custom_gate_internal,
}
use plonk.Composer.Base.{
  initialized, append_witness, append_gate, append_dummy_gates, append_custom_gate,
  append_evaluated_output, gate_add, assert_equal, assert_equal_constant, append_public,
}
use plonk.Composer.Components.{
  component_boolean, component_select, component_select_point, component_select_identity,
  component_decomposition,
}
use plonk.Composer.Returns.{Returns, returns}
use plonk.Composer.Gadget.{IsValid, Agrees, Below, PointBelow, Gadget, Enforces, Forces, Produces}
use plonk.Composer.Append.{AppendsGate, append_custom_gate_lem}
use plonk.Composer.Output.{combination, Evaluated, append_evaluated_output_lem, gate_add_lem}
use plonk.Composer.Asserts.{
  assert_equal_lem, assert_equal_constant_lem, component_boolean_lem, append_public_lem,
}
use plonk.Composer.Select.{
  selected, component_select_lem, component_select_point_lem, component_select_identity_lem,
}
use plonk.Composer.Decomposition.{AllBelow, Booleans, weighted, component_decomposition_lem}
use plonk.Composer.Initialized.{initialized_lem}
use plonk.Permutation.{add_witness_to_map, add_witnesses_to_map}
use plonk.Scalar.Bits.{from_bits}
use plonk.Tests.Field.{Z17, z17, z17_bits, of_ℕ}

abbrev pub state_of : {A : Type 0} → Outcome (A × Composer Z17) → Composer Z17
state_of (ok (a, c)) = c
state_of (err e) = uninitialized
state_of panic = uninitialized

Returns-state :
    {A : Type 0} {P : Composer Z17 → Type 0} {o : Outcome (A × Composer Z17)}
    → Returns (λ _. P) o
    → P (state_of o)
Returns-state (returns a c q) = q

abbrev pub start : Composer Z17
start = state_of initialized

start_lem :
    Forces 4 (λ x. (x 0 ≡ of_ℕ 0) × (x 1 ≡ of_ℕ 1)) uninitialized start
    × (2 ≤ length start.witnesses)
start_lem = Returns-state initialized_lem

pub start-IsValid : IsValid start
start-IsValid = start_lem.0.gadget.valid

zero_below : 0 < length start.witnesses
zero_below = omega (arith, start_lem.1)

one_below : 1 < length start.witnesses
one_below = start_lem.1

initialized_lem_example :
    Returns
      (λ _ c.
        Forces 4 (λ x. (x 0 ≡ of_ℕ 0) × (x 1 ≡ of_ℕ 1)) uninitialized c × (2 ≤ length c.witnesses))
      (initialized {F = Z17})
initialized_lem_example = initialized_lem

component_select_lem_example :
    Returns
      (Produces Below 4 (λ w x. x w.index ≡ selected (x 1) (x 0) (x 1)) start)
      (component_select one_witness zero_witness one_witness start)
component_select_lem_example =
    component_select_lem one_witness zero_witness one_witness start start-IsValid one_below
      zero_below one_below

component_select_point_lem_example :
    Returns
      (Produces PointBelow 8
        (λ w x.
          (x w.x.index ≡ selected (x 1) (x 0) (x 0)) × (x w.y.index ≡ selected (x 1) (x 1) (x 1)))
        start)
      (component_select_point one_witness identity_point identity_point start)
component_select_point_lem_example =
    component_select_point_lem one_witness identity_point identity_point start start-IsValid
      one_below (zero_below, one_below) (zero_below, one_below)

component_select_identity_lem_example :
    Returns
      (Produces PointBelow 2
        (λ w x. (x w.x.index ≡ x 1 ⊗ x 0) × (x w.y.index ≡ of_ℕ 1 ⊖ x 1 ⊕ x 1 ⊗ x 1))
        start)
      (component_select_identity one_witness identity_point start)
component_select_identity_lem_example =
    component_select_identity_lem one_witness identity_point start start-IsValid one_below
      (zero_below, one_below)

component_boolean_lem_example :
    Returns
      (λ _. Enforces (λ x. (x 1 ≡ of_ℕ 0) ⊎ (x 1 ≡ of_ℕ 1)) start)
      (component_boolean one_witness start)
component_boolean_lem_example = component_boolean_lem one_witness start start-IsValid one_below

assert_equal_lem_example :
    Returns (λ _. Gadget 1 (λ x. x 0 ≡ x 1) start) (assert_equal zero_witness one_witness start)
assert_equal_lem_example =
    assert_equal_lem zero_witness one_witness start start-IsValid zero_below one_below

assert_equal_constant_lem_example :
    Returns
      (λ _ c'.
        Enforces (λ x. x 1 ≡ of_ℕ 3 ⊕ of_ℕ 5) start c'
        × (lookup (length start.constraints) c'.public_inputs ≡ some (of_ℕ 5)))
      (assert_equal_constant one_witness (of_ℕ 3) (some (of_ℕ 5)) start)
assert_equal_constant_lem_example =
    assert_equal_constant_lem one_witness (of_ℕ 3) (some (of_ℕ 5)) start start-IsValid one_below

append_public_lem_example :
    Returns
      (λ w c'.
        Produces Below 1 (λ w x. x w.index ≡ of_ℕ 9) start w c'
        × (lookup (length start.constraints) c'.public_inputs ≡ some (of_ℕ 9)))
      (append_public (of_ℕ 9) start)
append_public_lem_example = append_public_lem (of_ℕ 9) start start-IsValid

gate_add_lem_example :
    Returns
      (Produces Below 1
        (λ w x.
          x w.index ≡ combination (new ▹ Constraint.left (of_ℕ 2) ▹ Constraint.a one_witness) x)
        start)
      (gate_add (new ▹ Constraint.left (of_ℕ 2) ▹ Constraint.a one_witness) start)
gate_add_lem_example =
    gate_add_lem (new ▹ Constraint.left (of_ℕ 2) ▹ Constraint.a one_witness) start start-IsValid
      (one_below, zero_below, zero_below) refl

append_evaluated_output_lem_example :
    Returns
      (Evaluated
        (new ▹ Constraint.left (of_ℕ 2) ▹ Constraint.output (of_ℕ 3) ▹ Constraint.a one_witness)
        start)
      (append_evaluated_output
        (new ▹ Constraint.left (of_ℕ 2) ▹ Constraint.output (of_ℕ 3) ▹ Constraint.a one_witness)
        start)
append_evaluated_output_lem_example =
    append_evaluated_output_lem
      (new ▹ Constraint.left (of_ℕ 2) ▹ Constraint.output (of_ℕ 3) ▹ Constraint.a one_witness) start
      start-IsValid (one_below, zero_below, zero_below)

append_custom_gate_lem_example :
    Returns
      (λ _.
        AppendsGate
          (new ▹ Constraint.mult (of_ℕ 2) ▹ Constraint.public (of_ℕ 4) ▹ Constraint.a one_witness)
          start)
      (append_custom_gate
        (new ▹ Constraint.mult (of_ℕ 2) ▹ Constraint.public (of_ℕ 4) ▹ Constraint.a one_witness)
        start)
append_custom_gate_lem_example =
    append_custom_gate_lem
      (new ▹ Constraint.mult (of_ℕ 2) ▹ Constraint.public (of_ℕ 4) ▹ Constraint.a one_witness) start
      start-IsValid (one_below, zero_below, zero_below, zero_below)

pub one_value : get_elem? start.witnesses 1 ≡ some (of_ℕ 1)
unfolding initialized ◌>>=◌ append_witness append_witness_internal index assert_equal_constant
    append_gate append_custom_gate_internal add_witnesses_to_map add_witness_to_map
    append_dummy_gates
one_value = refl

pub zero_value : get_elem? start.witnesses 0 ≡ some (of_ℕ 0)
unfolding initialized ◌>>=◌ append_witness append_witness_internal index assert_equal_constant
    append_gate append_custom_gate_internal add_witnesses_to_map add_witness_to_map
    append_dummy_gates
zero_value = refl

component_decomposition_lem_example :
    Returns
      (λ ws c'.
        Gadget 7 (λ x. (length ws ≡ 3) × Booleans ws x × (x 1 ≡ weighted 0 ws x ⊕ x 0)) start c'
        × AllBelow ws (length c'.witnesses)
        × ((x : ℕ → Z17)
            → Agrees x c'
            → Booleans ws x
              × (weighted 0 ws x ≡ of_ℕ (from_bits (take 3 (z17_bits.to_bits (of_ℕ 1)))))))
      (component_decomposition 3 one_witness start)
component_decomposition_lem_example =
    component_decomposition_lem 3 one_witness (of_ℕ 1) start (omega arith) (omega arith)
      start-IsValid one_value
