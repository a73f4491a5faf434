-- ===== src/Composer/Base.antt =====
-- The methods of the composer that append a witness or a few arithmetic gates.
use plonk.Prelude.{Option, none, some, if◌then◌else◌}
use plonk.Scalar.{Scalar, ◌⊕◌, ◌⊗◌}
use plonk.Error.{Outcome, ok, panic}
use plonk.Wires.{Witness, Selector, WiredWitness}
use plonk.Constraint.{Constraint, coeff, witness, new, ◌▹◌}
use plonk.Constraint
use plonk.Composer.State.{
  Composer, M, ◌>>=◌, ◌>>◌, ret, index, uninitialized, append_witness_internal,
  append_custom_gate_internal,
}

module _ {F : Type 0} ⦃s : Scalar F⦄ where
  abbrev pub minus_one : F
  minus_one = s.neg s.one

  -- The runtime's event for the new witness reads it back.
  unfoldable pub append_witness : F → M F Witness
  append_witness v = do w ← append_witness_internal v; _ ← index w; ret w

  unfoldable pub append_custom_gate : Constraint F → M F (Unit {0})
  append_custom_gate k = append_custom_gate_internal k

  unfoldable pub append_gate : Constraint F → M F (Unit {0})
  unfolding append_custom_gate
  append_gate k = append_custom_gate (Constraint.arithmetic k)

  -- The value that the output wire must have; `none` where the output selector is zero.
  unfoldable pub evaluated_output : F → F → Option F
  evaluated_output x y =
      if s.beq y s.one
      then some (s.neg x)
      else if s.beq y minus_one
      then some x
      else elim (s.invert y) [ none ↦ none | some y ↦ some (x ⊗ s.neg y) ]

  unfoldable pub append_output : Option F → M F (Option Witness)
  append_output none = ret none
  append_output (some v) = do w ← append_witness v; ret (some w)

  unfoldable pub append_evaluated_output : Constraint F → M F (Option Witness)
  append_evaluated_output k = do
    a ← index (witness k WiredWitness.a)
    b ← index (witness k WiredWitness.b)
    d ← index (witness k WiredWitness.d)
    let qm = coeff k Selector.multiplication
    let ql = coeff k Selector.left
    let qr = coeff k Selector.right
    let qf = coeff k Selector.fourth
    let qc = coeff k Selector.constant
    let pi = coeff k Selector.public_input
    let x = qm ⊗ a ⊗ b ⊕ ql ⊗ a ⊕ qr ⊗ b ⊕ qf ⊗ d ⊕ qc ⊕ pi
    let y = coeff k Selector.output
    append_output (evaluated_output x y)

  -- `.expect("output selector is -1")`
  abbrev pub expect : {A : Type 0} → Option A → M F A
  expect none c = panic
  expect (some a) c = ok (a, c)

  unfoldable pub gate_add : Constraint F → M F Witness
  gate_add k = do
    let k = Constraint.arithmetic k ▹ Constraint.output minus_one
    o ← append_evaluated_output k
    w ← expect o
    append_gate (k ▹ Constraint.c w)
    ret w

  unfoldable pub gate_mul : Constraint F → M F Witness
  gate_mul k = do
    let k = Constraint.arithmetic k ▹ Constraint.output minus_one
    o ← append_evaluated_output k
    w ← expect o
    append_gate (k ▹ Constraint.c w)
    ret w

  unfoldable pub assert_equal : Witness → Witness → M F (Unit {0})
  assert_equal a b = append_gate (
      new
      ▹ Constraint.left (s.from 1)
      ▹ Constraint.right minus_one
      ▹ Constraint.a a
      ▹ Constraint.b b)

  abbrev pub or_public : Option F → Constraint F → Constraint F
  or_public none k = k
  or_public (some p) k = k ▹ Constraint.public p

  unfoldable pub assert_equal_constant : Witness → F → Option F → M F (Unit {0})
  assert_equal_constant a constant public = append_gate (
      new
      ▹ Constraint.left minus_one
      ▹ Constraint.a a
      ▹ Constraint.constant constant
      ▹ or_public public)

  unfoldable pub append_constant : F → M F Witness
  append_constant constant = do
    w ← append_witness constant
    assert_equal_constant w constant none
    ret w

  unfoldable pub append_public : F → M F Witness
  append_public public = do
    w ← append_witness public
    append_gate (new ▹ Constraint.left minus_one ▹ Constraint.a w ▹ Constraint.public public)
    ret w

  unfoldable pub append_dummy_gates : M F (Unit {0})
  append_dummy_gates = do
    six ← append_witness (s.from 6)
    one ← append_witness (s.from 1)
    seven ← append_witness (s.from 7)
    min_twenty ← append_witness (s.neg (s.from 20))
    append_gate (
        new
        ▹ Constraint.mult (s.from 1)
        ▹ Constraint.left (s.from 2)
        ▹ Constraint.right (s.from 3)
        ▹ Constraint.fourth (s.from 1)
        ▹ Constraint.constant (s.from 4)
        ▹ Constraint.output (s.from 4)
        ▹ Constraint.a six
        ▹ Constraint.b seven
        ▹ Constraint.d one
        ▹ Constraint.c min_twenty)
    append_gate (
        new
        ▹ Constraint.mult (s.from 1)
        ▹ Constraint.left (s.from 1)
        ▹ Constraint.right (s.from 1)
        ▹ Constraint.constant (s.from 127)
        ▹ Constraint.output (s.from 1)
        ▹ Constraint.a min_twenty
        ▹ Constraint.b six
        ▹ Constraint.c seven)

  unfoldable pub initialize : M F (Unit {0})
  initialize = do
    zero ← append_witness (s.from 0)
    one ← append_witness (s.from 1)
    assert_equal_constant zero (s.from 0) none
    assert_equal_constant one (s.from 1) none
    append_dummy_gates

  -- `Composer::initialized`
  unfoldable pub initialized : Outcome (Unit {0} × Composer F)
  unfolding initialize
  initialized = initialize uninitialized
