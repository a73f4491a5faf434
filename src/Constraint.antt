-- ===== src/Constraint.antt =====
-- A constraint before it becomes a gate: src/composer/constraint_system/constraint.rs.
use plonk.Prelude.{Bool, true, false, ltb, ◌==◌, if◌then◌else◌}
use plonk.Scalar.{Scalar}
use plonk.Wires.{Witness, zero_witness, Selector, selector_index, WiredWitness, wire_index}

-- The two arrays are only read and written at a selector's or a wire's index.
pub record Constraint (F : Type 0) : Type 0 where
  pub coefficients : Selector → F
  pub witnesses : WiredWitness → Witness
  pub has_public_input : Bool

-- A builder call, `k.a(w)`, is `k ▹ a w`.
infixl 20 ◌▹◌
abbrev pub ◌▹◌ : {A B : Type 0} → A → (A → B) → B
x ▹ f = f x

module _ {F : Type 0} where
  abbrev pub coeff : Constraint F → Selector → F
  coeff k r = k.coefficients r

  abbrev pub witness : Constraint F → WiredWitness → Witness
  witness k w = k.witnesses w

  abbrev pub set_coeff : Selector → F → Constraint F → Constraint F
  set_coeff r v k = record k {
    coefficients = λ i. if selector_index i == selector_index r then v else k.coefficients i;
  }

  abbrev pub set_witness : WiredWitness → Witness → Constraint F → Constraint F
  set_witness r w k = record k {
    witnesses = λ i. if wire_index i == wire_index r then w else k.witnesses i;
  }

  abbrev pub mult : F → Constraint F → Constraint F
  mult = set_coeff Selector.multiplication

  abbrev pub left : F → Constraint F → Constraint F
  left = set_coeff Selector.left

  abbrev pub right : F → Constraint F → Constraint F
  right = set_coeff Selector.right

  abbrev pub output : F → Constraint F → Constraint F
  output = set_coeff Selector.output

  abbrev pub fourth : F → Constraint F → Constraint F
  fourth = set_coeff Selector.fourth

  abbrev pub constant : F → Constraint F → Constraint F
  constant = set_coeff Selector.constant

  abbrev pub public : F → Constraint F → Constraint F
  public v k = set_coeff Selector.public_input v (record k { has_public_input = true })

  abbrev pub a : Witness → Constraint F → Constraint F
  a = set_witness WiredWitness.a

  abbrev pub b : Witness → Constraint F → Constraint F
  b = set_witness WiredWitness.b

  abbrev pub c : Witness → Constraint F → Constraint F
  c = set_witness WiredWitness.c

  abbrev pub d : Witness → Constraint F → Constraint F
  d = set_witness WiredWitness.d

module _ {F : Type 0} ⦃s : Scalar F⦄ where
  abbrev pub new : Constraint F
  new = record {
    coefficients = λ _. s.zero;
    witnesses = λ _. zero_witness;
    has_public_input = false;
  }

  -- Keeps the coefficients below `Selector::Arithmetic`, which a caller may set.
  abbrev pub from_external : Constraint F → Constraint F
  from_external k = record {
    coefficients = λ i.
        if ltb (selector_index i) (selector_index Selector.arithmetic)
        then k.coefficients i
        else s.zero;
    witnesses = k.witnesses;
    has_public_input = k.has_public_input;
  }

  abbrev pub arithmetic : Constraint F → Constraint F
  arithmetic k = set_coeff Selector.arithmetic (s.from 1) (from_external k)

  abbrev pub range : Constraint F → Constraint F
  range k = set_coeff Selector.range (s.from 1) (from_external k)

  abbrev pub logic : Constraint F → Constraint F
  logic k =
      set_coeff Selector.logic (s.from 1) (set_coeff Selector.constant (s.from 1) (from_external k))

  abbrev pub logic_xor : Constraint F → Constraint F
  logic_xor k =
      set_coeff Selector.logic (s.neg s.one)
        (set_coeff Selector.constant (s.neg s.one) (from_external k))

  abbrev pub group_add_fixed_base : Constraint F → Constraint F
  group_add_fixed_base k = set_coeff Selector.group_add_fixed_base (s.from 1) (from_external k)

  abbrev pub group_add_variable_base : Constraint F → Constraint F
  group_add_variable_base k =
      set_coeff Selector.group_add_variable_base (s.from 1) (from_external k)
