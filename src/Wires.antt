-- ===== src/Wires.antt =====
-- References to witnesses and wires, and the two enumerations that index a constraint:
-- src/composer/constraint_system/{witness,ecc,constraint}.rs.
use plonk.Prelude.{ℕ}

pub record Witness : Type 0 where
  pub index : ℕ

pub data WireData : Type 0 where
  left : ℕ → WireData
  right : ℕ → WireData
  output : ℕ → WireData
  fourth : ℕ → WireData

pub record WitnessPoint : Type 0 where
  pub x : Witness
  pub y : Witness

abbrev pub zero_witness : Witness
zero_witness = record { index = 0 }

abbrev pub one_witness : Witness
one_witness = record { index = 1 }

abbrev pub identity_point : WitnessPoint
identity_point = record { x = zero_witness; y = one_witness }

pub data Selector : Type 0 where
  multiplication left right output fourth constant public_input : Selector
  arithmetic range logic group_add_fixed_base group_add_variable_base : Selector

-- `r as usize`
abbrev pub selector_index : Selector → ℕ
selector_index Selector.multiplication = 0x00
selector_index Selector.left = 0x01
selector_index Selector.right = 0x02
selector_index Selector.output = 0x03
selector_index Selector.fourth = 0x04
selector_index Selector.constant = 0x05
selector_index Selector.public_input = 0x06
selector_index Selector.arithmetic = 0x07
selector_index Selector.range = 0x08
selector_index Selector.logic = 0x09
selector_index Selector.group_add_fixed_base = 0x0a
selector_index Selector.group_add_variable_base = 0x0b

pub data WiredWitness : Type 0 where
  a b c d : WiredWitness

-- `w as usize`
abbrev pub wire_index : WiredWitness → ℕ
wire_index WiredWitness.a = 0x00
wire_index WiredWitness.b = 0x01
wire_index WiredWitness.c = 0x02
wire_index WiredWitness.d = 0x03
