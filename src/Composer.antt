-- ===== src/Composer.antt =====
-- The circuit composer: src/composer.rs and src/composer/gate.rs.
pub mod State
pub mod Base
pub mod Components
pub mod Returns
pub mod Gadget
pub mod Append
pub mod Output
pub mod Asserts
pub mod Select
pub mod Decomposition
pub mod Initialized
pub mod Points
pub mod Quads
pub mod Inputs
pub mod Digits
pub mod Transition
pub mod LogicRows
pub mod Bitwise
pub mod Addition
pub mod RangeWires
pub mod RangeRows
pub mod RangeLoop
pub mod RangeCheck
