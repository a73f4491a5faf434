-- ===== src/Tests.antt =====
-- The theorems at concrete inputs, over the field with 17 elements.
pub mod Field
pub mod Gadgets
pub mod Wiring
pub mod Polynomials
pub mod Widgets
pub mod Iterators
pub mod Transition
pub mod Kzg
pub mod Linearization
pub mod Domain
pub mod Proving
pub mod Verify
