-- ===== src/Widget.antt =====
-- The gate equations of the widgets, as the prover evaluates them at a row:
-- src/proof_system/widget/*/proverkey.rs.
pub mod Quotient
pub mod Range
pub mod Logic
pub mod CurveAddition
pub mod Linearization
pub mod Agreement
pub mod Equation
pub mod Commitment
pub mod Verifier
pub mod Permutation
