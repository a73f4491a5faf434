-- ===== src/Scalar.antt =====
-- The scalar field `BlsScalar` of the crate dusk-bls12_381, which the repository calls and does
-- not contain: a type with the operations that the code uses and their documented laws.
pub mod Ring
pub mod Bits
pub mod Laws
pub mod Numerals
pub mod Roots
use plonk.Prelude.{ℕ, suc, ◌<◌, ◌≡◌, ◌≢◌, ◌↔◌, Bool, true, Option, none, some}

pub record Scalar (F : Type 0) : Type 0 where
  pub zero : F
  pub one : F
  pub add : F → F → F
  pub mul : F → F → F
  pub sub : F → F → F
  pub neg : F → F
  pub invert : F → Option F
  pub beq : F → F → Bool
  -- `BlsScalar::from(u64)`
  pub from : ℕ → F
  pub add_assoc : (a b c : F) → add (add a b) c ≡ add a (add b c)
  pub add_comm : (a b : F) → add a b ≡ add b a
  pub zero-add : (a : F) → add zero a ≡ a
  pub add-neg : (a : F) → add a (neg a) ≡ zero
  pub sub_lem : (a b : F) → sub a b ≡ add a (neg b)
  pub mul_assoc : (a b c : F) → mul (mul a b) c ≡ mul a (mul b c)
  pub mul_comm : (a b : F) → mul a b ≡ mul b a
  pub one-mul : (a : F) → mul one a ≡ a
  pub mul-add : (a b c : F) → mul a (add b c) ≡ add (mul a b) (mul a c)
  pub one-ne-zero : one ≢ zero
  pub mul-invert : (a b : F) → invert a ≡ some b → mul a b ≡ one
  pub invert-none : (a : F) → invert a ≡ none → a ≡ zero
  pub beq_iff : (a b : F) → (beq a b ≡ true) ↔ (a ≡ b)
  pub from-zero : from 0 ≡ zero
  pub from-suc : (n : ℕ) → from (suc n) ≡ add (from n) one

infixl 65 ◌⊕◌ ◌⊖◌
infixl 70 ◌⊗◌
abbrev pub ◌⊕◌ : {F : Type 0} ⦃s : Scalar F⦄ → F → F → F
◌⊕◌ ⦃s⦄ = s.add

abbrev pub ◌⊖◌ : {F : Type 0} ⦃s : Scalar F⦄ → F → F → F
◌⊖◌ ⦃s⦄ = s.sub

abbrev pub ◌⊗◌ : {F : Type 0} ⦃s : Scalar F⦄ → F → F → F
◌⊗◌ ⦃s⦄ = s.mul
