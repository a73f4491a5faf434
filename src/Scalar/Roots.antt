-- ===== src/Scalar/Roots.antt =====
-- The powers of a scalar and the roots of unity of dusk-bls12_381: `BlsScalar::pow`,
-- `ROOT_OF_UNITY`, `TWO_ADACITY` and `GENERATOR`, with their documented laws.
use plonk.Prelude.{ℕ, zero, suc, ◌+◌, ◌*◌, ◌^◌, ◌≤◌, ◌<◌, ◌≡◌, ◌≢◌, sym, ap, ◌∙◌, inl, inr, arith}
use native.Mathlib.Nat.{pow-suc}
use plonk.Scalar.{Scalar, ◌⊗◌}
use plonk.Scalar.Ring.{mul-one}
use plonk.Scalar.Laws.{mul-eq_zero, from-one}
use plonk.Scalar.Numerals.{from-mul}

pub record Roots (F : Type 0) ⦃s : Scalar F⦄ : Type 0 where
  pub pow : F → ℕ → F
  pub two_adacity : ℕ
  pub root_of_unity : F
  pub generator : F
  pub pow-zero : (a : F) → pow a 0 ≡ s.one
  pub pow-suc : (a : F) (n : ℕ) → pow a (suc n) ≡ pow a n ⊗ a
  pub positive : 0 < two_adacity
  pub below : two_adacity < 64
  pub root : pow root_of_unity (2 ^ two_adacity) ≡ s.one
  pub primitive : (k : ℕ) → pow root_of_unity (2 ^ k) ≡ s.one → two_adacity ≤ k
  pub generator-ne-zero : generator ≢ s.zero
  pub two-ne-zero : s.from 2 ≢ s.zero

module _ {F : Type 0} ⦃s : Scalar F⦄ ⦃r : Roots F⦄ where
  pub pow-add : (a : F) (m n : ℕ) → r.pow a (m + n) ≡ r.pow a m ⊗ r.pow a n
  pow-add a m zero =
      ap (r.pow a) {x = m + 0} (omega arith) ∙ sym (ap (s.mul _) (r.pow-zero a) ∙ mul-one _)
  pow-add a m (suc n) =
      ap (r.pow a) {x = m + suc n} {y = suc (m + n)} (omega arith)
      ∙ r.pow-suc a (m + n)
      ∙ ap (λ t. t ⊗ a) (pow-add a m n)
      ∙ s.mul_assoc _ _ a
      ∙ ap (s.mul (r.pow a m)) (sym (r.pow-suc a n))

  pub pow-one : (n : ℕ) → r.pow s.one n ≡ s.one
  pow-one zero = r.pow-zero s.one
  pow-one (suc n) = r.pow-suc s.one n ∙ mul-one _ ∙ pow-one n

  pub pow-mul : (a : F) (m n : ℕ) → r.pow (r.pow a m) n ≡ r.pow a (m * n)
  pow-mul a m zero = r.pow-zero _ ∙ sym (ap (r.pow a) {x = m * 0} (omega arith) ∙ r.pow-zero a)
  pow-mul a m (suc n) =
      r.pow-suc _ n
      ∙ ap (λ t. t ⊗ r.pow a m) (pow-mul a m n)
      ∙ sym (pow-add a (m * n) m)
      ∙ ap (r.pow a) {x = m * n + m} (omega arith)

  pub pow-square : (a : F) (n : ℕ) → r.pow (a ⊗ a) n ≡ r.pow a (2 * n)
  pow-square a n =
      ap (λ t. r.pow t n)
        (sym (
          r.pow-suc a 1
          ∙ ap (λ t. t ⊗ a) (r.pow-suc a 0 ∙ ap (λ t. t ⊗ a) (r.pow-zero a) ∙ s.one-mul a)))
      ∙ pow-mul a 2 n

  pub from-power_of_two : (k : ℕ) → s.from (2 ^ k) ≢ s.zero
  from-power_of_two zero h = s.one-ne-zero (sym from-one ∙ h)
  from-power_of_two (suc k) h =
      elim (mul-eq_zero _ _ (sym (ap s.from (pow-suc 2 k) ∙ from-mul (2 ^ k) 2) ∙ h)) [
        | inl e ↦ from-power_of_two k e
        | inr e ↦ r.two-ne-zero e
      ]
