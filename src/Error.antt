-- ===== src/Error.antt =====
-- The errors that the library returns: src/error.rs. The error of dusk-bytes that
-- `BytesError` wraps is left out.
use plonk.Prelude.{ℕ, Option, none, some}

pub data Error : Type 0 where
  invalid_eval_domain_size : ℕ → ℕ → Error
  proof_verification_error circuit_inputs_not_found uninitialized_pi_generator : Error
  invalid_public_input_bytes circuit_already_preprocessed : Error
  invalid_circuit_size : ℕ → ℕ → Error
  mismatched_poly_len degree_is_zero truncated_degree_too_large : Error
  truncated_degree_is_zero polynomial_degree_too_large polynomial_degree_is_zero : Error
  pairing_check_failure bytes_error not_enough_bytes point_malformed : Error
  bls_scalar_malformed jubjub_scalar_malformed unsupported_wnaf2k : Error
  public_input_not_found : ℕ → Error
  inconsistent_public_inputs_len : ℕ → ℕ → Error
  invalid_compressed_circuit : Error

-- What a call gives: a value, an `Err`, or a panic.
pub data Outcome (A : Type 0) : Type 0 where
  ok : A → Outcome A
  err : Error → Outcome A
  panic : Outcome A

infixl 5 ◌>>=◌ ◌>>◌
abbrev pub ◌>>=◌ : {A B : Type 0} → Outcome A → (A → Outcome B) → Outcome B
ok a >>= f = f a
err e >>= f = err e
panic >>= f = panic

abbrev pub ◌>>◌ : {B : Type 0} → Outcome (Unit {0}) → Outcome B → Outcome B
m >> k = m >>= λ _. k

-- A failed assertion is `none`.
abbrev pub asserted : {A : Type 0} → Option A → Outcome A
asserted none = panic
asserted (some a) = ok a
