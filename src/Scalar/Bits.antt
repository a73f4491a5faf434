-- ===== src/Scalar/Bits.antt =====
-- The bits of a scalar, as dusk-bls12_381 gives them.
use plonk.Prelude.{ℕ, suc, ◌+◌, ◌*◌, ◌<◌, ◌≡◌, List, [], ◌∷◌, length}
use plonk.Scalar.{Scalar, ◌⊕◌}

abbrev pub AllBits : List ℕ → Type 0
AllBits [] = Unit
AllBits (b ∷ bs) = (b < 2) × AllBits bs

-- The number with these binary digits, the least significant first.
abbrev pub from_bits : List ℕ → ℕ
from_bits [] = 0
from_bits (b ∷ bs) = b + 2 * from_bits bs

pub record ScalarBits (F : Type 0) ⦃s : Scalar F⦄ : Type 0 where
  pub to_bits : F → List ℕ
  pub pow_of_2 : ℕ → F
  pub to_bits-AllBits : (x : F) → AllBits (to_bits x)
  pub length-to_bits : (x : F) → length (to_bits x) ≡ 256
  pub from-from_bits : (x : F) → s.from (from_bits (to_bits x)) ≡ x
  pub pow_of_2-zero : pow_of_2 0 ≡ s.one
  pub pow_of_2-suc : (i : ℕ) → pow_of_2 (suc i) ≡ pow_of_2 i ⊕ pow_of_2 i

-- The canonical bytes of a scalar, the least significant first.
pub record ScalarBytes (F : Type 0) : Type 0 where
  pub to_bytes : F → List ℕ
  pub length-to_bytes : (x : F) → length (to_bytes x) ≡ 32
