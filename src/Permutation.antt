-- ===== src/Permutation.antt =====
-- Which wires of which gates hold a witness: src/composer/permutation.rs.
pub mod Keys
pub mod Sigma
use plonk.Prelude.{
  ℕ, Bool, true, ◌&&◌, Option, none, some, List, [], ◌∷◌, ◌++◌, if◌then◌else◌, length, insert,
  contains_key, modify,
}
use plonk.Wires.{Witness, WireData}

-- `witness_map`, under the index of the witness.
pub record Permutation : Type 0 where
  pub witness_map : List (ℕ × List WireData)

abbrev pub new : Permutation
new = record { witness_map = [] }

unfoldable pub new_witness : Permutation → Permutation × Witness
new_witness p =
    let n = length p.witness_map in
    (record { witness_map = insert n [] p.witness_map }, record { index = n })

unfoldable pub valid_witnesses : Permutation → List Witness → Bool
valid_witnesses p [] = true
valid_witnesses p (w ∷ ws) = contains_key w.index p.witness_map && valid_witnesses p ws

-- `none` is the failure of the assertion.
unfoldable pub add_witness_to_map : Witness → WireData → Permutation → Option Permutation
unfolding valid_witnesses
add_witness_to_map w wire_data p =
    if valid_witnesses p (w ∷ [])
    then some
        (record { witness_map = modify w.index (λ wires. wires ++ wire_data ∷ []) p.witness_map })
    else none

infixl 5 ◌>>=◌
abbrev ◌>>=◌ : Option Permutation → (Permutation → Option Permutation) → Option Permutation
none >>= f = none
some p >>= f = f p

unfoldable pub add_witnesses_to_map :
    Witness → Witness → Witness → Witness → ℕ → Permutation → Option Permutation
add_witnesses_to_map a b c d gate_index p = do
  p ← add_witness_to_map a (WireData.left gate_index) p
  p ← add_witness_to_map b (WireData.right gate_index) p
  p ← add_witness_to_map c (WireData.output gate_index) p
  add_witness_to_map d (WireData.fourth gate_index) p
