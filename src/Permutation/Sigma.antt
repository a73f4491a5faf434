-- ===== src/Permutation/Sigma.antt =====
-- `compute_sigma_permutations` of src/composer/permutation.rs: each wire is sent to the next one
-- that holds the same witness, the last to the first.
pub mod Reads
pub mod Copies
use plonk.Prelude.{
  ℕ, zero, suc, ◌+◌, ◌-◌, ◌<◌, Bool, true, false, ◌==◌, ltb, if◌then◌else◌, Option, none, some,
  List, [], ◌∷◌, length, get_elem?, set,
}
use plonk.Wires.{WireData, left, right, output, fourth}
use plonk.Permutation.{Permutation}

-- `[Vec<WireData>; 4]`
pub record Sigmas : Type 0 where
  pub sigma_1 : List WireData
  pub sigma_2 : List WireData
  pub sigma_3 : List WireData
  pub sigma_4 : List WireData

-- `(from..from + n).map(wire).collect()`
unfoldable pub wires_from : ℕ → ℕ → (ℕ → WireData) → List WireData
wires_from from zero wire = []
wires_from from (suc n) wire = wire from ∷ wires_from (from + 1) n wire

abbrev pub identity : ℕ → Sigmas
identity n = record {
  sigma_1 = wires_from 0 n left;
  sigma_2 = wires_from 0 n right;
  sigma_3 = wires_from 0 n output;
  sigma_4 = wires_from 0 n fourth;
}

-- `v[i] = x`, with `none` for the panic out of bounds.
abbrev pub write : List WireData → ℕ → WireData → Option (List WireData)
write v i x = if ltb i (length v) then some (set v i x) else none

infixl 5 ◌>>=◌
abbrev pub ◌>>=◌ : {A B : Type 0} → Option A → (A → Option B) → Option B
none >>= f = none
some a >>= f = f a

unfoldable pub map_wire : WireData → WireData → Sigmas → Option Sigmas
map_wire (left i) next s = do v ← write s.sigma_1 i next; some (record s { sigma_1 = v })
map_wire (right i) next s = do v ← write s.sigma_2 i next; some (record s { sigma_2 = v })
map_wire (output i) next s = do v ← write s.sigma_3 i next; some (record s { sigma_3 = v })
map_wire (fourth i) next s = do v ← write s.sigma_4 i next; some (record s { sigma_4 = v })

abbrev pub next_index : ℕ → ℕ → ℕ
next_index wire_index len = if wire_index == len - 1 then 0 else wire_index + 1

-- The inner loop, at `wire_index`, over the wires that are left of `wire_data`.
unfoldable pub map_wires : List WireData → ℕ → List WireData → Sigmas → Option Sigmas
map_wires wire_data wire_index [] s = some s
map_wires wire_data wire_index (current_wire ∷ rest) s = do
  next_wire ← get_elem? wire_data (next_index wire_index (length wire_data))
  s ← map_wire current_wire next_wire s
  map_wires wire_data (wire_index + 1) rest s

-- The loop over the map, in whatever order its entries come.
unfoldable pub map_entries : List (ℕ × List WireData) → Sigmas → Option Sigmas
map_entries [] s = some s
map_entries ((w, wire_data) ∷ entries) s = do
  s ← map_wires wire_data 0 wire_data s
  map_entries entries s

unfoldable pub compute_sigma_permutations : ℕ → Permutation → Option Sigmas
unfolding map_entries
compute_sigma_permutations n p = map_entries p.witness_map (identity n)
