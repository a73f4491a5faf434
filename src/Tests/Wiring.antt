-- ===== src/Tests/Wiring.antt =====
-- The theorems on the permutation, at a map of two gates.
use plonk.Prelude.{◌<◌, ◌≡◌, ◌↔◌, refl, some, [], ◌∷◌, arith}
use plonk.Wires.{WireData, left, right, output, fourth}
use plonk.Permutation.{Permutation}
use plonk.Permutation.Sigma.{
  Sigmas, compute_sigma_permutations, map_entries, map_wires, map_wire, wires_from,
}
use plonk.Permutation.Sigma.Reads.{
  image, gate_index, next_wire, or_else, Sized, same_wire, compute_sigma_permutations_lem,
}
use plonk.Permutation.Sigma.Copies.{Copied, sigma-Copied}

abbrev two_gates : Permutation
two_gates = record {
  witness_map =
      (0, left 0 ∷ right 0 ∷ fourth 1 ∷ [])
      ∷ (1, output 0 ∷ left 1 ∷ [])
      ∷ (2, fourth 0 ∷ right 1 ∷ output 1 ∷ [])
      ∷ [];
}

abbrev two_gates_sigmas : Sigmas
two_gates_sigmas = record {
  sigma_1 = right 0 ∷ output 0 ∷ [];
  sigma_2 = fourth 1 ∷ output 1 ∷ [];
  sigma_3 = left 1 ∷ fourth 0 ∷ [];
  sigma_4 = right 1 ∷ left 0 ∷ [];
}

two_gates_computed : compute_sigma_permutations 2 two_gates ≡ some two_gates_sigmas
unfolding compute_sigma_permutations map_entries map_wires map_wire wires_from
two_gates_computed = refl

compute_sigma_permutations_lem_example :
    (s : Sigmas) × (compute_sigma_permutations 2 two_gates ≡ some s)
    × Sized 2 s
    × ((u : WireData)
        → gate_index u < 2
        → image s u ≡ or_else (next_wire two_gates.witness_map u) (some u))
compute_sigma_permutations_lem_example = compute_sigma_permutations_lem 2 two_gates (omega arith)

sigma-Copied_example :
    ((u v : WireData)
      → gate_index u < 2
      → image two_gates_sigmas u ≡ some v
      → gate_index u ≡ gate_index v)
    ↔ Copied gate_index two_gates.witness_map
unfolding same_wire
sigma-Copied_example =
    sigma-Copied gate_index 2 two_gates two_gates_sigmas (omega arith)
      (refl, (refl, (refl, (refl, (refl, (refl, (refl, (refl, tt)))))))) two_gates_computed
