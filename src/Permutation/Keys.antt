-- ===== src/Permutation/Keys.antt =====
-- The witnesses that a permutation knows: what its operations do to the keys of its map.
use plonk.Prelude.{
  ℕ, ◌+◌, ◌<◌, ◌≡◌, some, ltb, length, contains_key, modify, contains_key-modify, length-modify,
  contains_key-insert, length-insert, ◌++◌, ◌∷◌, [], arith,
}
use plonk.Wires.{Witness, WireData}
use plonk.Permutation.{Permutation, new_witness, add_witness_to_map, add_witnesses_to_map}

-- The permutation knows the witnesses below `n` and no other.
pub record Knows (p : Permutation) (n : ℕ) : Type 0 where
  pub mapped : (w : ℕ) → contains_key w p.witness_map ≡ ltb w n
  pub sized : length p.witness_map ≡ n

pub new_witness-Knows : (p : Permutation) (n : ℕ) → Knows p n → Knows (new_witness p).0 (n + 1)
unfolding new_witness
new_witness-Knows p n k = record {
  mapped = λ w.
      ground
        (arith, contains_key-insert (length p.witness_map) w [] p.witness_map, k.sized, k.mapped w);
  sized = ground (
    arith,
    length-insert (length p.witness_map) [] p.witness_map,
    k.sized,
    k.mapped (length p.witness_map),
  );
}

pub add_witness_to_map-Knows :
    (w : Witness) (wire_data : WireData) (p : Permutation) (n : ℕ)
    → Knows p n
    → w.index < n
    → (p' : Permutation) × (add_witness_to_map w wire_data p ≡ some p') × Knows p' n
unfolding add_witness_to_map
add_witness_to_map-Knows w wire_data p n k h = (
  record { witness_map = modify w.index (λ wires. wires ++ wire_data ∷ []) p.witness_map },
  ground (arith, k.mapped w.index),
  record {
    mapped = λ j. ground (
      arith,
      k.mapped j,
      contains_key-modify w.index j (λ wires. wires ++ wire_data ∷ []) p.witness_map,
    );
    sized =
        ground
          (arith, k.sized, length-modify w.index (λ wires. wires ++ wire_data ∷ []) p.witness_map);
  },
)

pub add_witnesses_to_map-Knows :
    (a b c d : Witness) (i : ℕ) (p : Permutation) (n : ℕ)
    → Knows p n
    → (a.index < n) × (b.index < n) × (c.index < n) × (d.index < n)
    → (p' : Permutation) × (add_witnesses_to_map a b c d i p ≡ some p') × Knows p' n
unfolding add_witnesses_to_map
add_witnesses_to_map-Knows a b c d i p n k h =
    let (p1, e1, k1) = add_witness_to_map-Knows a (WireData.left i) p n k h.0 in
    let (p2, e2, k2) = add_witness_to_map-Knows b (WireData.right i) p1 n k1 h.1 in
    let (p3, e3, k3) = add_witness_to_map-Knows c (WireData.output i) p2 n k2 h.2 in
    let (p4, e4, k4) = add_witness_to_map-Knows d (WireData.fourth i) p3 n k3 h.3 in
    (p4, simp (e1, e2, e3, e4), k4)
