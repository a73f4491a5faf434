-- ===== src/Tests/Iterators.antt =====
-- The theorem on the bit iterator, at two bytes.
use plonk.Prelude.{◌≡◌, Bool, some, List, [], ◌∷◌, length, map, reverse, as_u64, arith}
use plonk.Scalar.Bits.{from_bits}
use plonk.BitIterator.{new, collect}
use plonk.BitIterator.Collect.{collect-new}

collect-new_example :
    (bits : List Bool) × (collect (new (5 ∷ 1 ∷ [])) ≡ some bits)
    × (length bits ≡ 16)
    × (from_bits (map as_u64 (reverse bits)) ≡ 261)
collect-new_example = collect-new (5 ∷ 1 ∷ []) (omega arith) (omega arith, (omega arith, tt))
