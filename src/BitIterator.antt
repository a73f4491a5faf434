-- ===== src/BitIterator.antt =====
-- The bits of a byte array from the most significant one: src/bit_iterator.rs. `none` is a panic.
pub mod Collect
use plonk.Prelude.{
  ℕ, zero, suc, ◌*◌, ◌/◌, ◌%◌, ◌^◌, Bool, Option, none, some, List, [], ◌∷◌, length, get_elem?, ltb,
}

-- `scalar` is an array of bytes, so its size in memory is its length.
pub record BitIterator8 : Type 0 where
  pub scalar : List ℕ
  pub num_of_total_bits : ℕ
  pub bit_len : ℕ

unfoldable pub new : List ℕ → BitIterator8
new t =
    let num_of_total_bits = length t * 8 in
    record {
      scalar = t;
      num_of_total_bits = num_of_total_bits;
      bit_len = num_of_total_bits / length t;
    }

-- The bit at the place `n` that `next` reads once it has counted down to it.
unfoldable pub bit_at : ℕ → BitIterator8 → Option Bool
bit_at n it = elim (get_elem? it.scalar (n / it.bit_len)) [
  | none ↦ none
  | some number ↦ some (ltb 0 (number / 2 ^ (n % it.bit_len) % 2))
]

-- The outer option is the panic, the inner one the end of the iteration.
unfoldable pub next : BitIterator8 → Option (Option Bool × BitIterator8)
next it = elim it.num_of_total_bits [
  | zero ↦ some (none, it)
  | suc n ↦ elim (bit_at n it) [
    | none ↦ none
    | some bit ↦ some (some bit, record it { num_of_total_bits = n })
  ]
]

-- `collect`, by one call of `next` for each bit and one that finds the end. Without the end among
-- these calls there is no result.
unfoldable pub collect_loop : ℕ → BitIterator8 → Option (List Bool)
collect_loop zero it = none
collect_loop (suc fuel) it = elim (next it) [
  | none ↦ none
  | some (none, it') ↦ some []
  | some (some bit, it') ↦ elim (collect_loop fuel it') [
    | none ↦ none
    | some bits ↦ some (bit ∷ bits)
  ]
]

unfoldable pub collect : BitIterator8 → Option (List Bool)
collect it = collect_loop (suc it.num_of_total_bits) it
