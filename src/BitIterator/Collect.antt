-- ===== src/BitIterator/Collect.antt =====
-- What the bit iterator gives: the binary form of the number whose bytes it goes over.
use plonk.Prelude.{
  ℕ, zero, suc, ◌+◌, ◌*◌, ◌/◌, ◌%◌, ◌^◌, ◌<◌, ◌≤◌, ◌≡◌, refl, sym, ap, ap₂, ◌∙◌, Bool, Option, none,
  some, ◌-◌, List, [], ◌∷◌, ◌++◌, length, get_elem?, get_elem?-of_lt, dec_lt, take, map, reverse,
  ltb, as_u64, length-reverse, arith,
}
use mathlib.Core.List.{reverse-append, reverse-reverse}
use native.Mathlib.Nat.{pow-succ', div-div-eq-div-mul, mul-div_right}
use plonk.Scalar.Bits.{from_bits}
use plonk.BitIterator.{BitIterator8, new, next, bit_at, collect_loop, collect}

abbrev pub AllBytes : List ℕ → Type 0
AllBytes [] = Unit
AllBytes (b ∷ bs) = (b < 256) × AllBytes bs

-- The number with these bytes, the least significant first.
abbrev pub from_bytes : List ℕ → ℕ
from_bytes [] = 0
from_bytes (b ∷ bs) = b + 256 * from_bytes bs

-- The `n` low bits of a number, the least significant first.
abbrev pub low_bits : ℕ → ℕ → List Bool
low_bits zero v = []
low_bits (suc n) v = ltb 0 (v % 2) ∷ low_bits n (v / 2)

abbrev pub bits_of : List ℕ → List Bool
bits_of [] = []
bits_of (b ∷ bs) = low_bits 8 b ++ bits_of bs

as_u64-ltb : (v : ℕ) → as_u64 (ltb 0 (v % 2)) ≡ v % 2
as_u64-ltb v = ground arith

from_bits-byte :
    (b : ℕ) (rest : List Bool)
    → b < 256
    → from_bits (map as_u64 (low_bits 8 b ++ rest)) ≡ b + 256 * from_bits (map as_u64 rest)
from_bits-byte b rest h = omega (
  arith,
  as_u64-ltb b,
  as_u64-ltb (b / 2),
  as_u64-ltb (b / 2 / 2),
  as_u64-ltb (b / 2 / 2 / 2),
  as_u64-ltb (b / 2 / 2 / 2 / 2),
  as_u64-ltb (b / 2 / 2 / 2 / 2 / 2),
  as_u64-ltb (b / 2 / 2 / 2 / 2 / 2 / 2),
  as_u64-ltb (b / 2 / 2 / 2 / 2 / 2 / 2 / 2),
)

from_bits-bits_of : (t : List ℕ) → AllBytes t → from_bits (map as_u64 (bits_of t)) ≡ from_bytes t
from_bits-bits_of [] h = refl
from_bits-bits_of (b ∷ t) h =
    from_bits-byte b (bits_of t) h.0 ∙ ap (λ n. b + 256 * n) (from_bits-bits_of t h.1)

length-bits_of : (t : List ℕ) → length (bits_of t) ≡ length t * 8
length-bits_of [] = omega arith
length-bits_of (b ∷ t) = omega (arith, length-bits_of t)

get_elem?-low_bits :
    (k n v : ℕ) (rest : List Bool)
    → n < k
    → get_elem? (low_bits k v ++ rest) n ≡ some (ltb 0 (v / 2 ^ n % 2))
get_elem?-low_bits zero n v rest h = absurd (omega arith)
get_elem?-low_bits (suc k) zero v rest h = ap (λ x. some (ltb 0 (x % 2))) {x = v} (omega arith)
get_elem?-low_bits (suc k) (suc n) v rest h =
    get_elem?-low_bits k n (v / 2) rest (omega arith)
    ∙ ap (λ x. some (ltb 0 (x % 2)))
        (div-div-eq-div-mul v 2 (2 ^ n) ∙ ap (◌/◌ v) (sym (pow-succ' 2 n)))

-- The iterator over the bytes `t` before it reads the bit at the place `n - 1`.
abbrev state : List ℕ → ℕ → BitIterator8
state t n = record { scalar = t; num_of_total_bits = n; bit_len = 8 }

abbrev read : List ℕ → ℕ → ℕ → Option Bool
read t i k = elim (get_elem? t i) [ none ↦ none | some number ↦ some (ltb 0 (number / 2 ^ k % 2)) ]

get_elem?-bits_of :
    (t : List ℕ) (n : ℕ) → n < length t * 8 → get_elem? (bits_of t) n ≡ read t (n / 8) (n % 8)
get_elem?-bits_of [] n h = absurd (omega arith)
get_elem?-bits_of (b ∷ t) n h = elim (dec_lt n 8) [
  | yes lt ↦
      get_elem?-low_bits 8 n b (bits_of t) lt
      ∙ sym (ap₂ (read (b ∷ t)) {x = n / 8} {y = 0} {u = n % 8} {v = n} (omega arith) (omega arith))
  | no ge ↦
      let m = n - 8 in
      let e : n ≡ suc (suc (suc (suc (suc (suc (suc (suc m))))))) = omega arith in
      ap (get_elem? (bits_of (b ∷ t))) e
      ∙ get_elem?-bits_of t m (omega arith)
      ∙ sym (
          ap₂ (read (b ∷ t)) {x = n / 8} {y = suc (m / 8)} {u = n % 8} {v = m % 8} (omega arith)
            (omega arith))
]

take-suc :
    {A : Type 0} (xs : List A) (n : ℕ) (x : A)
    → get_elem? xs n ≡ some x
    → take (suc n) xs ≡ take n xs ++ x ∷ []
take-suc [] n x h = cc
take-suc (y ∷ xs) zero x h = ground arith
take-suc (y ∷ xs) (suc n) x h = ap (◌∷◌ y) (take-suc xs n x h)

take_all : {A : Type 0} (xs : List A) → take (length xs) xs ≡ xs
take_all [] = refl
take_all (x ∷ xs) = ap (◌∷◌ x) (take_all xs)

collect_loop_lem :
    (t : List ℕ) (n : ℕ)
    → n ≤ length t * 8
    → collect_loop (suc n) (state t n) ≡ some (reverse (take n (bits_of t)))
unfolding collect_loop next bit_at
collect_loop_lem t zero h = refl
collect_loop_lem t (suc n) h =
    let lt : n < length (bits_of t) = omega (arith, length-bits_of t) in
    let (b, e) = get_elem?-of_lt (bits_of t) n lt in
    rw
      (
        sym (get_elem?-bits_of t n (omega arith)) ∙ e,
        collect_loop_lem t n (omega arith),
        take-suc (bits_of t) n b e,
        reverse-append (take n (bits_of t)) (b ∷ []),
      )
      refl

new-state : (t : List ℕ) → 0 < length t → new t ≡ state t (length t * 8)
unfolding new
new-state t h =
    ap (λ k. record { scalar = t; num_of_total_bits = length t * 8; bit_len = k })
      (mul-div_right 8 h)

-- The bits of the bytes, the most significant first.
pub collect-new_bits :
    (t : List ℕ)
    → 0 < length t
    → (bits : List Bool) × (collect (new t) ≡ some bits)
      × (length bits ≡ length t * 8)
      × (reverse bits ≡ bits_of t)
unfolding collect
collect-new_bits t h =
    let all : take (length t * 8) (bits_of t) ≡ bits_of t =
      ap (λ n. take n (bits_of t)) (sym (length-bits_of t)) ∙ take_all (bits_of t) in
    (
      reverse (bits_of t),
      ap (λ it. collect_loop (suc it.num_of_total_bits) it) (new-state t h)
          ∙ collect_loop_lem t (length t * 8) (omega arith)
          ∙ ap (λ xs. some (reverse xs)) all,
      length-reverse (bits_of t) ∙ length-bits_of t,
      reverse-reverse (bits_of t),
    )

-- Over an array of bytes that is not empty the iterator gives eight bits for each byte without
-- reading out of bounds and then ends, and the bits, from the last to the first, are the binary
-- form of the number with these bytes, the least significant first.
pub collect-new :
    (t : List ℕ)
    → 0 < length t
    → AllBytes t
    → (bits : List Bool) × (collect (new t) ≡ some bits)
      × (length bits ≡ length t * 8)
      × (from_bits (map as_u64 (reverse bits)) ≡ from_bytes t)
collect-new t h bytes =
    let (bits, e, len, r) = collect-new_bits t h in
    (bits, e, len, ap (λ xs. from_bits (map as_u64 xs)) r ∙ from_bits-bits_of t bytes)
