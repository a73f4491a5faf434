-- ===== src/Composer/Quads.antt =====
-- The methods of the composer that take witnesses apart in base four: the range check and the
-- bitwise operations, with the gates of the range and logic widgets.
use plonk.Prelude.{
  ℕ, zero, suc, ◌+◌, ◌-◌, ◌*◌, ◌/◌, ◌%◌, min, Bool, true, false, ◌==◌, if◌then◌else◌, Option, none,
  some, List, [], ◌∷◌, ◌++◌, reverse, get_elem?, as_u64, usize_wrap,
}
use mathlib.Core.Option
use plonk.Scalar.{Scalar, ◌⊕◌, ◌⊗◌}
use plonk.Scalar.Bits.{ScalarBytes}
use plonk.BitIterator.{collect}
use plonk.BitIterator
use plonk.Wires.{Witness, WiredWitness}
use plonk.Constraint.{Constraint, new, ◌▹◌, set_witness, witness}
use plonk.Constraint
use plonk.Composer.State.{M, ◌>>=◌, ◌>>◌, ret, index}
use plonk.Composer.Base.{append_witness, append_gate, append_custom_gate, assert_equal, expect}

module _ {A : Type 0} where
  abbrev pub skip : ℕ → List A → List A
  skip zero xs = xs
  skip (suc n) [] = []
  skip (suc n) (x ∷ xs) = skip n xs

  abbrev pub replicate : ℕ → A → List A
  replicate zero x = []
  replicate (suc n) x = x ∷ replicate n x

  -- `xs[i] = f(xs[i])`; `none` is the panic out of bounds.
  abbrev pub modify_at : ℕ → (A → A) → List A → Option (List A)
  modify_at i f [] = none
  modify_at zero f (x ∷ xs) = some (f x ∷ xs)
  modify_at (suc i) f (x ∷ xs) = Option.map (◌∷◌ x) (modify_at i f xs)

  abbrev pub last : List A → Option A
  last [] = none
  last (x ∷ []) = some x
  last (x ∷ y ∷ ys) = last (y ∷ ys)

  -- A write through `last_mut`, if there is a last element.
  abbrev pub modify_last : (A → A) → List A → List A
  modify_last f [] = []
  modify_last f (x ∷ []) = f x ∷ []
  modify_last f (x ∷ y ∷ ys) = x ∷ modify_last f (y ∷ ys)

-- The wire of the accumulator with the number `i`, from `i % 4`.
abbrev pub accumulator_wire : ℕ → WiredWitness
accumulator_wire zero = WiredWitness.d
accumulator_wire (suc zero) = WiredWitness.c
accumulator_wire (suc (suc zero)) = WiredWitness.b
accumulator_wire (suc (suc (suc n))) = WiredWitness.a

-- `l ^ r` and `l & r` of two quads, by their two bits.
abbrev pub xor_quad : ℕ → ℕ → ℕ
xor_quad l r = (l / 2 + r / 2) % 2 * 2 + (l + r) % 2

abbrev pub and_quad : ℕ → ℕ → ℕ
and_quad l r = (l / 2) * (r / 2) * 2 + (l % 2) * (r % 2)

module _ {F : Type 0} ⦃s : Scalar F⦄ where
  unfoldable pub append_all : List (Constraint F) → M F (Unit {0})
  append_all [] = ret tt
  append_all (k ∷ ks) = do append_custom_gate k; append_all ks

  -- The iterations `i`, `i + 1` and so on of the loop over the quads, `count` of them.
  unfoldable pub range_loop :
      ℕ
      → ℕ
      → ℕ
      → List Bool
      → F
      → List Witness
      → List (Constraint F)
      → M F (List Witness × List (Constraint F))
  range_loop zero i num_quads bits accumulator accumulators constraints =
      ret (accumulators, constraints)
  range_loop (suc count) i num_quads bits accumulator accumulators constraints = do
    let bit_index = (num_quads - i) * 2
    q_0 ← expect (get_elem? bits bit_index)
    q_1 ← expect (get_elem? bits (bit_index + 1))
    let quad = as_u64 q_0 + 2 * as_u64 q_1
    let accumulator = s.from 4 ⊗ accumulator ⊕ s.from quad
    accumulator_var ← append_witness accumulator
    constraints ←
        expect
          (modify_at (i / 4) (set_witness (accumulator_wire (i % 4)) accumulator_var) constraints)
    range_loop count (i + 1) num_quads bits accumulator (accumulators ++ accumulator_var ∷ [])
        constraints

  -- The writes to the last constraint.
  unfoldable pub close_range : List Witness → List (Constraint F) → List (Constraint F)
  close_range accumulators constraints =
      let constraints' = modify_last (λ _. new) constraints in
      elim (last accumulators) [
        | none ↦ constraints'
        | some accumulator ↦ modify_last (set_witness WiredWitness.d accumulator) constraints'
      ]

  unfoldable pub assert_last : Option Witness → Witness → M F (Unit {0})
  assert_last none w = ret tt
  assert_last (some accumulator) w = assert_equal accumulator w

  -- `if is_component_xor`
  abbrev pub logic_constraint : Bool → Constraint F
  logic_constraint true = Constraint.logic_xor new
  logic_constraint false = Constraint.logic new

  -- The iterations `i`, `i + 1` and so on, `count` of them. The quads are below four, so their
  -- sums and products do not leave `u8`.
  unfoldable pub logic_loop :
      ℕ → ℕ → Bool → List Bool → List Bool → F → F → F → Constraint F → M F (Constraint F)
  logic_loop zero i is_component_xor a_bits b_bits left_acc right_acc out_acc constraint =
      ret constraint
  logic_loop (suc count) i is_component_xor a_bits b_bits left_acc right_acc out_acc constraint = do
    let idx = i * 2
    l ← expect (get_elem? a_bits idx)
    r ← expect (get_elem? a_bits (idx + 1))
    let left_quad = as_u64 l * 2 + as_u64 r
    l ← expect (get_elem? b_bits idx)
    r ← expect (get_elem? b_bits (idx + 1))
    let right_quad = as_u64 l * 2 + as_u64 r
    let out_quad =
        if is_component_xor then xor_quad left_quad right_quad else and_quad left_quad right_quad
    let left_acc = left_acc ⊗ s.from 4 ⊕ s.from left_quad
    let right_acc = right_acc ⊗ s.from 4 ⊕ s.from right_quad
    let out_acc = out_acc ⊗ s.from 4 ⊕ s.from out_quad
    wit_a ← append_witness left_acc
    wit_b ← append_witness right_acc
    wit_c ← append_witness (s.from (left_quad * right_quad))
    wit_d ← append_witness out_acc
    let constraint = constraint ▹ Constraint.c wit_c
    append_custom_gate constraint
    logic_loop count (i + 1) is_component_xor a_bits b_bits left_acc right_acc out_acc
        (constraint ▹ Constraint.a wit_a ▹ Constraint.b wit_b ▹ Constraint.d wit_d)

  module _ ⦃bytes : ScalarBytes F⦄ where
    -- The part of `component_range` for `num_bits > 0`.
    unfoldable pub range_gates : ℕ → Witness → M F (Unit {0})
    range_gates num_bits w = do
      v ← index w
      bits ← expect (collect (BitIterator.new (bytes.to_bytes v)))
      let num_gates = if num_bits % 8 == 0 then num_bits / 8 else num_bits / 8 + 1
      let num_quads = num_gates * 4
      let pad = 1 + (num_quads * 2 - num_bits) / 2
      let used_gates = num_gates + 1
      r ←
          range_loop (num_quads + 1 - pad) pad num_quads (reverse bits) s.zero []
            (replicate used_gates (Constraint.range new))
      append_all (close_range r.0 r.1)
      assert_last (last r.0) w

    unfoldable pub component_range : ℕ → Witness → M F (Unit {0})
    unfolding range_gates
    component_range bit_pairs w =
        let num_bits = min (usize_wrap (bit_pairs * 2)) 256 in
        if num_bits == 0
        then append_gate (new ▹ Constraint.left (s.from 1) ▹ Constraint.a w)
        else range_gates num_bits w

    unfoldable pub append_logic_component : ℕ → Witness → Witness → Bool → M F Witness
    append_logic_component bit_pairs a b is_component_xor = do
      let num_bits = min (usize_wrap (bit_pairs * 2)) 256
      let num_quads = num_bits / 2
      v_a ← index a
      a_bits ← expect (collect (BitIterator.new (bytes.to_bytes v_a)))
      v_b ← index b
      b_bits ← expect (collect (BitIterator.new (bytes.to_bytes v_b)))
      constraint ←
          logic_loop num_quads 0 is_component_xor (skip (256 - num_bits) a_bits)
            (skip (256 - num_bits) b_bits) s.zero s.zero s.zero (logic_constraint is_component_xor)
      let a = witness constraint WiredWitness.a
      let b = witness constraint WiredWitness.b
      let d = witness constraint WiredWitness.d
      append_custom_gate (new ▹ Constraint.a a ▹ Constraint.b b ▹ Constraint.d d)
      ret d

    unfoldable pub append_logic_and : ℕ → Witness → Witness → M F Witness
    unfolding append_logic_component
    append_logic_and bit_pairs a b = append_logic_component bit_pairs a b false

    unfoldable pub append_logic_xor : ℕ → Witness → Witness → M F Witness
    unfolding append_logic_component
    append_logic_xor bit_pairs a b = append_logic_component bit_pairs a b true
