-- ===== src/Lib.antt =====
-- A verification library for dusk-plonk, a proof system over the curve BLS12-381 in Rust.
--
-- A circuit is written with the composer (src/composer.rs): each method appends witnesses, which
-- hold scalars, and gates, which are equations between the values of four witnesses. The
-- permutation (src/composer/permutation.rs) records which wires of which gates hold a witness;
-- from it come the sigma permutations, by which the proof system enforces that all wires of a
-- witness hold one value. The constraint builder (src/composer/constraint_system/) prepares a
-- gate. Prover and verifier work on the gates of a finished composer: each widget
-- (src/proof_system/widget/) adds the term of one kind of gate to the quotient polynomial, and
-- the polynomials themselves are coefficient vectors (src/fft/polynomial.rs).
--
-- What models what:
-- - Scalar: the field BlsScalar of the crate dusk-bls12_381, as a record of operations and laws,
--   since its code is elsewhere. Scalar.Ring decides equations of commutative rings, and
--   Scalar.Numerals equations between numerals. Scalar.Bits is the scalar's binary form and its
--   bytes.
-- - JubJub: the embedded curve of the crate dusk-jubjub, by its coordinates and its addition.
-- - Wires, Constraint: src/composer/constraint_system/*.rs. An array that the code indexes by an
--   enumeration is a function of that enumeration.
-- - Permutation: src/composer/permutation.rs. A hash map is an association list in the order in
--   which it is iterated; the theorems hold for every order. A failed assertion or an index out
--   of bounds is `none`.
-- - Error: src/error.rs, and Outcome, the three ways in which a method ends: a value, an error, a
--   panic.
-- - BitIterator: src/bit_iterator.rs, an iterator as a function to the item and the next state.
-- - Composer.State, Composer.Base, Composer.Components, Composer.Points, Composer.Quads and
--   Composer.Inputs: src/composer.rs and src/composer/gate.rs, in a state monad with those
--   outcomes. A const parameter such as BIT_PAIRS is an argument. The runtime's events do
--   nothing without the feature `debug`, and are left out, but for the read of the witness that
--   they report.
-- - Composer.Gadget says when the values of the witnesses satisfy the gates, by the equation of
--   the arithmetic widget (src/proof_system/widget/arithmetic/proverkey.rs) and the public
--   inputs. A `Gadget n R` is a step of the composer by n gates that force R and hold where R is
--   met by the composer's own values; `Enforces R` is one gate that holds exactly where R is met,
--   by the composer's own values or any others; `Forces` and `Produces` add that the composer's
--   own values meet R. A method that `Returns` neither fails nor panics. Composer.Addition reads
--   the two gates of a point addition with the curve addition widget too, and
--   Composer.LogicRows and Composer.RangeRows the consecutive gates of a bitwise operation and of a
--   range check with the logic and range widgets.
-- - Polynomial: src/fft/polynomial.rs, and powers_of of src/util.rs. A polynomial is its
--   coefficient vector; `none` is a failed assertion or an index out of bounds.
-- - Inversion: batch_inversion of src/util.rs. Domain: src/fft/domain.rs but for its transforms,
--   with the roots of unity of the field as the record Scalar.Roots.Roots, and
--   compute_first_lagrange_evaluation of src/proof_system/proof.rs.
-- - Group: the groups and the pairing of the crate dusk-bls12_381, as records of operations and
--   laws. Kzg: src/commitment_scheme/kzg10/*.rs over such groups, with the draws of the random
--   generator and the challenge of the transcript as arguments.
-- - Widget: compute_quotient_i, delta and delta_xor_and of src/proof_system/widget/*/proverkey.rs
--   for the arithmetic, range, logic, fixed-base and curve addition widgets. The evaluations of a
--   selector polynomial are a list. Widget.Linearization and Widget.Commitment are
--   compute_linearization and compute_linearization_commitment of the same widgets, and their
--   sums in src/proof_system/linearization_poly.rs and src/proof_system/proof.rs; Widget.Equation
--   is the circuit part of src/proof_system/quotient_poly.rs at one index. Widget.Permutation is
--   the whole of src/proof_system/widget/permutation/*.rs.
-- - Proving: `compute` of src/proof_system/linearization_poly.rs, and of
--   src/proof_system/proof.rs what the verifier computes in its place: the evaluation of the public
--   inputs, the constant r_0 and the commitment to the linearisation. Proving.Verify is
--   `Proof::verify`, with the challenges of the transcript as arguments.
--
-- Loops are recursions on the list they go over or on the rounds that are left. The collection of
-- the bit iterator is given one round more than it has bits, which is the call that finds the end,
-- and fails without it; that of a domain's elements fails if its rounds do not reach the end. The
-- search for the size of a domain goes over the 64 powers of two of a machine word. A usize has 64
-- bits: where a caller's number is added to or doubled, the wrap-around of the release profile is
-- written out.
--
-- Not modelled: the fixed-base multiplication of the composer, the polynomials behind the
-- permutation argument, the Fourier transforms, the transcript, the rest of prover and verifier,
-- and compression and serialisation, which call other crates for most of their work.
-- That the logic and range widgets force their digits is stated in Widget at one row, not over the
-- rows of a composer.
pub mod Prelude
pub mod Scalar
pub mod Group
pub mod JubJub
pub mod Error
pub mod BitIterator
pub mod Inversion
pub mod Wires
pub mod Constraint
pub mod Permutation
pub mod Composer
pub mod Polynomial
pub mod Domain
pub mod Widget
pub mod Kzg
pub mod Proving
pub mod Tests
