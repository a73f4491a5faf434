-- ===== src/Composer/Inputs.antt =====
-- The public inputs of a composer, and its use by the prover.
use plonk.Prelude.{ℕ, ◌==◌, leb, if◌then◌else◌, Option, none, some, List, [], ◌∷◌, map, lookup}
use plonk.Scalar.{Scalar}
use plonk.Error.{Error, Outcome, ok}
use plonk.Composer.State.{Composer, M, ◌>>=◌, ret, fail, constraints, uninitialized}
use plonk.Composer.Base.{initialized}
use plonk.Composer.Quads.{replicate, modify_at}

-- `sort`, of the standard library.
abbrev pub sorted_insert : ℕ → List ℕ → List ℕ
sorted_insert k [] = k ∷ []
sorted_insert k (j ∷ js) = if leb k j then k ∷ j ∷ js else j ∷ sorted_insert k js

abbrev pub sort : List ℕ → List ℕ
sort [] = []
sort (k ∷ ks) = sorted_insert k (sort ks)

module _ {F : Type 0} where
  unfoldable pub public_input_indexes : Composer F → List ℕ
  public_input_indexes c = sort (map (λ p. p.0) c.public_inputs)

  unfoldable pub values_of : List (ℕ × F) → List ℕ → List F
  values_of pis [] = []
  values_of pis (idx ∷ is) =
      let rest = values_of pis is in elim (lookup idx pis) [ none ↦ rest | some v ↦ v ∷ rest ]

  unfoldable pub public_inputs : Composer F → List F
  unfolding values_of public_input_indexes
  public_inputs c = values_of c.public_inputs (public_input_indexes c)

  unfoldable pub write_inputs : List ℕ → List F → List F → Option (List F)
  write_inputs (idx ∷ is) (pi ∷ pis) dense = elim (modify_at idx (λ _. pi) dense) [
    | none ↦ none
    | some dense' ↦ write_inputs is pis dense'
  ]
  write_inputs [] pis dense = some dense
  write_inputs (idx ∷ is) [] dense = some dense

module _ {F : Type 0} ⦃s : Scalar F⦄ where
  -- `none` is the panic of an index that is not below the size.
  unfoldable pub dense_public_inputs : List ℕ → List F → ℕ → Option (List F)
  dense_public_inputs public_input_indexes public_inputs size =
      write_inputs public_input_indexes public_inputs (replicate size s.zero)

  unfoldable pub check_size : ℕ → M F (Unit {0})
  check_size expected = do
    description_size ← λ c. ok (constraints c, c)
    (if description_size == expected
        then ret tt
        else fail (Error.invalid_circuit_size description_size expected))

  unfoldable pub prove : ℕ → M F (Unit {0}) → Outcome (Unit {0} × Composer F)
  prove expected circuit = (do _ ← λ _. initialized; _ ← circuit; check_size expected) uninitialized
