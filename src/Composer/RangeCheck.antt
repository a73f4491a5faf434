-- ===== src/Composer/RangeCheck.antt =====
-- The range check of the composer: it returns, its last accumulator is the witness, and its gates
-- are rows of the range widget.
use plonk.Prelude.{ℕ, suc, ◌+◌, ◌<◌, ◌≡◌, min, some, List, [], ◌∷◌, ◌++◌, length, get_elem?}
use plonk.Scalar.{Scalar}
use plonk.Wires.{Witness}
use plonk.Constraint.{Constraint, set_witness}
use plonk.Constraint
use plonk.Composer.State.{Composer}
use plonk.Prelude.{suc, ◌++◌, [], ◌∷◌}
use plonk.Composer.State.{Gate}
use plonk.Constraint.{witness, coeff}
use plonk.Composer.Gadget.{Agrees}
use plonk.Prelude.{min}
use plonk.Composer.RangeRows.{RangeRowVanishes}
use plonk.Composer.Returns.{Returns}
use plonk.Composer.Gadget.{Gadget}

module _ {F : Type 0} ⦃s : Scalar F⦄ where
  -- The range check of the witness `w` by `gates` rows: the last accumulator is forced to be `w`,
  -- and at the composer's own values it is `value` and the gates are rows of the range widget.
  pub record AppendsRange (n gates value : ℕ) (w : Witness) (c c' : Composer F) : Type 0 where
    pub accumulator : Witness
    pub known_accumulator : get_elem? c'.witnesses accumulator.index ≡ some (s.from value)
    pub forces_last : Gadget n (λ x. x accumulator.index ≡ x w.index) c c'
    pub range_rows : List (Gate F)
    pub equality : Gate F
    pub appended_all : c'.constraints ≡ (c.constraints ++ range_rows) ++ equality ∷ []
    pub row_count : length range_rows ≡ gates + 1
    pub row_selected :
        (j : ℕ) (g : Gate F) → j < gates → get_elem? range_rows j ≡ some g → g.q_range ≡ s.one
    pub row_vanishes :
        (j : ℕ) (g g' : Gate F)
        → j < gates
        → get_elem? range_rows j ≡ some g
        → get_elem? range_rows (suc j) ≡ some g'
        → (x : ℕ → F) → Agrees x c'
        → (t : F) → RangeRowVanishes g g' x t
