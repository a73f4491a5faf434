-- ===== src/Composer/Bitwise.antt =====
-- The bitwise operations of the composer, append_logic_component: the number in the witness that
-- they return, and their gates.
use plonk.Prelude.{ℕ, zero, ◌≡◌, Bool, List, [], ◌∷◌}
use plonk.Scalar.{Scalar}
use plonk.Wires.{Witness}
use plonk.Constraint.{Constraint, coeff, set_witness, ◌▹◌}
use plonk.Constraint
use plonk.Composer.State.{Composer}
use plonk.Composer.Returns.{Returns}
use plonk.Composer.Append.{Returns-index, append_witness_lem}
use plonk.Composer.Append.{Returns-index, append_witness_lem}
use plonk.Prelude.{◌++◌}
use plonk.Composer.State.{Gate}
use plonk.Composer.Gadget.{Agrees}
use plonk.Composer.LogicRows.{LogicRows, OnWires, OnHead}

module _ {F : Type 0} ⦃s : Scalar F⦄ where
  -- The wires of a round's accumulators, set for the next gate.
  abbrev next_wires : Witness → Witness → Witness → Constraint F → Constraint F
  next_wires wa wb wd k = k ▹ Constraint.a wa ▹ Constraint.b wb ▹ Constraint.d wd

  -- The gates `gs` that lead from the constraint `k` to `k'`: followed by a gate that is not
  -- selected and has the wires of `k'`, they are rows of the widget at the composer's own values.
  record Rows (is_xor : Bool) (k k' : Constraint F) (c c' : Composer F) : Type 0 where
    gates : List (Gate F)
    added : c'.constraints ≡ c.constraints ++ gates
    rows :
        (g : Gate F)
        → OnWires k' g
        → g.q_logic ≡ s.zero
        → (x : ℕ → F) → Agrees x c'
        → (t : F) → OnHead k (gates ++ g ∷ []) × LogicRows is_xor x t (gates ++ g ∷ [])

  -- The appended gates are rows of the logic widget at the composer's own values.
  pub record AppendsRows (is_xor : Bool) (c c' : Composer F) : Type 0 where
    pub new_gates : List (Gate F)
    pub appended_all : c'.constraints ≡ c.constraints ++ new_gates
    pub own_rows : (x : ℕ → F) → Agrees x c' → (t : F) → LogicRows is_xor x t new_gates
