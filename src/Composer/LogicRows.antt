-- ===== src/Composer/LogicRows.antt =====
-- The consecutive gates of a bitwise operation, read with the logic widget.
use plonk.Prelude.{
  ℕ, ◌*◌, ◌+◌, ◌<◌, ◌≡◌, refl, ap, ◌∙◌, Bool, true, false, if◌then◌else◌, as_u64, some, List, [],
  ◌∷◌, arith,
}
use plonk.Scalar.{Scalar, ◌⊕◌, ◌⊖◌, ◌⊗◌}
use plonk.Scalar.Ring.{var, ◌:+◌, ◌:-◌, ◌:*◌, ring}
use plonk.Scalar.Laws.{from-one}
use plonk.Wires.{Selector, WiredWitness}
use plonk.Constraint.{Constraint, coeff, witness}
use plonk.Composer.State.{Gate}
use plonk.Composer.Quads.{logic_constraint, xor_quad, and_quad}
use plonk.Composer.Append.{IsGateOf}
use plonk.Widget.Quotient.{logic_quotient}
use plonk.Widget.Logic.{logic_sign, logic_quad, logic_quotient_vanishes}

quad_op :
    (is_xor : Bool) (m n : ℕ)
    → (if is_xor then xor_quad m n else and_quad m n) ≡ logic_quad is_xor m n
quad_op true m n = refl
quad_op false m n = refl

pub quad_below : (l r : Bool) → as_u64 l * 2 + as_u64 r < 4
quad_below l r = ground arith

module _ {F : Type 0} ⦃s : Scalar F⦄ where
  -- The term of the logic widget at two consecutive gates, with the challenge `t`, is zero at the
  -- values `x`.
  abbrev pub LogicRowVanishes : Gate F → Gate F → (ℕ → F) → F → Type 0
  LogicRowVanishes g g' x t =
      logic_quotient (record { q_c = g.q_c ∷ []; q_logic = g.q_logic ∷ [] }) 0 t (x g.a.index)
        (x g'.a.index) (x g.b.index) (x g'.b.index) (x g.c.index) (x g.d.index) (x g'.d.index)
      ≡ some s.zero

  -- Each gate but the last is selected by the widget for the operation, and the term is zero there;
  -- the last one is not selected.
  abbrev pub LogicRows : Bool → (ℕ → F) → F → List (Gate F) → Type 0
  LogicRows is_xor x t [] = Unit
  LogicRows is_xor x t (g ∷ []) = g.q_logic ≡ s.zero
  LogicRows is_xor x t (g ∷ g' ∷ gs) =
      (g.q_logic ≡ logic_sign is_xor)
      × (g.q_c ≡ logic_sign is_xor)
      × LogicRowVanishes g g' x t
      × LogicRows is_xor x t (g' ∷ gs)

  -- The gate has the accumulators of the constraint.
  abbrev pub OnWires : Constraint F → Gate F → Type 0
  OnWires k g =
      (g.a ≡ witness k WiredWitness.a)
      × (g.b ≡ witness k WiredWitness.b)
      × (g.d ≡ witness k WiredWitness.d)

  abbrev pub OnHead : Constraint F → List (Gate F) → Type 0
  OnHead k [] = 0 < 0
  OnHead k (g ∷ gs) = OnWires k g

  abbrev pub IsLogic : Bool → Constraint F → Type 0
  IsLogic is_xor k =
      (coeff k Selector.logic ≡ logic_sign is_xor) × (coeff k Selector.constant ≡ logic_sign is_xor)

  pub logic_constraint-IsLogic : (is_xor : Bool) → IsLogic is_xor (logic_constraint is_xor)
  logic_constraint-IsLogic true = (refl, refl)
  logic_constraint-IsLogic false = (from-one, from-one)

  -- One more gate before gates that start with its accumulators' successors.
  pub LogicRows-cons :
      (is_xor : Bool) (x : ℕ → F) (t : F) (k k' : Constraint F) (g : Gate F) (gs : List (Gate F))
      → IsLogic is_xor k
      → IsGateOf k g
      → ((g' : Gate F) → OnWires k' g' → LogicRowVanishes g g' x t)
      → OnHead k' gs
      → LogicRows is_xor x t gs
      → LogicRows is_xor x t (g ∷ gs)
  LogicRows-cons is_xor x t k k' g [] l h row head rows = absurd (omega (arith, head))
  LogicRows-cons is_xor x t k k' g (g' ∷ gs) l h row head rows =
      (h.from_logic ∙ l.0, h.from_constant ∙ l.1, row g' head, rows)

  extended : (v q : F) → (v ⊗ s.from 4 ⊕ q) ⊖ s.from 4 ⊗ v ≡ q
  extended v q =
      ring (v ∷ q ∷ s.from 4 ∷ []) ((var 0 :* var 2 :+ var 1) :- var 2 :* var 0) (var 1) refl

  -- The values that a round gives the wires of its gate and of the next one.
  pub round-LogicRowVanishes :
      (is_xor : Bool) (x : ℕ → F) (t l r o : F) (m n : ℕ) (k k' : Constraint F) (g g' : Gate F)
      → IsLogic is_xor k
      → IsGateOf k g
      → OnWires k' g'
      → m < 4
      → n < 4
      → x (witness k WiredWitness.a).index ≡ l
      → x (witness k WiredWitness.b).index ≡ r
      → x (witness k WiredWitness.d).index ≡ o
      → x (witness k WiredWitness.c).index ≡ s.from (m * n)
      → x (witness k' WiredWitness.a).index ≡ l ⊗ s.from 4 ⊕ s.from m
      → x (witness k' WiredWitness.b).index ≡ r ⊗ s.from 4 ⊕ s.from n
      → x (witness k' WiredWitness.d).index
        ≡ o ⊗ s.from 4 ⊕ s.from (if is_xor then xor_quad m n else and_quad m n)
      → LogicRowVanishes g g' x t
  round-LogicRowVanishes is_xor x t l r o m n k k' g g' logic h on hm hn ea eb ed ec ea' eb' ed' =
      rw
        (
          ap (λ w. x w.index) h.wire_a ∙ ea,
          ap (λ w. x w.index) h.wire_b ∙ eb,
          ap (λ w. x w.index) h.wire_c ∙ ec,
          ap (λ w. x w.index) h.wire_d ∙ ed,
          ap (λ w. x w.index) on.0 ∙ ea',
          ap (λ w. x w.index) on.1 ∙ eb',
          ap (λ w. x w.index) on.2 ∙ ed',
        )
        (logic_quotient_vanishes is_xor (record { q_c = g.q_c ∷ []; q_logic = g.q_logic ∷ [] }) 0 m
          n g.q_logic t _ _ _ _ _ _ refl (ap some (h.from_constant ∙ logic.1)) hm hn (extended l _)
          (extended r _) (extended o _ ∙ ap (λ z. s.from z) (quad_op is_xor m n)))
