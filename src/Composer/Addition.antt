-- ===== src/Composer/Addition.antt =====
-- The addition of two points of the embedded curve by the composer.
use plonk.Prelude.{ℕ, ◌≡◌, [], ◌∷◌, ◌++◌, some, get_elem?}
use plonk.Scalar.{Scalar}
use plonk.JubJub.{JubJub}
use plonk.Wires.{Witness, WitnessPoint}
use plonk.Constraint.{Constraint, new, ◌▹◌}
use plonk.Constraint
use plonk.Composer.State.{Composer, Gate}
use plonk.Composer.Returns.{Returns}
use plonk.Composer.Gadget.{Agrees}
use plonk.Widget.CurveAddition.{IsSum, Vanishes}

module _ {F : Type 0} ⦃s : Scalar F⦄ where
  -- The coordinates of the witness point are known and have these values.
  pub record HasCoordinates (c : Composer F) (p : WitnessPoint) (u v : F) : Type 0 where
    pub has_x : get_elem? c.witnesses p.x.index ≡ some u
    pub has_y : get_elem? c.witnesses p.y.index ≡ some v

  -- The term of the curve addition widget at two consecutive gates, with the challenge `k`, is zero
  -- at the values `x`.
  abbrev pub RowVanishes : (edwards_d : F) → Gate F → Gate F → (ℕ → F) → F → Type 0
  RowVanishes edwards_d row next x k =
      Vanishes edwards_d (row.q_variable_group_add ∷ []) 0 (x row.a.index) (x row.b.index)
        (x row.c.index) (x row.d.index) (x next.a.index) (x next.b.index) (x next.d.index) k

  -- By the law of the curve the value of `p` is the sum of the values of `a` and `b`.
  abbrev pub PointSum :
      (edwards_d : F) → WitnessPoint → WitnessPoint → WitnessPoint → (ℕ → F) → Type 0
  PointSum edwards_d a b p x =
      IsSum edwards_d (x a.x.index) (x a.y.index) (x b.x.index) (x b.y.index) (x p.x.index)
        (x p.y.index)

  -- From `c` to `c'` two gates were appended, the first of them selected by the widget. The widget
  -- forces the sum at any values, and the composer's own values meet it.
  pub record AddsPoint (edwards_d k l m : F) (a b p : WitnessPoint) (c c' : Composer F)
      : Type 0 where
    pub first_gate : Gate F
    pub second_gate : Gate F
    pub appended : c'.constraints ≡ c.constraints ++ first_gate ∷ second_gate ∷ []
    pub selected : first_gate.q_variable_group_add ≡ s.one
    pub unselected : second_gate.q_variable_group_add ≡ s.zero
    pub forced :
        (x : ℕ → F)
        → RowVanishes edwards_d first_gate second_gate x k
          × RowVanishes edwards_d first_gate second_gate x l
          × RowVanishes edwards_d first_gate second_gate x m
        → PointSum edwards_d a b p x
    pub honest :
        (x : ℕ → F) → Agrees x c' → (t : F) → RowVanishes edwards_d first_gate second_gate x t

  abbrev first_row : WitnessPoint → WitnessPoint → Constraint F
  first_row a b =
      Constraint.group_add_variable_base
        (new ▹ Constraint.a a.x ▹ Constraint.b a.y ▹ Constraint.c b.x ▹ Constraint.d b.y)

  abbrev second_row : WitnessPoint → Witness → Constraint F
  second_row p w = new ▹ Constraint.a p.x ▹ Constraint.b p.y ▹ Constraint.d w
