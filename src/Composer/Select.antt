-- ===== src/Composer/Select.antt =====
-- The selection gadgets: `component_select`, `component_select_one`, `component_select_zero` and
-- their versions for points.
use plonk.Prelude.{ℕ, ◌≡◌, refl, sym, ap, ap₂, ◌∙◌, length, get_elem?-of_lt, [], ◌∷◌, arith}
use plonk.Scalar.{Scalar, ◌⊕◌, ◌⊖◌, ◌⊗◌}
use plonk.Scalar.Ring.{var, :0, :1, ◌:+◌, ◌:-◌, ◌:*◌, :neg, ring}
use plonk.Scalar.Laws.{from-one, eq_of_sub, sub_of_eq}
use plonk.Wires.{Witness, WitnessPoint}
use plonk.Constraint.{Constraint, new, ◌▹◌}
use plonk.Constraint
use plonk.Composer.State.{Composer}
use plonk.Composer.Base.{minus_one}
use plonk.Composer.Components.{
  component_select, component_select_one, component_select_zero, component_select_point,
  component_select_identity,
}
use plonk.Composer.Returns.{returns, Returns, Returns-bind, Returns-map}
use plonk.Composer.Gadget.{
  IsValid, Below, PointBelow, Gadget-map, Gadget-Agrees, Gadget-trans, Forces-trans, Forces-map,
  Produces,
}
use plonk.Composer.Append.{Returns-index, append_witness_lem, append_gate_lem}
use plonk.Composer.Output.{combination, gate_add_lem, gate_mul_lem}
use plonk.Composer.Asserts.{gate_expr, Left}

module _ {F : Type 0} ⦃s : Scalar F⦄ where
  -- The product of two witnesses, as `gate_mul` gives it for `mult(1)`.
  product :
      (x : ℕ → F) (a b : Witness)
      → combination (new ▹ Constraint.mult (s.from 1) ▹ Constraint.a a ▹ Constraint.b b) x
        ≡ x a.index ⊗ x b.index
  product x a b = rw from-one (
      ring (x a.index ∷ x b.index ∷ x 0 ∷ [])
        (:1 :* var 0 :* var 1 :+ :0 :* var 0 :+ :0 :* var 1 :+ :0 :* var 2 :+ :0 :+ :0)
        (var 0 :* var 1) refl)

  complement :
      (x : ℕ → F) (bit : Witness)
      → combination
          (new ▹ Constraint.left minus_one ▹ Constraint.constant (s.from 1) ▹ Constraint.a bit)
          x
        ≡ s.one ⊖ x bit.index
  complement x bit = rw from-one (
      ring (x bit.index ∷ x 0 ∷ [])
        (:0 :* var 0 :* var 1 :+ :neg :1 :* var 0 :+ :0 :* var 1 :+ :0 :* var 1 :+ :1 :+ :0)
        (:1 :- var 0) refl)

  sum :
      (x : ℕ → F) (a b : Witness)
      → combination
          (new
            ▹ Constraint.left (s.from 1)
            ▹ Constraint.right (s.from 1)
            ▹ Constraint.a a
            ▹ Constraint.b b)
          x
        ≡ x a.index ⊕ x b.index
  sum x a b = rw from-one (
      ring (x a.index ∷ x b.index ∷ x 0 ∷ [])
        (:0 :* var 0 :* var 1 :+ :1 :* var 0 :+ :1 :* var 1 :+ :0 :* var 2 :+ :0 :+ :0)
        (var 0 :+ var 1) refl)

  -- `bit * a + (1 - bit) * b`
  abbrev pub selected : F → F → F → F
  selected bit a b = (s.one ⊖ bit) ⊗ b ⊕ bit ⊗ a

  module _ (bit a b : Witness) where
    selection :
        (w1 w2 w3 w4 : Witness) (x : ℕ → F)
        → x w1.index
          ≡ combination (new ▹ Constraint.mult (s.from 1) ▹ Constraint.a bit ▹ Constraint.b a) x
        → x w2.index
          ≡ combination
              (new ▹ Constraint.left minus_one ▹ Constraint.constant (s.from 1) ▹ Constraint.a bit)
              x
        → x w3.index
          ≡ combination (new ▹ Constraint.mult (s.from 1) ▹ Constraint.a w2 ▹ Constraint.b b) x
        → x w4.index
          ≡ combination
              (new
                ▹ Constraint.left (s.from 1)
                ▹ Constraint.right (s.from 1)
                ▹ Constraint.a w3
                ▹ Constraint.b w1)
              x
        → x w4.index ≡ selected (x bit.index) (x a.index) (x b.index)
    selection w1 w2 w3 w4 x e1 e2 e3 e4 =
        e4
        ∙ sum x w3 w1
        ∙ ap₂ s.add (e3 ∙ product x w2 b ∙ ap (λ t. t ⊗ x b.index) (e2 ∙ complement x bit))
            (e1 ∙ product x bit a)

    -- On known witnesses the selection returns a witness and appends four gates that force it to
    -- be bit * a + (1 - bit) * b for any values of the witnesses, and that the composer's own
    -- values satisfy.
    pub component_select_lem :
        (c : Composer F)
        → IsValid c
        → Below bit (length c.witnesses)
        → Below a (length c.witnesses)
        → Below b (length c.witnesses)
        → Returns
            (Produces Below 4 (λ w x. x w.index ≡ selected (x bit.index) (x a.index) (x b.index)) c)
            (component_select bit a b c)
    unfolding component_select
    component_select_lem c h hbit ha hb =
        Returns-bind _ _ c (gate_mul_lem _ c h (hbit, ha, omega (arith, hbit)) refl) λ w1 c1 p1.
          let f1 = p1.forces in
          Returns-bind _ _ c1
            (gate_add_lem _ c1 f1.gadget.valid (omega (arith, f1.gadget.grows, hbit)) refl)
            λ w2 c2 p2.
              let f2 = p2.forces in
              Returns-bind _ _ c2
                (gate_mul_lem _ c2 f2.gadget.valid
                  (omega (arith, f1.gadget.grows, f2.gadget.grows, p2.known, hb)) refl)
                λ w3 c3 p3.
                  let f3 = p3.forces in
                  Returns-map
                    (gate_add_lem _ c3 f3.gadget.valid
                      (omega (arith, p1.known, f2.gadget.grows, f3.gadget.grows, p3.known)) refl)
                    λ w4 c4 p4. record {
                      forces =
                          Forces-map (Forces-trans f1 (Forces-trans f2 (Forces-trans f3 p4.forces)))
                            (λ x r. selection w1 w2 w3 w4 x r.0 r.1.0 r.1.1.0 r.1.1.1);
                      known = p4.known;
                    }

  pub component_select_zero_lem :
      (bit value : Witness) (c : Composer F)
      → IsValid c
      → Below bit (length c.witnesses)
      → Below value (length c.witnesses)
      → Returns
          (Produces Below 1 (λ w x. x w.index ≡ x bit.index ⊗ x value.index) c)
          (component_select_zero bit value c)
  unfolding component_select_zero
  component_select_zero_lem bit value c h hbit hv =
      Returns-map (gate_mul_lem _ c h (hbit, hv, omega (arith, hbit)) refl) λ w c' p. record {
        forces = Forces-map p.forces (λ x e. e ∙ product x bit value);
        known = p.known;
      }

  pub component_select_one_lem :
      (bit value : Witness) (c : Composer F)
      → IsValid c
      → Below bit (length c.witnesses)
      → Below value (length c.witnesses)
      → Returns
          (Produces Below 1
            (λ w x. x w.index ≡ s.one ⊖ x bit.index ⊕ x bit.index ⊗ x value.index)
            c)
          (component_select_one bit value c)
  unfolding component_select_one
  component_select_one_lem bit value c h hbit hv =
      let (vb, eb) = get_elem?-of_lt c.witnesses bit.index hbit in
      let (vv, ev) = get_elem?-of_lt c.witnesses value.index hv in
      Returns-index _ vb _ c eb (
        Returns-index _ vv _ c ev (
          Returns-bind _ _ c (append_witness_lem (s.one ⊖ vb ⊕ vb ⊗ vv) c h) λ w c' a.
            Returns-bind _ _ c'
              (append_gate_lem _ c' a.gadget.valid
                (omega (arith, hbit, hv, a.known, a.gadget.grows)))
              λ _ d g. returns w d (record {
                forces = record {
                  gadget =
                      Gadget-map (Gadget-trans a.gadget g)
                        (λ x r. sym (eq_of_sub _ _ (sym (difference w x) ∙ r.1)))
                        (λ x _ r. (tt, difference w x ∙ sub_of_eq _ _ (sym r)));
                  honest = λ x agrees.
                      let old = Gadget-Agrees a.gadget (Gadget-Agrees g agrees) in
                      agrees w.index _ (g.keeps w.index _ a.value)
                      ∙ ap₂ (λ t u. s.one ⊖ t ⊕ t ⊗ u) (sym (old _ vb eb)) (sym (old _ vv ev));
                };
                known = omega (arith, a.known, g.grows);
              })))
    where
      difference :
          (w : Witness) (x : ℕ → F)
          → Left
              (new
                ▹ Constraint.mult (s.from 1)
                ▹ Constraint.left minus_one
                ▹ Constraint.output minus_one
                ▹ Constraint.constant (s.from 1)
                ▹ Constraint.a bit
                ▹ Constraint.b value
                ▹ Constraint.c w)
              x
            ≡ (s.one ⊖ x bit.index ⊕ x bit.index ⊗ x value.index) ⊖ x w.index
      difference w x = rw from-one (
          ring (x bit.index ∷ x value.index ∷ x w.index ∷ x 0 ∷ [])
            (gate_expr (var 0) (var 1) (var 2) (var 3) :1 (:neg :1) :0 (:neg :1) :0 :1 :0 :1)
            ((:1 :- var 0 :+ var 0 :* var 1) :- var 2) refl)

  -- On known witnesses eight gates are appended that force both coordinates to be selected by the
  -- same bit, and that the composer's own values satisfy.
  pub component_select_point_lem :
      (bit : Witness) (a b : WitnessPoint) (c : Composer F)
      → IsValid c
      → Below bit (length c.witnesses)
      → PointBelow a (length c.witnesses)
      → PointBelow b (length c.witnesses)
      → Returns
          (Produces PointBelow 8
            (λ w x.
              (x w.x.index ≡ selected (x bit.index) (x a.x.index) (x b.x.index))
              × (x w.y.index ≡ selected (x bit.index) (x a.y.index) (x b.y.index)))
            c)
          (component_select_point bit a b c)
  unfolding component_select_point
  component_select_point_lem bit a b c h hbit ha hb =
      Returns-bind _ _ c (component_select_lem bit a.x b.x c h hbit ha.0 hb.0) λ x c1 p1.
        let g1 = p1.forces.gadget in
        Returns-bind _ _ c1
          (component_select_lem bit a.y b.y c1 g1.valid (omega (arith, hbit, g1.grows))
            (omega (arith, ha, g1.grows)) (omega (arith, hb, g1.grows)))
          λ y c2 p2. returns _ c2 (record {
            forces = Forces-trans p1.forces p2.forces;
            known = omega (arith, p1.known, p2.known, p2.forces.gadget.grows);
          })

  -- On known witnesses two gates are appended that force the resulting point to be (bit * x, 1 -
  -- bit + bit * y), and that the composer's own values satisfy.
  pub component_select_identity_lem :
      (bit : Witness) (a : WitnessPoint) (c : Composer F)
      → IsValid c
      → Below bit (length c.witnesses)
      → PointBelow a (length c.witnesses)
      → Returns
          (Produces PointBelow 2
            (λ w x.
              (x w.x.index ≡ x bit.index ⊗ x a.x.index)
              × (x w.y.index ≡ s.one ⊖ x bit.index ⊕ x bit.index ⊗ x a.y.index))
            c)
          (component_select_identity bit a c)
  unfolding component_select_identity
  component_select_identity_lem bit a c h hbit ha =
      Returns-bind _ _ c (component_select_zero_lem bit a.x c h hbit ha.0) λ x c1 p1.
        let g1 = p1.forces.gadget in
        Returns-bind _ _ c1
          (component_select_one_lem bit a.y c1 g1.valid (omega (arith, hbit, g1.grows))
            (omega (arith, ha, g1.grows)))
          λ y c2 p2. returns _ c2 (record {
            forces = Forces-trans p1.forces p2.forces;
            known = omega (arith, p1.known, p2.known, p2.forces.gadget.grows);
          })
