-- ===== src/Composer/Asserts.antt =====
-- Methods that put a condition on known witnesses: `assert_equal`, `assert_equal_constant`,
-- `component_boolean`, and the witnesses that are constants or public.
use plonk.Prelude.{
  ℕ, ◌<◌, ◌≡◌, ◌⊎◌, inl, inr, refl, sym, ◌∙◌, subst, lookup, Option, none, some, length, [], ◌∷◌,
  arith,
}
use plonk.Prelude.{◌++◌}
use plonk.Scalar.{Scalar, ◌⊕◌, ◌⊖◌, ◌⊗◌}
use plonk.Scalar.Ring.{Expr, var, :0, :1, ◌:+◌, ◌:-◌, ◌:*◌, :neg, ring, add-zero}
use plonk.Scalar.Laws.{from-one, eq_of_sub, sub_of_eq, mul-eq_zero}
use plonk.Wires.{Witness, zero_witness}
use plonk.Constraint.{Constraint, new, ◌▹◌}
use plonk.Constraint
use plonk.Composer.State.{Composer, Gate, gate_of}
use plonk.Composer.Base.{
  minus_one, assert_equal, assert_equal_constant, append_constant, append_public,
}
use plonk.Composer.Components.{component_boolean}
use plonk.Composer.Returns.{Returns, returns, Returns-bind, Returns-map}
use plonk.Composer.Gadget.{
  IsValid, gate_value, or_zero, Below, Enforces, Enforces-map, Gadget, Gadget-map, Gadget-trans,
  Produces,
}
use plonk.Composer.Append.{public_input, append_witness_lem, append_gate-AppendsGate}

-- The left side of an arithmetic gate's equation, from its wires, selectors and public input.
abbrev pub gate_expr : (a b c d qm ql qr qo qf qc pi q_arith : Expr) → Expr
gate_expr a b c d qm ql qr qo qf qc pi q_arith =
    (a :* b :* qm :+ a :* ql :+ b :* qr :+ c :* qo :+ d :* qf :+ qc) :* q_arith :+ pi

module _ {F : Type 0} ⦃s : Scalar F⦄ where
  abbrev pub Left : Constraint F → (ℕ → F) → F
  Left k x =
      gate_value (gate_of (Constraint.arithmetic k)) x ⊕ public_input (Constraint.arithmetic k)

  -- The appended gate forces the two witnesses to have one value.
  pub assert_equal_gate_lem :
      (a b : Witness) (c : Composer F)
      → IsValid c
      → a.index < length c.witnesses
      → b.index < length c.witnesses
      → Returns
          (λ _ c'.
            Gadget 1 (λ x. x a.index ≡ x b.index) c c'
            × (g : Gate F) × (c'.constraints ≡ c.constraints ++ g ∷ []))
          (assert_equal a b c)
  unfolding assert_equal
  assert_equal_gate_lem a b c h ha hb =
      Returns-map (append_gate-AppendsGate _ c h (ha, hb, omega arith, omega arith)) λ _ c' g. (
        Gadget-map g.enforces.gadget (λ x e. eq_of_sub _ _ (sym (difference x) ∙ e))
            (λ x _ e. difference x ∙ sub_of_eq _ _ e),
        g.gate,
        g.appended,
      )
    where
      difference :
          (x : ℕ → F)
          → Left
              (new
                ▹ Constraint.left (s.from 1)
                ▹ Constraint.right minus_one
                ▹ Constraint.a a
                ▹ Constraint.b b)
              x
            ≡ x a.index ⊖ x b.index
      difference x = rw from-one (
          ring (x a.index ∷ x b.index ∷ x 0 ∷ [])
            (gate_expr (var 0) (var 1) (var 2) (var 2) :0 :1 (:neg :1) :0 :0 :0 :0 :1)
            (var 0 :- var 1) refl)

  pub assert_equal_lem :
      (a b : Witness) (c : Composer F)
      → IsValid c
      → a.index < length c.witnesses
      → b.index < length c.witnesses
      → Returns (λ _. Gadget 1 (λ x. x a.index ≡ x b.index) c) (assert_equal a b c)
  assert_equal_lem a b c h ha hb = Returns-map (assert_equal_gate_lem a b c h ha hb) λ _ c' g. g.0

  -- On a known witness one gate is appended, and any values of the witnesses, the composer's own
  -- or not, satisfy the arithmetic equations afterwards exactly if they did before and give the
  -- witness the constant plus the public input, if there is one. The public input of the new gate
  -- is the given one, or none.
  pub assert_equal_constant_lem :
      (a : Witness) (constant : F) (public : Option F) (c : Composer F)
      → IsValid c
      → a.index < length c.witnesses
      → Returns
          (λ _ c'.
            Enforces (λ x. x a.index ≡ constant ⊕ or_zero public) c c'
            × (lookup (length c.constraints) c'.public_inputs ≡ public))
          (assert_equal_constant a constant public c)
  unfolding assert_equal_constant
  assert_equal_constant_lem a constant none c h ha =
      Returns-map (append_gate-AppendsGate _ c h (ha, omega arith, omega arith, omega arith))
        λ _ c' g. (
          Enforces-map g.enforces (λ x e. sym (eq_of_sub _ _ (sym (difference x) ∙ e)))
              (λ x e. difference x ∙ sub_of_eq _ _ (sym e)),
          g.public_entry,
        )
    where
      difference :
          (x : ℕ → F)
          → Left (new ▹ Constraint.left minus_one ▹ Constraint.a a ▹ Constraint.constant constant) x
            ≡ (constant ⊕ s.zero) ⊖ x a.index
      difference x = rw from-one (
          ring (x a.index ∷ x 0 ∷ constant ∷ [])
            (gate_expr (var 0) (var 1) (var 1) (var 1) :0 (:neg :1) :0 :0 :0 (var 2) :0 :1)
            (var 2 :+ :0 :- var 0) refl)
  assert_equal_constant_lem a constant (some p) c h ha =
      Returns-map (append_gate-AppendsGate _ c h (ha, omega arith, omega arith, omega arith))
        λ _ c' g. (
          Enforces-map g.enforces (λ x e. sym (eq_of_sub _ _ (sym (difference x) ∙ e)))
              (λ x e. difference x ∙ sub_of_eq _ _ (sym e)),
          g.public_entry,
        )
    where
      difference :
          (x : ℕ → F)
          → Left
              (new
                ▹ Constraint.left minus_one
                ▹ Constraint.a a
                ▹ Constraint.constant constant
                ▹ Constraint.public p)
              x
            ≡ (constant ⊕ p) ⊖ x a.index
      difference x = rw from-one (
          ring (x a.index ∷ x 0 ∷ constant ∷ p ∷ [])
            (gate_expr (var 0) (var 1) (var 1) (var 1) :0 (:neg :1) :0 :0 :0 (var 2) (var 3) :1)
            (var 2 :+ var 3 :- var 0) refl)

  -- On a known witness one gate is appended, and any values of the witnesses, the composer's own
  -- or not, satisfy the arithmetic equations afterwards exactly if they did before and give the
  -- witness zero or one.
  pub component_boolean_lem :
      (a : Witness) (c : Composer F)
      → IsValid c
      → a.index < length c.witnesses
      → Returns
          (λ _. Enforces (λ x. (x a.index ≡ s.zero) ⊎ (x a.index ≡ s.one)) c)
          (component_boolean a c)
  unfolding component_boolean
  component_boolean_lem a c h ha =
      Returns-map (append_gate-AppendsGate _ c h (ha, ha, ha, omega arith)) λ _ c' g.
        Enforces-map g.enforces (λ x e. boolean (x a.index) (sym (factors x) ∙ e))
          (λ x e. factors x ∙ vanishes (x a.index) e)
    where
      factors :
          (x : ℕ → F)
          → Left
              (new
                ▹ Constraint.mult (s.from 1)
                ▹ Constraint.output minus_one
                ▹ Constraint.a a
                ▹ Constraint.b a
                ▹ Constraint.c a
                ▹ Constraint.d zero_witness)
              x
            ≡ x a.index ⊗ (x a.index ⊖ s.one)
      factors x = rw from-one (
          ring (x a.index ∷ x 0 ∷ [])
            (gate_expr (var 0) (var 0) (var 0) (var 1) :1 :0 :0 (:neg :1) :0 :0 :0 :1)
            (var 0 :* (var 0 :- :1)) refl)

      boolean : (v : F) → v ⊗ (v ⊖ s.one) ≡ s.zero → (v ≡ s.zero) ⊎ (v ≡ s.one)
      boolean v e = elim (mul-eq_zero v (v ⊖ s.one) e) [
        | inl z ↦ inl z
        | inr o ↦ inr (eq_of_sub v s.one o)
      ]

      vanishes : (v : F) → (v ≡ s.zero) ⊎ (v ≡ s.one) → v ⊗ (v ⊖ s.one) ≡ s.zero
      vanishes v (inl z) = rw z (ring [] (:0 :* (:0 :- :1)) :0 refl)
      vanishes v (inr o) = rw o (ring [] (:1 :* (:1 :- :1)) :0 refl)

  -- A constant witness can only have that value.
  pub append_constant_lem :
      (v : F) (c : Composer F)
      → IsValid c
      → Returns (Produces Below 1 (λ w x. x w.index ≡ v) c) (append_constant v c)
  unfolding append_constant
  append_constant_lem v c h = Returns-bind _ _ c (append_witness_lem v c h) λ w c' a.
      Returns-bind _ _ c' (assert_equal_constant_lem w v none c' a.gadget.valid a.known) λ _ d e.
        let g = e.0.gadget in
        returns w d (record {
          forces = record {
            gadget =
                Gadget-map (Gadget-trans a.gadget g) (λ x r. r.1 ∙ add-zero v)
                  (λ x _ r. (tt, r ∙ sym (add-zero v)));
            honest = λ x agrees. agrees w.index v (g.keeps w.index v a.value);
          };
          known = omega (arith, a.known, g.grows);
        })

  -- A new witness is appended with one gate that forces it to be the given value, which the
  -- composer's own values meet, and the public input stored for this gate is this value.
  pub append_public_lem :
      (v : F) (c : Composer F)
      → IsValid c
      → Returns
          (λ w c'.
            Produces Below 1 (λ w x. x w.index ≡ v) c w c'
            × (lookup (length c.constraints) c'.public_inputs ≡ some v))
          (append_public v c)
  unfolding append_public
  append_public_lem v c h = Returns-bind _ _ c (append_witness_lem v c h) λ w c' a.
      Returns-bind _ _ c'
        (append_gate-AppendsGate _ c' a.gadget.valid
          (a.known, omega (arith, a.known), omega (arith, a.known), omega (arith, a.known)))
        λ _ d e.
          let g = e.enforces.gadget in
          returns w d (
            record {
              forces = record {
                gadget =
                    Gadget-map (Gadget-trans a.gadget g)
                      (λ x r. sym (eq_of_sub _ _ (sym (difference w x) ∙ r.1)))
                      (λ x _ r. (tt, difference w x ∙ sub_of_eq _ _ (sym r)));
                honest = λ x agrees. agrees w.index v (g.keeps w.index v a.value);
              };
              known = omega (arith, a.known, g.grows);
            },
            subst (λ n. lookup n d.public_inputs ≡ some v) (omega (arith, a.gadget.count))
                e.public_entry,
          )
    where
      difference :
          (w : Witness) (x : ℕ → F)
          → Left (new ▹ Constraint.left minus_one ▹ Constraint.a w ▹ Constraint.public v) x
            ≡ v ⊖ x w.index
      difference w x = rw from-one (
          ring (x w.index ∷ x 0 ∷ v ∷ [])
            (gate_expr (var 0) (var 1) (var 1) (var 1) :0 (:neg :1) :0 :0 :0 :0 (var 2) :1)
            (var 2 :- var 0) refl)
