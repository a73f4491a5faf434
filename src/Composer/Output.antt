-- ===== src/Composer/Output.antt =====
-- Gates whose output is computed: `append_evaluated_output`, `gate_add` and `gate_mul`.
use plonk.Prelude.{
  ℕ, ◌<◌, ◌≡◌, ◌≢◌, refl, sym, ap, ◌∙◌, Option, none, some, length, Bool-cases, Option-cases, inl,
  inr, get_elem?-of_lt, [], ◌∷◌, arith,
}
use plonk.Scalar.{Scalar, ◌⊕◌, ◌⊖◌, ◌⊗◌}
use plonk.Scalar.Ring.{var, :0, :1, ◌:+◌, ◌:-◌, ◌:*◌, :neg, ring}
use plonk.Scalar.Laws.{from-one, eq_of_sub, sub_of_eq}
use plonk.Wires.{Witness, Selector, WiredWitness}
use plonk.Constraint.{Constraint, coeff, witness, ◌▹◌}
use plonk.Constraint
use plonk.Composer.State.{Composer, gate_of, ◌>>=◌, ret}
use plonk.Composer.Base.{
  minus_one, append_gate, evaluated_output, append_output, append_evaluated_output, expect,
  gate_add, gate_mul,
}
use plonk.Composer.Returns.{Returns, returns, Returns-bind}
use plonk.Composer.Gadget.{
  IsValid, gate_value, Agrees, Gadget-Agrees, Gadget-trans, Gadget-map, Produces, Below,
}
use plonk.Composer.Append.{
  Appended, Returns-index, public_input, append_witness_lem, append_gate_lem,
}

module _ {F : Type 0} ⦃s : Scalar F⦄ where
  -- The value solves the gate's equation.
  evaluated_output-solves : (x y z : F) → evaluated_output x y ≡ some z → x ⊕ y ⊗ z ≡ s.zero
  unfolding evaluated_output
  evaluated_output-solves x y z h = elim (Bool-cases (s.beq y s.one)) [
    | inl e ↦
        let g : some (s.neg x) ≡ some z = rw e at h in
        let w : s.neg x ≡ z = cc in
        rw (← w, (s.beq_iff y s.one).0 e) (ring (x ∷ []) (var 0 :+ :1 :* :neg (var 0)) :0 refl)
    | inr e ↦ elim (Bool-cases (s.beq y minus_one)) [
      | inl f ↦
          let g : some x ≡ some z = rw (e, f) at h in
          let w : x ≡ z = cc in
          rw (← w, (s.beq_iff y minus_one).0 f) (ring (x ∷ []) (var 0 :+ :neg :1 :* var 0) :0 refl)
      | inr f ↦ elim (Option-cases (s.invert y)) [
        | inl g ↦ cc (rw (e, f, g) at h)
        | inr (i, g) ↦
            let g' : some (x ⊗ s.neg i) ≡ some z = rw (e, f, g) at h in
            let w : x ⊗ s.neg i ≡ z = cc in
            rw (← w) (
              ring (x ∷ y ∷ i ∷ []) (var 0 :+ var 1 :* (var 0 :* :neg (var 2)))
                (var 0 :- var 0 :* (var 1 :* var 2)) refl
              ∙ ap (λ t. x ⊖ x ⊗ t) (s.mul-invert y i g)
              ∙ ring (x ∷ []) (var 0 :- var 0 :* :1) :0 refl)
      ]
    ]
  ]

  -- There is none only if the output selector is zero.
  evaluated_output-none : (x y : F) → evaluated_output x y ≡ none → y ≡ s.zero
  unfolding evaluated_output
  evaluated_output-none x y h = ground (arith, s.invert-none y)

  -- The left side of a constraint's equation, but for its output term.
  abbrev pub combination : Constraint F → (ℕ → F) → F
  combination k x =
      let a = x (witness k WiredWitness.a).index in
      let b = x (witness k WiredWitness.b).index in
      let d = x (witness k WiredWitness.d).index in
      coeff k Selector.multiplication ⊗ a ⊗ b
      ⊕ coeff k Selector.left ⊗ a
      ⊕ coeff k Selector.right ⊗ b
      ⊕ coeff k Selector.fourth ⊗ d
      ⊕ coeff k Selector.constant
      ⊕ coeff k Selector.public_input

  abbrev pub Evaluated : Constraint F → Composer F → Option Witness → Composer F → Type 0
  Evaluated k c none c' = (c' ≡ c) × (coeff k Selector.output ≡ s.zero)
  Evaluated k c (some w) c' =
      (v : F) × Appended v c w c'
      × ((x : ℕ → F) → Agrees x c' → combination k x ⊕ coeff k Selector.output ⊗ v ≡ s.zero)

  append_output_lem :
      (k : Constraint F) (c : Composer F) (t : F)
      → IsValid c
      → ((x : ℕ → F) → Agrees x c → combination k x ≡ t)
      → (o : Option F) → evaluated_output t (coeff k Selector.output) ≡ o
      → Returns (Evaluated k c) (append_output o c)
  unfolding append_output
  append_output_lem k c t h known none e =
      returns none c (refl, evaluated_output-none t (coeff k Selector.output) e)
  append_output_lem k c t h known (some v) e =
      Returns-bind _ _ c (append_witness_lem v c h) λ w c' a. returns (some w) c' (
        v,
        a,
        λ x agrees.
            rw (known x (Gadget-Agrees a.gadget agrees))
              (evaluated_output-solves t (coeff k Selector.output) v e),
      )

  abbrev pub InputsBelow : Constraint F → ℕ → Type 0
  InputsBelow k n =
      ((witness k WiredWitness.a).index < n)
      × ((witness k WiredWitness.b).index < n)
      × ((witness k WiredWitness.d).index < n)

  -- On known inputs the method returns: with a witness whose value solves the constraint's
  -- equation, for any output selector, or with none, the composer unchanged and the output
  -- selector zero.
  pub append_evaluated_output_lem :
      (k : Constraint F) (c : Composer F)
      → IsValid c
      → InputsBelow k (length c.witnesses)
      → Returns (Evaluated k c) (append_evaluated_output k c)
  unfolding append_evaluated_output
  append_evaluated_output_lem k c h below =
      let (va, ea) = get_elem?-of_lt c.witnesses (witness k WiredWitness.a).index below.0 in
      let (vb, eb) = get_elem?-of_lt c.witnesses (witness k WiredWitness.b).index below.1 in
      let (vd, ed) = get_elem?-of_lt c.witnesses (witness k WiredWitness.d).index below.2 in
      Returns-index _ va _ c ea (
        Returns-index _ vb _ c eb (
          Returns-index _ vd _ c ed (
            append_output_lem k c _ h
              (λ x agrees. rw (agrees _ va ea, agrees _ vb eb, agrees _ vd ed)) _ refl)))

  minus_one-ne-zero : minus_one ≢ s.zero
  minus_one-ne-zero e =
      s.one-ne-zero
        (sym (s.zero-add s.one) ∙ ap (λ t. t ⊕ s.one) (sym e) ∙ ring [] (:neg :1 :+ :1) :0 refl)

  -- The equation of a gate with output selector minus one, solved for the output.
  gate_solved :
      (a b v d qm ql qr qf qc pi : F)
      → (a ⊗ b ⊗ qm ⊕ a ⊗ ql ⊕ b ⊗ qr ⊕ v ⊗ minus_one ⊕ d ⊗ qf ⊕ qc) ⊗ s.from 1 ⊕ pi
        ≡ (qm ⊗ a ⊗ b ⊕ ql ⊗ a ⊕ qr ⊗ b ⊕ qf ⊗ d ⊕ qc ⊕ pi) ⊖ v
  gate_solved a b v d qm ql qr qf qc pi = rw from-one (
      ring (a ∷ b ∷ v ∷ d ∷ qm ∷ ql ∷ qr ∷ qf ∷ qc ∷ pi ∷ [])
        ((var 0 :* var 1 :* var 4
              :+ var 0 :* var 5
              :+ var 1 :* var 6
              :+ var 2 :* :neg :1
              :+ var 3 :* var 7
              :+ var 8)
            :* :1
          :+ var 9)
        ((var 4 :* var 0 :* var 1
            :+ var 5 :* var 0
            :+ var 6 :* var 1
            :+ var 7 :* var 3
            :+ var 8
            :+ var 9)
          :- var 2)
        refl)

  minus_one-solves : (t v : F) → t ⊕ minus_one ⊗ v ≡ s.zero → v ≡ t
  minus_one-solves t v h =
      sym (eq_of_sub t v (ring (t ∷ v ∷ []) (var 0 :- var 1) (var 0 :+ :neg :1 :* var 1) refl ∙ h))

  module _ (k : Constraint F) (c : Composer F)
      (pi : public_input k ≡ coeff k Selector.public_input) where
    abbrev solved : Constraint F
    solved = Constraint.arithmetic k ▹ Constraint.output minus_one

    Equation-solved :
        (w : Witness) (x : ℕ → F)
        → gate_value (gate_of (Constraint.arithmetic (solved ▹ Constraint.c w))) x
            ⊕ public_input (Constraint.arithmetic (solved ▹ Constraint.c w))
          ≡ combination k x ⊖ x w.index
    Equation-solved w x = rw pi (gate_solved _ _ _ _ _ _ _ _ _ _)

    gate_output_lem :
        (o : Option Witness) (c' : Composer F)
        → InputsBelow k (length c.witnesses)
        → Evaluated solved c o c'
        → Returns
            (Produces Below 1 (λ w x. x w.index ≡ combination k x) c)
            ((expect o >>= λ w. append_gate (solved ▹ Constraint.c w) >>= λ _. ret w) c')
    unfolding ◌>>=◌
    gate_output_lem none c' below e = absurd (minus_one-ne-zero e.1)
    gate_output_lem (some w) c' below (v, a, e) =
        Returns-bind (append_gate (solved ▹ Constraint.c w)) (λ _. ret w) c'
          (append_gate_lem (solved ▹ Constraint.c w) c' a.gadget.valid
            (omega (arith, below, a.known, a.gadget.grows)))
          λ _ d g. returns w d (record {
            forces = record {
              gadget =
                  Gadget-map (Gadget-trans a.gadget g)
                    (λ x r. sym (eq_of_sub _ _ (sym (Equation-solved w x) ∙ r.1)))
                    (λ x _ r. (tt, Equation-solved w x ∙ sub_of_eq _ _ (sym r)));
              honest = λ x agrees.
                  agrees w.index v (g.keeps w.index v a.value)
                  ∙ minus_one-solves _ v (e x (Gadget-Agrees g agrees));
            };
            known = omega (arith, a.known, g.grows);
          })

  -- For a constraint on known inputs whose public input is declared, gate_add returns a witness
  -- and appends one gate that forces it to be the constraint's combination of its inputs, which
  -- the composer's own values meet.
  pub gate_add_lem :
      (k : Constraint F) (c : Composer F)
      → IsValid c
      → InputsBelow k (length c.witnesses)
      → public_input k ≡ coeff k Selector.public_input
      → Returns (Produces Below 1 (λ w x. x w.index ≡ combination k x) c) (gate_add k c)
  unfolding gate_add
  gate_add_lem k c h below pi =
      Returns-bind _ _ c (append_evaluated_output_lem (solved k c pi) c h below)
        λ o c' e. gate_output_lem k c pi o c' below e

  -- And so does `gate_mul`.
  pub gate_mul_lem :
      (k : Constraint F) (c : Composer F)
      → IsValid c
      → InputsBelow k (length c.witnesses)
      → public_input k ≡ coeff k Selector.public_input
      → Returns (Produces Below 1 (λ w x. x w.index ≡ combination k x) c) (gate_mul k c)
  unfolding gate_mul
  gate_mul_lem k c h below pi =
      Returns-bind _ _ c (append_evaluated_output_lem (solved k c pi) c h below)
        λ o c' e. gate_output_lem k c pi o c' below e
