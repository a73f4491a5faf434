-- ===== src/Composer/Append.antt =====
-- What the two basic appends of the composer do: a witness adds no condition, and a gate adds
-- exactly its own equation.
use plonk.Prelude.{
  ℕ, ◌+◌, ◌<◌, ◌≡◌, refl, sym, true, false, Option, none, some, length, get_elem?, lookup,
  contains_key, ◌∙◌, subst, ◌++◌, List, ◌∷◌, [], Bool-cases, inl, inr, ◌⊎◌, ==_iff,
  get_elem?-append_inv, if◌then◌else◌, length-append, get_elem?-append, get_elem?-append_end,
  lt_of_get_elem?, lookup-insert, contains_key-insert, arith,
}
use plonk.Scalar.{Scalar, ◌⊕◌, ◌⊗◌}
use plonk.Error.{ok}
use plonk.Wires.{Witness, Selector, WiredWitness}
use plonk.Constraint.{Constraint, coeff, witness}
use plonk.Constraint
use plonk.Permutation.{Permutation}
use plonk.Permutation.Keys.{Knows, new_witness-Knows, add_witnesses_to_map-Knows}
use plonk.Composer.State.{
  Composer, Gate, M, ◌>>=◌, ret, with_public_input, index, gate_of, append_witness_internal,
  append_custom_gate_internal,
}
use plonk.Composer.Base.{append_witness, append_custom_gate, append_gate}
use plonk.Composer.Returns.{Returns, returns, Returns-bind, Returns-map}
use plonk.Composer.Gadget.{HasWires, IsValid, or_zero, Satisfied, Gadget, Enforces}

module _ {F : Type 0} ⦃s : Scalar F⦄ where
  pub record Appended (v : F) (c : Composer F) (w : Witness) (c' : Composer F) : Type 0 where
    pub gadget : Gadget 0 (λ _. Unit {0}) c c'
    pub known : w.index < length c'.witnesses
    pub value : get_elem? c'.witnesses w.index ≡ some v
    pub position : w.index ≡ length c.witnesses
    pub longer : length c'.witnesses ≡ length c.witnesses + 1
    pub same_constraints : c'.constraints ≡ c.constraints

  append_witness_internal_lem :
      (v : F) (c : Composer F) → IsValid c → Returns (Appended v c) (append_witness_internal v c)
  unfolding append_witness_internal
  append_witness_internal_lem v c h = returns _ _ (record {
    gadget = record {
      valid = record {
        known = rw longer (new_witness-Knows c.perm (length c.witnesses) h.known);
        wired = λ i g e. rw longer (wider g (h.wired i g e));
        public_below = h.public_below;
      };
      count = omega arith;
      keeps =
          λ i u e. get_elem?-append c.witnesses (v ∷ []) i (lt_of_get_elem? c.witnesses i u e) ∙ e;
      grows = omega (arith, longer);
      sound = λ x sat. (sat, tt);
      complete = λ x agrees _ sat. sat;
    };
    known = omega (arith, longer);
    value = get_elem?-append_end c.witnesses v;
    position = refl;
    longer = longer;
    same_constraints = refl;
  })
    where
      longer : length (c.witnesses ++ v ∷ []) ≡ length c.witnesses + 1
      longer = omega (arith, length-append c.witnesses (v ∷ []))

      wider : (g : Gate F) → HasWires g (length c.witnesses) → HasWires g (length c.witnesses + 1)
      wider g w = omega arith

  pub index_lem :
      (w : Witness) (v : F) (c : Composer F)
      → get_elem? c.witnesses w.index ≡ some v
      → index w c ≡ ok (v, c)
  unfolding index
  index_lem w v c e = rw (e, index)

  -- Reading a known witness changes nothing.
  pub Returns-index :
      {A : Type 0} {R : A → Composer F → Type 0} (w : Witness) (v : F) (f : F → M F A)
      (c : Composer F)
      → get_elem? c.witnesses w.index ≡ some v
      → Returns R (f v c)
      → Returns R ((index w >>= f) c)
  unfolding ◌>>=◌
  Returns-index w v f c e r = rw (index_lem w v c e, ◌>>=◌) r

  -- A new witness is the next one, holds the value, and puts no condition on the others.
  pub append_witness_lem :
      (v : F) (c : Composer F) → IsValid c → Returns (Appended v c) (append_witness v c)
  unfolding append_witness
  append_witness_lem v c h = Returns-bind _ _ _ (append_witness_internal_lem v c h) λ w c' a.
      Returns-bind {Q = λ u d. d ≡ c'} (index w) (λ _. ret w) c'
        (rw (index_lem w v c' a.value) (returns v c' refl))
        λ u d e. returns w d (subst (Appended v c w) (sym e) a)

  -- The public input of a constraint, if it has one.
  abbrev pub public_input : Constraint F → F
  public_input k = if k.has_public_input then coeff k Selector.public_input else s.zero

  -- The equation of a constraint's gate at the values `x`.
  abbrev pub Equation : Constraint F → (ℕ → F) → Type 0
  Equation k x =
      let a = x (witness k WiredWitness.a).index in
      let b = x (witness k WiredWitness.b).index in
      let c = x (witness k WiredWitness.c).index in
      let d = x (witness k WiredWitness.d).index in
      (a ⊗ b ⊗ coeff k Selector.multiplication
            ⊕ a ⊗ coeff k Selector.left
            ⊕ b ⊗ coeff k Selector.right
            ⊕ c ⊗ coeff k Selector.output
            ⊕ d ⊗ coeff k Selector.fourth
            ⊕ coeff k Selector.constant)
          ⊗ coeff k Selector.arithmetic
        ⊕ public_input k
      ≡ s.zero

  -- The gate has the coefficients and the witnesses of the constraint, each in its place.
  pub record IsGateOf (k : Constraint F) (g : Gate F) : Type 0 where
    pub from_multiplication : g.q_m ≡ coeff k Selector.multiplication
    pub from_left : g.q_l ≡ coeff k Selector.left
    pub from_right : g.q_r ≡ coeff k Selector.right
    pub from_output : g.q_o ≡ coeff k Selector.output
    pub from_fourth : g.q_f ≡ coeff k Selector.fourth
    pub from_constant : g.q_c ≡ coeff k Selector.constant
    pub from_arithmetic : g.q_arith ≡ coeff k Selector.arithmetic
    pub from_range : g.q_range ≡ coeff k Selector.range
    pub from_logic : g.q_logic ≡ coeff k Selector.logic
    pub from_fixed_base : g.q_fixed_group_add ≡ coeff k Selector.group_add_fixed_base
    pub from_variable_base : g.q_variable_group_add ≡ coeff k Selector.group_add_variable_base
    pub wire_a : g.a ≡ witness k WiredWitness.a
    pub wire_b : g.b ≡ witness k WiredWitness.b
    pub wire_c : g.c ≡ witness k WiredWitness.c
    pub wire_d : g.d ≡ witness k WiredWitness.d

  abbrev pub WitnessesBelow : Constraint F → ℕ → Type 0
  WitnessesBelow k n =
      ((witness k WiredWitness.a).index < n)
      × ((witness k WiredWitness.b).index < n)
      × ((witness k WiredWitness.c).index < n)
      × ((witness k WiredWitness.d).index < n)

  abbrev pub declared : Constraint F → Option F
  declared k = if k.has_public_input then some (coeff k Selector.public_input) else none

  -- From `c` to `c'` the gate of `k` was appended as the last one, with its public input.
  pub record AppendsGate (k : Constraint F) (c c' : Composer F) : Type 0 where
    pub enforces : Enforces (Equation k) c c'
    pub same_witnesses : c'.witnesses ≡ c.witnesses
    pub gate : Gate F
    pub appended : c'.constraints ≡ c.constraints ++ gate ∷ []
    pub translates : IsGateOf k gate
    pub public_entry : lookup (length c.constraints) c'.public_inputs ≡ declared k

  lookup-of_missing :
      (n : ℕ) (pis : List (ℕ × F)) → contains_key n pis ≡ false → lookup n pis ≡ none
  lookup-of_missing n [] h = refl
  lookup-of_missing n ((j, v) ∷ pis) h = ground (arith, lookup-of_missing n pis)

  lookup-with_old :
      (k : Constraint F) (n i : ℕ) (pis : List (ℕ × F))
      → i < n
      → lookup i (with_public_input k n pis) ≡ lookup i pis
  lookup-with_old k n i pis h =
      ground (arith, lookup-insert n i (coeff k Selector.public_input) pis)

  lookup-with_new :
      (k : Constraint F) (n : ℕ) (pis : List (ℕ × F))
      → lookup n pis ≡ none
      → lookup n (with_public_input k n pis) ≡ declared k
  lookup-with_new k n pis h = elim (Bool-cases k.has_public_input) [
    | inl e ↦ rw e (rw (lookup-insert n n (coeff k Selector.public_input) pis, (==_iff n n).1 refl))
    | inr e ↦ rw e h
  ]

  or_zero-declared : (k : Constraint F) → or_zero (declared k) ≡ public_input k
  or_zero-declared k = ground arith

  contains_key-with :
      (k : Constraint F) (n i : ℕ) (pis : List (ℕ × F))
      → contains_key i (with_public_input k n pis) ≡ true
      → (i ≡ n) ⊎ (contains_key i pis ≡ true)
  contains_key-with k n i pis h =
      ground (arith, contains_key-insert n i (coeff k Selector.public_input) pis)

  missing : (c : Composer F) → IsValid c → lookup (length c.constraints) c.public_inputs ≡ none
  missing c h = elim (Bool-cases (contains_key (length c.constraints) c.public_inputs)) [
    | inl e ↦ absurd (omega (arith, h.public_below (length c.constraints) e))
    | inr e ↦ lookup-of_missing (length c.constraints) c.public_inputs e
  ]

  module _ (k : Constraint F) (c : Composer F) (h : IsValid c) where
    abbrev pushed : Permutation → Composer F
    pushed p = record c {
      constraints = c.constraints ++ gate_of k ∷ [];
      public_inputs = with_public_input k (length c.constraints) c.public_inputs;
      perm = p;
    }

    pushed_sound :
        (p : Permutation) (x : ℕ → F) → Satisfied x (pushed p) → Satisfied x c × Equation k x
    pushed_sound p x sat = (
      λ i g e.
          let b : i < length c.constraints = lt_of_get_elem? c.constraints i g e in
          rw (lookup-with_old k (length c.constraints) i c.public_inputs b) at
            (sat i g (get_elem?-append c.constraints (gate_of k ∷ []) i b ∙ e)),
      rw
          (
            lookup-with_new k (length c.constraints) c.public_inputs (missing c h),
            or_zero-declared k,
          )
          at
          (sat (length c.constraints) (gate_of k) (get_elem?-append_end c.constraints (gate_of k))),
    )

    pushed_complete :
        (p : Permutation) (x : ℕ → F) → Equation k x → Satisfied x c → Satisfied x (pushed p)
    pushed_complete p x eq sat i g e = elim (get_elem?-append_inv c.constraints (gate_of k) i g e) [
      | inl old ↦
          rw (lookup-with_old k (length c.constraints) i c.public_inputs old.0) (sat i g old.1)
      | inr last ↦
          rw
            (
              last.0,
              last.1,
              lookup-with_new k (length c.constraints) c.public_inputs (missing c h),
              or_zero-declared k,
            )
            eq
    ]

    pushed-Gadget :
        (p : Permutation)
        → Knows p (length c.witnesses)
        → HasWires (gate_of k) (length c.witnesses)
        → Gadget 1 (Equation k) c (pushed p)
    pushed-Gadget p known w = record {
      valid = record {
        known = known;
        wired = λ i g e. elim (get_elem?-append_inv c.constraints (gate_of k) i g e) [
          | inl old ↦ h.wired i g old.1
          | inr last ↦ rw (last.1) w
        ];
        public_below = λ i e.
            elim (contains_key-with k (length c.constraints) i c.public_inputs e) [
              | inl q ↦ omega (arith, length-append c.constraints (gate_of k ∷ []))
              | inr q ↦
                  omega (arith, h.public_below i q, length-append c.constraints (gate_of k ∷ []))
            ];
      };
      count = omega (arith, length-append c.constraints (gate_of k ∷ []));
      keeps = λ i v e. e;
      grows = omega arith;
      sound = pushed_sound p;
      complete = λ x _ eq sat. pushed_complete p x eq sat;
    }

    pushed-AppendsGate :
        (p : Permutation)
        → Knows p (length c.witnesses)
        → WitnessesBelow k (length c.witnesses)
        → AppendsGate k c (pushed p)
    pushed-AppendsGate p known w = record {
      enforces = record { gadget = pushed-Gadget p known w; exact = pushed_complete p };
      same_witnesses = refl;
      gate = gate_of k;
      appended = refl;
      translates = record {
        from_multiplication = refl;
        from_left = refl;
        from_right = refl;
        from_output = refl;
        from_fourth = refl;
        from_constant = refl;
        from_arithmetic = refl;
        from_range = refl;
        from_logic = refl;
        from_fixed_base = refl;
        from_variable_base = refl;
        wire_a = refl;
        wire_b = refl;
        wire_c = refl;
        wire_d = refl;
      };
      public_entry = lookup-with_new k (length c.constraints) c.public_inputs (missing c h);
    }

    append_custom_gate_internal_lem :
        WitnessesBelow k (length c.witnesses)
        → Returns (λ _. AppendsGate k c) (append_custom_gate_internal k c)
    unfolding append_custom_gate_internal
    append_custom_gate_internal_lem w =
        let (p, e, known) =
          add_witnesses_to_map-Knows (gate_of k).a (gate_of k).b (gate_of k).c (gate_of k).d
            (length c.constraints) c.perm (length c.witnesses) h.known w in
        rw (e, append_custom_gate_internal) (returns tt _ (pushed-AppendsGate p known w))

  -- A constraint on known witnesses is appended without panic as the last gate, after the gates
  -- that were there: each selector and wire of the gate is that of the constraint, and the public
  -- input, if it is declared, is stored for this gate. The composer stays valid and its witnesses
  -- are unchanged. Any values of the witnesses, the composer's own or not, satisfy the arithmetic
  -- equations afterwards exactly if they did before and meet the constraint's own equation, its
  -- public input included.
  pub append_custom_gate_lem :
      (k : Constraint F) (c : Composer F)
      → IsValid c
      → WitnessesBelow k (length c.witnesses)
      → Returns (λ _. AppendsGate k c) (append_custom_gate k c)
  unfolding append_custom_gate
  append_custom_gate_lem k c h w = append_custom_gate_internal_lem k c h w

  pub append_gate-AppendsGate :
      (k : Constraint F) (c : Composer F)
      → IsValid c
      → WitnessesBelow k (length c.witnesses)
      → Returns (λ _. AppendsGate (Constraint.arithmetic k) c) (append_gate k c)
  unfolding append_gate
  append_gate-AppendsGate k c h w = append_custom_gate_internal_lem (Constraint.arithmetic k) c h w

  pub append_gate_lem :
      (k : Constraint F) (c : Composer F)
      → IsValid c
      → WitnessesBelow k (length c.witnesses)
      → Returns (λ _. Gadget 1 (Equation (Constraint.arithmetic k)) c) (append_gate k c)
  append_gate_lem k c h w =
      Returns-map (append_gate-AppendsGate k c h w) λ _ c' g. g.enforces.gadget
