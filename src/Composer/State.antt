-- ===== src/Composer/State.antt =====
-- src/composer.rs, gate.rs: the state of a composer, the monad of its methods, and the two appends that every method is
-- built from.
use plonk.Prelude.{ℕ, none, some, List, [], ◌∷◌, ◌++◌, if◌then◌else◌, length, get_elem?, insert}
use plonk.Error.{Error, Outcome, ok, err, panic}
use plonk.Wires.{Witness, Selector, WiredWitness}
use plonk.Constraint.{Constraint, coeff, witness}
use plonk.Permutation.{Permutation, new_witness, add_witnesses_to_map}
use plonk.Permutation

pub record Gate (F : Type 0) : Type 0 where
  pub q_m : F
  pub q_l : F
  pub q_r : F
  pub q_o : F
  pub q_f : F
  pub q_c : F
  pub q_arith : F
  pub q_range : F
  pub q_logic : F
  pub q_fixed_group_add : F
  pub q_variable_group_add : F
  pub a : Witness
  pub b : Witness
  pub c : Witness
  pub d : Witness

pub record Composer (F : Type 0) : Type 0 where
  pub constraints : List (Gate F)
  pub public_inputs : List (ℕ × F)
  pub witnesses : List F
  pub perm : Permutation

-- A method on `&mut self`.
abbrev pub M : Type 0 → Type 0 → Type 0
M F A = Composer F → Outcome (A × Composer F)

module _ {F : Type 0} where
  infixl 5 ◌>>=◌ ◌>>◌
  unfoldable pub ◌>>=◌ : {A B : Type 0} → M F A → (A → M F B) → M F B
  ◌>>=◌ m f c = elim (m c) [ ok (a, c') ↦ f a c' | err e ↦ err e | panic ↦ panic ]

  abbrev pub ◌>>◌ : {B : Type 0} → M F (Unit {0}) → M F B → M F B
  m >> k = m >>= λ _. k

  abbrev pub ret : {A : Type 0} → A → M F A
  ret a c = ok (a, c)

  abbrev pub fail : {A : Type 0} → Error → M F A
  fail e c = err e

  -- `self[w]`, which panics out of bounds.
  unfoldable pub index : Witness → M F F
  index w c = elim (get_elem? c.witnesses w.index) [ none ↦ panic | some v ↦ ok (v, c) ]

  unfoldable pub constraints : Composer F → ℕ
  constraints c = length c.constraints

  abbrev pub uninitialized : Composer F
  uninitialized = record {
    constraints = [];
    public_inputs = [];
    witnesses = [];
    perm = Permutation.new;
  }

  unfoldable pub append_witness_internal : F → M F Witness
  unfolding new_witness
  append_witness_internal v c =
      let n = length c.witnesses in
      ok (
        record { index = n },
        record c { witnesses = c.witnesses ++ v ∷ []; perm = (new_witness c.perm).0 },
      )

  abbrev pub gate_of : Constraint F → Gate F
  gate_of k = record {
    q_m = coeff k Selector.multiplication;
    q_l = coeff k Selector.left;
    q_r = coeff k Selector.right;
    q_o = coeff k Selector.output;
    q_f = coeff k Selector.fourth;
    q_c = coeff k Selector.constant;
    q_arith = coeff k Selector.arithmetic;
    q_range = coeff k Selector.range;
    q_logic = coeff k Selector.logic;
    q_fixed_group_add = coeff k Selector.group_add_fixed_base;
    q_variable_group_add = coeff k Selector.group_add_variable_base;
    a = witness k WiredWitness.a;
    b = witness k WiredWitness.b;
    c = witness k WiredWitness.c;
    d = witness k WiredWitness.d;
  }

  abbrev pub with_public_input : Constraint F → ℕ → List (ℕ × F) → List (ℕ × F)
  with_public_input k n pis =
      if k.has_public_input then insert n (coeff k Selector.public_input) pis else pis

  unfoldable pub append_custom_gate_internal : Constraint F → M F (Unit {0})
  append_custom_gate_internal k c =
      let n = length c.constraints in
      let g = gate_of k in
      elim (add_witnesses_to_map g.a g.b g.c g.d n c.perm) [
        | none ↦ panic
        | some perm ↦ ok (
          tt,
          record c {
            constraints = c.constraints ++ g ∷ [];
            public_inputs = with_public_input k n c.public_inputs;
            perm = perm;
          },
        )
      ]
