-- ===== src/Composer/Gadget.antt =====
-- When the gates of a composer hold, and what a method that appends gates adds to that.
use plonk.Prelude.{
  ℕ, ◌+◌, ◌<◌, ◌≤◌, ◌≡◌, subst, true, Option, none, some, length, get_elem?, lookup, contains_key,
  arith,
}
use plonk.Scalar.{Scalar, ◌⊕◌, ◌⊗◌}
use plonk.Wires.{Witness, WitnessPoint}
use plonk.Permutation.Keys.{Knows}
use plonk.Composer.State.{Composer, Gate}

abbrev pub HasWires : {F : Type 0} → Gate F → ℕ → Type 0
HasWires g n = (g.a.index < n) × (g.b.index < n) × (g.c.index < n) × (g.d.index < n)

abbrev pub Below : Witness → ℕ → Type 0
Below w n = w.index < n

abbrev pub PointBelow : WitnessPoint → ℕ → Type 0
PointBelow p n = (p.x.index < n) × (p.y.index < n)

-- The permutation knows exactly the witnesses, the gates refer to no other, and public inputs
-- belong to gates.
pub record IsValid {F : Type 0} (c : Composer F) : Type 0 where
  pub known : Knows c.perm (length c.witnesses)
  pub wired :
      (i : ℕ) (g : Gate F) → get_elem? c.constraints i ≡ some g → HasWires g (length c.witnesses)
  pub public_below : (i : ℕ) → contains_key i c.public_inputs ≡ true → i < length c.constraints

module _ {F : Type 0} ⦃s : Scalar F⦄ where
  -- `(a(x)b(x)q_M(x) + a(x)q_L(x) + b(X)q_R(x) + c(X)q_O(X) + d(x)q_F(X) + q_C(X)) * q_arith(X)`
  -- of the arithmetic widget, at the values of a gate's wires.
  abbrev pub gate_value : Gate F → (ℕ → F) → F
  gate_value g x =
      let a = x g.a.index in
      let b = x g.b.index in
      let c = x g.c.index in
      let d = x g.d.index in
      (a ⊗ b ⊗ g.q_m ⊕ a ⊗ g.q_l ⊕ b ⊗ g.q_r ⊕ c ⊗ g.q_o ⊕ d ⊗ g.q_f ⊕ g.q_c) ⊗ g.q_arith

  abbrev pub or_zero : Option F → F
  or_zero none = s.zero
  or_zero (some v) = v

  -- Every gate with its public input vanishes at the values `x` of the witnesses.
  abbrev pub Satisfied : (ℕ → F) → Composer F → Type 0
  Satisfied x c =
      (i : ℕ) (g : Gate F)
      → get_elem? c.constraints i ≡ some g
      → gate_value g x ⊕ or_zero (lookup i c.public_inputs) ≡ s.zero

  -- `x` gives the witnesses the values that the composer has for them.
  abbrev pub Agrees : (ℕ → F) → Composer F → Type 0
  Agrees x c = (i : ℕ) (v : F) → get_elem? c.witnesses i ≡ some v → x i ≡ v

  -- From `c` to `c'`, `n` gates were appended. Whatever satisfies `c'` satisfies `R`, and values
  -- that meet `R` and are the composer's own satisfy the new gates.
  pub record Gadget (n : ℕ) (R : (ℕ → F) → Type 0) (c c' : Composer F) : Type 0 where
    pub valid : IsValid c'
    pub count : length c'.constraints ≡ length c.constraints + n
    pub keeps :
        (i : ℕ) (v : F) → get_elem? c.witnesses i ≡ some v → get_elem? c'.witnesses i ≡ some v
    pub grows : length c.witnesses ≤ length c'.witnesses
    pub sound : (x : ℕ → F) → Satisfied x c' → Satisfied x c × R x
    pub complete : (x : ℕ → F) → Agrees x c' → R x → Satisfied x c → Satisfied x c'

  module _ {m n : ℕ} {R S : (ℕ → F) → Type 0} {c c' c'' : Composer F} where
    pub Gadget-trans : Gadget m R c c' → Gadget n S c' c'' → Gadget (m + n) (λ x. R x × S x) c c''
    Gadget-trans g h = record {
      valid = h.valid;
      count = omega (arith, g.count, h.count);
      keeps = λ i v e. h.keeps i v (g.keeps i v e);
      grows = omega (arith, g.grows, h.grows);
      sound = λ x sat.
          let (sat', p) = h.sound x sat in let (sat'', q) = g.sound x sat' in (sat'', (q, p));
      complete = λ x agrees r sat.
          h.complete x agrees r.1 (g.complete x (λ i v e. agrees i v (h.keeps i v e)) r.0 sat);
    }

  pub Gadget-Agrees :
      {n : ℕ} {R : (ℕ → F) → Type 0} {c c' : Composer F} {x : ℕ → F}
      → Gadget n R c c'
      → Agrees x c'
      → Agrees x c
  Gadget-Agrees g agrees i v e = agrees i v (g.keeps i v e)

  -- A relation may be replaced by one that follows from it, and that gives it back at the
  -- composer's own values.
  pub Gadget-map :
      {n : ℕ} {R S : (ℕ → F) → Type 0} {c c' : Composer F}
      → Gadget n R c c'
      → ((x : ℕ → F) → R x → S x)
      → ((x : ℕ → F) → Agrees x c' → S x → R x)
      → Gadget n S c c'
  Gadget-map g f k = record {
    valid = g.valid;
    count = g.count;
    keeps = g.keeps;
    grows = g.grows;
    sound = λ x sat. let (sat', r) = g.sound x sat in (sat', f x r);
    complete = λ x agrees q sat. g.complete x agrees (k x agrees q) sat;
  }

  -- A gate that holds exactly at the values that meet `R`, the composer's own or not.
  pub record Enforces (R : (ℕ → F) → Type 0) (c c' : Composer F) : Type 0 where
    pub gadget : Gadget 1 R c c'
    pub exact : (x : ℕ → F) → R x → Satisfied x c → Satisfied x c'

  pub Enforces-map :
      {R S : (ℕ → F) → Type 0} {c c' : Composer F}
      → Enforces R c c'
      → ((x : ℕ → F) → R x → S x)
      → ((x : ℕ → F) → S x → R x)
      → Enforces S c c'
  Enforces-map g f k = record {
    gadget = Gadget-map g.gadget f (λ x _. k x);
    exact = λ x q. g.exact x (k x q);
  }

  -- Gates that force `R` whatever the values of the new witnesses are, while the composer's own
  -- values do meet it: such gates cannot fail.
  pub record Forces (n : ℕ) (R : (ℕ → F) → Type 0) (c c' : Composer F) : Type 0 where
    pub gadget : Gadget n R c c'
    pub honest : (x : ℕ → F) → Agrees x c' → R x

  pub Forces-trans :
      {m n : ℕ} {R S : (ℕ → F) → Type 0} {c c' c'' : Composer F}
      → Forces m R c c'
      → Forces n S c' c''
      → Forces (m + n) (λ x. R x × S x) c c''
  Forces-trans g h = record {
    gadget = Gadget-trans g.gadget h.gadget;
    honest = λ x agrees. (g.honest x (Gadget-Agrees h.gadget agrees), h.honest x agrees);
  }

  pub Forces-map :
      {n : ℕ} {R S : (ℕ → F) → Type 0} {c c' : Composer F}
      → Forces n R c c'
      → ((x : ℕ → F) → R x → S x)
      → Forces n S c c'
  Forces-map g f = record {
    gadget = Gadget-map g.gadget f (λ x agrees _. g.honest x agrees);
    honest = λ x agrees. f x (g.honest x agrees);
  }

  pub Forces-refl : {c : Composer F} → IsValid c → Forces 0 (λ _. Unit {0}) c c
  Forces-refl h = record {
    gadget = record {
      valid = h;
      count = omega arith;
      keeps = λ i v e. e;
      grows = omega arith;
      sound = λ x sat. (sat, tt);
      complete = λ x _ _ sat. sat;
    };
    honest = λ x _. tt;
  }

  pub Forces-count :
      {m n : ℕ} {R : (ℕ → F) → Type 0} {c c' : Composer F}
      → m ≡ n
      → Forces m R c c'
      → Forces n R c c'
  Forces-count {R} {c} {c'} e f = subst (λ k. Forces k R c c') e f

  -- A method that appends `n` such gates and gives new witnesses `a`.
  pub record Produces {A : Type 0} (Bound : A → ℕ → Type 0) (n : ℕ) (R : A → (ℕ → F) → Type 0)
      (c : Composer F) (a : A) (c' : Composer F) : Type 0 where
    pub forces : Forces n (R a) c c'
    pub known : Bound a (length c'.witnesses)
