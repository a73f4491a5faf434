-- ===== src/Composer/Transition.antt =====
-- Gates of the widgets that put no arithmetic condition on the values, and the reads of the methods
-- that append them.
use plonk.Prelude.{
  ℕ, ◌+◌, ◌<◌, ◌≤◌, ◌≡◌, refl, subst, Bool, false, Bool-cases, inl, inr, ◌==◌, some, List, reverse,
  length, get_elem?, get_elem?-of_lt, arith,
}
use plonk.Scalar.{Scalar}
use plonk.Scalar.Ring.{mul-zero}
use plonk.Scalar.Bits.{ScalarBytes}
use plonk.BitIterator.{collect}
use plonk.BitIterator
use plonk.BitIterator.Collect.{bits_of, collect-new_bits}
use plonk.Wires.{Witness, Selector, WiredWitness, wire_index}
use plonk.Constraint.{Constraint, new, coeff, witness, set_witness}
use plonk.Composer.State.{Composer, M, ◌>>=◌}
use plonk.Composer.Base.{append_custom_gate, expect}
use plonk.Composer.Returns.{Returns, Returns-map}
use plonk.Composer.Gadget.{IsValid, Gadget, Gadget-trans, Gadget-map}
use plonk.Composer.Append.{AppendsGate, Equation, append_custom_gate_lem}

module _ {F : Type 0} ⦃s : Scalar F⦄ where
  -- `n` gates that are no condition on the values by the arithmetic widget.
  abbrev pub Frame : ℕ → Composer F → Composer F → Type 0
  Frame n = Gadget n (λ _. Unit {0})

  pub Frame-trans :
      {m n k : ℕ} {c c' c'' : Composer F}
      → m + n ≡ k
      → Frame m c c'
      → Frame n c' c''
      → Frame k c c''
  Frame-trans {c} {c''} e g h =
      subst (λ k. Frame k c c'') e (Gadget-map (Gadget-trans g h) (λ _ _. tt) (λ _ _ _. (tt, tt)))

  -- A constraint with neither the arithmetic selector nor a public input.
  pub record IsTransition (k : Constraint F) : Type 0 where
    pub no_arithmetic : coeff k Selector.arithmetic ≡ s.zero
    pub no_input : k.has_public_input ≡ false

  abbrev pub WiresBelow : Constraint F → ℕ → Type 0
  WiresBelow k n = (w : WiredWitness) → (witness k w).index < n

  pub WiresBelow-mono : (k : Constraint F) (m n : ℕ) → m ≤ n → WiresBelow k m → WiresBelow k n
  WiresBelow-mono k m n e h w = omega (arith, h w)

  pub set_witness-IsTransition :
      (r : WiredWitness) (w : Witness) (k : Constraint F)
      → IsTransition k
      → IsTransition (set_witness r w k)
  set_witness-IsTransition r w k t = record {
    no_arithmetic = t.no_arithmetic;
    no_input = t.no_input;
  }

  pub WiresBelow-of :
      (k : Constraint F) (n : ℕ)
      → (witness k WiredWitness.a).index < n
      → (witness k WiredWitness.b).index < n
      → (witness k WiredWitness.c).index < n
      → (witness k WiredWitness.d).index < n
      → WiresBelow k n
  WiresBelow-of k n ha hb hc hd WiredWitness.a = ha
  WiresBelow-of k n ha hb hc hd WiredWitness.b = hb
  WiresBelow-of k n ha hb hc hd WiredWitness.c = hc
  WiresBelow-of k n ha hb hc hd WiredWitness.d = hd

  pub set_witness-WiresBelow :
      (r : WiredWitness) (w : Witness) (k : Constraint F) (n : ℕ)
      → w.index < n
      → WiresBelow k n
      → WiresBelow (set_witness r w k) n
  set_witness-WiresBelow r w k n h hk i = elim (Bool-cases (wire_index i == wire_index r)) [
    | inl e ↦ rw e h
    | inr e ↦ rw e (hk i)
  ]

  pub transition-AppendsGate :
      (k : Constraint F) (c : Composer F)
      → IsValid c
      → IsTransition k
      → WiresBelow k (length c.witnesses)
      → Returns (λ _ c'. Frame 1 c c' × AppendsGate k c c') (append_custom_gate k c)
  transition-AppendsGate k c h t w =
      Returns-map
        (append_custom_gate_lem k c h
          (w WiredWitness.a, w WiredWitness.b, w WiredWitness.c, w WiredWitness.d))
        λ _ c' g. (Gadget-map g.enforces.gadget (λ _ _. tt) (λ x _ _. holds x), g)
    where
      holds : (x : ℕ → F) → Equation k x
      holds x = rw (t.no_arithmetic, t.no_input, mul-zero, s.zero-add) refl

  pub transition_lem :
      (k : Constraint F) (c : Composer F)
      → IsValid c
      → IsTransition k
      → WiresBelow k (length c.witnesses)
      → Returns (λ _. Frame 1 c) (append_custom_gate k c)
  transition_lem k c h t w = Returns-map (transition-AppendsGate k c h t w) λ _ c' g. g.0

  pub Returns-get :
      {A B : Type 0} {R : B → Composer F → Type 0} (xs : List A) (i : ℕ) (f : A → M F B)
      (c : Composer F)
      → i < length xs
      → ((x : A) → get_elem? xs i ≡ some x → Returns R (f x c))
      → Returns R ((expect (get_elem? xs i) >>= f) c)
  unfolding ◌>>=◌
  Returns-get xs i f c h k = let (x, e) = get_elem?-of_lt xs i h in rw e (k x e)

  pub Returns-read :
      {A B : Type 0} {R : B → Composer F → Type 0} (xs : List A) (i : ℕ) (f : A → M F B)
      (c : Composer F)
      → i < length xs
      → ((x : A) → Returns R (f x c))
      → Returns R ((expect (get_elem? xs i) >>= f) c)
  Returns-read xs i f c h k = Returns-get xs i f c h (λ x _. k x)

  pub new-IsTransition : IsTransition (new {F = F})
  new-IsTransition = record { no_arithmetic = refl; no_input = refl }

  module _ ⦃bytes : ScalarBytes F⦄ where
    pub Returns-bits :
        {B : Type 0} {R : B → Composer F → Type 0} (v : F) (f : List Bool → M F B) (c : Composer F)
        → ((bits : List Bool)
            → length bits ≡ 256
            → reverse bits ≡ bits_of (bytes.to_bytes v)
            → Returns R (f bits c))
        → Returns R ((expect (collect (BitIterator.new (bytes.to_bytes v))) >>= f) c)
    unfolding ◌>>=◌
    Returns-bits v f c k =
        let (bits, e, len, r) =
          collect-new_bits (bytes.to_bytes v) (omega (arith, bytes.length-to_bytes v)) in
        rw e (k bits (omega (arith, len, bytes.length-to_bytes v)) r)
