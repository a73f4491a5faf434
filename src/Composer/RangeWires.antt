-- ===== src/Composer/RangeWires.antt =====
-- The accumulators of the range check and the wires on which they stand.
use plonk.Prelude.{
  ℕ, zero, suc, ◌+◌, ◌-◌, ◌*◌, ◌/◌, ◌%◌, ◌<◌, ◌≤◌, ◌≡◌, ◌≢◌, ◌⊎◌, inl, inr, refl, sym, ap, ◌∙◌,
  subst, Bool, some, Option-cases, List, [], ◌∷◌, length, get_elem?, as_u64, ℕ_discrete, dec_lt,
  get_elem?-of_lt, arith,
}
use plonk.Scalar.{Scalar}
use plonk.Wires.{Witness, WiredWitness, Selector}
use plonk.Constraint.{Constraint, coeff, witness, set_witness}
use plonk.Composer.State.{Composer}
use plonk.Composer.Quads.{skip, modify_at, accumulator_wire}
use plonk.Composer.Digits.{skip-get_elem?}

-- The number whose `n` binary digits, the least significant first, are the first ones of the list.
abbrev pub low_number : ℕ → List Bool → ℕ
low_number zero us = 0
low_number (suc n) [] = 0
low_number (suc n) (u ∷ us) = as_u64 u + 2 * low_number n us

-- The number of the accumulator `p`, with `z` accumulators of zero before the first quad.
abbrev pub accumulated : (num_quads z : ℕ) → List Bool → ℕ → ℕ
accumulated num_quads z us p = low_number ((p - z) * 2) (skip ((num_quads - p) * 2) us)

-- Each value is four times the one before and a digit.
abbrev pub Digits : (ℕ → ℕ) → ℕ → Type 0
Digits V n = (p : ℕ) → p < n → (q : ℕ) × (q < 4) × (V (suc p) ≡ q + V p * 4)

pub accumulated-early :
    (num_quads z : ℕ) (us : List Bool) (p : ℕ) → p ≤ z → accumulated num_quads z us p ≡ 0
accumulated-early num_quads z us p h =
    ap (λ n. low_number n (skip ((num_quads - p) * 2) us)) {x = (p - z) * 2} {y = 0} (omega arith)

pub accumulated-suc :
    (num_quads z : ℕ) (us : List Bool) (p : ℕ) (u_0 u_1 : Bool)
    → z ≤ p
    → p < num_quads
    → get_elem? us ((num_quads - suc p) * 2) ≡ some u_0
    → get_elem? us ((num_quads - suc p) * 2 + 1) ≡ some u_1
    → accumulated num_quads z us (suc p)
      ≡ as_u64 u_0 + 2 * as_u64 u_1 + accumulated num_quads z us p * 4
accumulated-suc num_quads z us p u_0 u_1 hz hp e0 e1 =
    let m = (num_quads - suc p) * 2 in
    let e : skip m us ≡ u_0 ∷ u_1 ∷ skip ((num_quads - p) * 2) us =
      skip-get_elem? m us u_0 e0
      ∙ ap (◌∷◌ u_0) (
          skip-get_elem? (suc m) us u_1 (ap (get_elem? us) {x = suc m} (omega arith) ∙ e1)
          ∙ ap (λ i. u_1 ∷ skip i us) {x = suc (suc m)} (omega arith)) in
    ap (λ n. low_number n (skip m us)) {y = suc (suc ((p - z) * 2))} (omega arith)
    ∙ rw e (omega arith)

pub accumulated-Digits :
    (num_quads z : ℕ) (us : List Bool)
    → num_quads * 2 ≤ length us
    → Digits (accumulated num_quads z us) num_quads
accumulated-Digits num_quads z us h p lt = elim (dec_lt p z) [
  | yes early ↦ (
    0,
    omega arith,
    accumulated-early num_quads z us (suc p) (omega arith)
        ∙ ap (λ m. 0 + m * 4) {x = 0} (sym (accumulated-early num_quads z us p (omega arith))),
  )
  | no late ↦
      let (u_0, e_0) = get_elem?-of_lt us ((num_quads - suc p) * 2) (omega arith) in
      let (u_1, e_1) = get_elem?-of_lt us ((num_quads - suc p) * 2 + 1) (omega arith) in
      (
        as_u64 u_0 + 2 * as_u64 u_1,
        below u_0 u_1,
        accumulated-suc num_quads z us p u_0 u_1 (omega arith) lt e_0 e_1,
      )
]
  where
    below : (l r : Bool) → as_u64 l + 2 * as_u64 r < 4
    below l r = ground arith

module _ {F : Type 0} where
  modify_at-suc :
      (i : ℕ) (f : Constraint F → Constraint F) (k : Constraint F) (ks ks' : List (Constraint F))
      → modify_at (suc i) f (k ∷ ks) ≡ some ks'
      → (ls : List (Constraint F)) × (modify_at i f ks ≡ some ls) × (k ∷ ls ≡ ks')
  modify_at-suc i f k ks ks' e = elim (Option-cases (modify_at i f ks)) [
    | inl n ↦ cc (rw n at e)
    | inr (ls, n) ↦
        let e' : some (k ∷ ls) ≡ some ks' = rw n at e in let e'' : k ∷ ls ≡ ks' = cc in (ls, n, e'')
  ]

  modify_at_inv :
      (i : ℕ) (f : Constraint F → Constraint F) (ks ks' : List (Constraint F)) (j : ℕ)
      (k' : Constraint F)
      → modify_at i f ks ≡ some ks'
      → get_elem? ks' j ≡ some k'
      → (k : Constraint F) × (get_elem? ks j ≡ some k)
        × (((j ≡ i) × (k' ≡ f k)) ⊎ ((j ≢ i) × (k' ≡ k)))
  modify_at_inv i f [] ks' j k' e g = cc
  modify_at_inv zero f (k ∷ ks) ks' zero k' e g = (
    k,
    refl,
    inl (refl, some_of_first (subst (λ l. get_elem? l 0 ≡ some k') (sym (some_of e)) g)),
  )
    where
      some_of : {A : Type 0} {a b : A} → some a ≡ some b → a ≡ b
      some_of e = cc

      some_of_first : some (f k) ≡ some k' → k' ≡ f k
      some_of_first e = cc
  modify_at_inv zero f (k ∷ ks) ks' (suc j) k' e g = (
    k',
    subst (λ l. get_elem? l (suc j) ≡ some k') (sym (some_of e)) g,
    inr ((λ h. omega arith), refl),
  )
    where
      some_of : {A : Type 0} {a b : A} → some a ≡ some b → a ≡ b
      some_of e = cc
  modify_at_inv (suc i) f (k ∷ ks) ks' zero k' e g =
      let (ls, n, e') = modify_at-suc i f k ks ks' e in
      (k', subst (λ l. get_elem? l 0 ≡ some k') (sym e') g, inr ((λ h. omega arith), refl))
  modify_at_inv (suc i) f (k ∷ ks) ks' (suc j) k' e g =
      let (ls, n, e') = modify_at-suc i f k ks ks' e in
      let (l, el, r) =
        modify_at_inv i f ks ls j k' n (subst (λ l. get_elem? l (suc j) ≡ some k') (sym e') g) in
      (
        l,
        el,
        elim r [ inl q ↦ inl (ap suc q.0, q.1) | inr q ↦ inr ((λ h. q.0 (omega arith)), q.1) ],
      )

  wire_same :
      (r : WiredWitness) (w : Witness) (k : Constraint F) → witness (set_witness r w k) r ≡ w
  wire_same WiredWitness.a w k = refl
  wire_same WiredWitness.b w k = refl
  wire_same WiredWitness.c w k = refl
  wire_same WiredWitness.d w k = refl

  wire_other :
      (p q : ℕ) (w : Witness) (k : Constraint F)
      → p < 4
      → q < 4
      → p ≢ q
      → witness (set_witness (accumulator_wire q) w k) (accumulator_wire p)
        ≡ witness k (accumulator_wire p)
  wire_other zero zero w k hp hq h = absurd (h refl)
  wire_other zero (suc zero) w k hp hq h = refl
  wire_other zero (suc (suc zero)) w k hp hq h = refl
  wire_other zero (suc (suc (suc zero))) w k hp hq h = refl
  wire_other zero (suc (suc (suc (suc q)))) w k hp hq h = absurd (omega arith)
  wire_other (suc zero) zero w k hp hq h = refl
  wire_other (suc zero) (suc zero) w k hp hq h = absurd (h refl)
  wire_other (suc zero) (suc (suc zero)) w k hp hq h = refl
  wire_other (suc zero) (suc (suc (suc zero))) w k hp hq h = refl
  wire_other (suc zero) (suc (suc (suc (suc q)))) w k hp hq h = absurd (omega arith)
  wire_other (suc (suc zero)) zero w k hp hq h = refl
  wire_other (suc (suc zero)) (suc zero) w k hp hq h = refl
  wire_other (suc (suc zero)) (suc (suc zero)) w k hp hq h = absurd (h refl)
  wire_other (suc (suc zero)) (suc (suc (suc zero))) w k hp hq h = refl
  wire_other (suc (suc zero)) (suc (suc (suc (suc q)))) w k hp hq h = absurd (omega arith)
  wire_other (suc (suc (suc zero))) zero w k hp hq h = refl
  wire_other (suc (suc (suc zero))) (suc zero) w k hp hq h = refl
  wire_other (suc (suc (suc zero))) (suc (suc zero)) w k hp hq h = refl
  wire_other (suc (suc (suc zero))) (suc (suc (suc zero))) w k hp hq h = absurd (h refl)
  wire_other (suc (suc (suc zero))) (suc (suc (suc (suc q)))) w k hp hq h = absurd (omega arith)
  wire_other (suc (suc (suc (suc p)))) q w k hp hq h = absurd (omega arith)

module _ {F : Type 0} ⦃s : Scalar F⦄ where
  -- The accumulators below `i` stand on the wires, with the values `V`, and the gates are selected.
  pub record Placed (V : ℕ → ℕ) (i : ℕ) (ks : List (Constraint F)) (c : Composer F) : Type 0 where
    pub wire :
        (j r : ℕ) (k : Constraint F)
        → get_elem? ks j ≡ some k
        → r < 4
        → j * 4 + r < i
        → get_elem? c.witnesses (witness k (accumulator_wire r)).index
          ≡ some (s.from (V (j * 4 + r)))
    pub is_range :
        (j : ℕ) (k : Constraint F) → get_elem? ks j ≡ some k → coeff k Selector.range ≡ s.one

  pub Placed-step :
      (V : ℕ → ℕ) (i : ℕ) (w : Witness) (ks ks' : List (Constraint F)) (c c' : Composer F)
      → ((n : ℕ) (v : F) → get_elem? c.witnesses n ≡ some v → get_elem? c'.witnesses n ≡ some v)
      → get_elem? c'.witnesses w.index ≡ some (s.from (V i))
      → modify_at (i / 4) (set_witness (accumulator_wire (i % 4)) w) ks ≡ some ks'
      → Placed V i ks c
      → Placed V (i + 1) ks' c'
  Placed-step V i w ks ks' c c' keeps value e p = record {
    wire = λ j r k' ek hr h.
        let (k, el, q) = modify_at_inv (i / 4) _ ks ks' j k' e ek in
        elim q [
          | inl t ↦ elim (ℕ_discrete r (i % 4)) [
            | yes same ↦
                ap (λ u. get_elem? c'.witnesses u.index)
                  (ap (λ m. witness m (accumulator_wire r)) t.1
                    ∙ ap (λ m. witness (set_witness (accumulator_wire m) w k) (accumulator_wire r))
                        (sym same)
                    ∙ wire_same (accumulator_wire r) w k)
                ∙ value
                ∙ ap (λ m. some (s.from (V m))) {x = i} {y = j * 4 + r} (omega (arith, t.0))
            | no other ↦
                ap (λ u. get_elem? c'.witnesses u.index)
                  (ap (λ m. witness m (accumulator_wire r)) t.1
                    ∙ wire_other r (i % 4) w k hr (omega arith) other)
                ∙ keeps _ _ (p.wire j r k el hr (below j r h (λ h'. other (omega (arith, h', hr)))))
          ]
          | inr t ↦
              ap (λ m. get_elem? c'.witnesses (witness m (accumulator_wire r)).index) t.1
              ∙ keeps _ _ (p.wire j r k el hr (below j r h (λ h'. t.0 (omega (arith, h', hr)))))
        ];
    is_range = λ j k' ek.
        let (k, el, q) = modify_at_inv (i / 4) _ ks ks' j k' e ek in
        elim q [
          | inl t ↦ ap (λ m. coeff m Selector.range) t.1 ∙ p.is_range j k el
          | inr t ↦ ap (λ m. coeff m Selector.range) t.1 ∙ p.is_range j k el
        ];
  }
    where
      below : (j r : ℕ) → j * 4 + r < i + 1 → j * 4 + r ≢ i → j * 4 + r < i
      below j r h ne = elim (ℕ_discrete (j * 4 + r) i) [
        | yes e ↦ absurd (ne e)
        | no _ ↦ omega arith
      ]
