-- ===== src/Composer/Decomposition.antt =====
-- `component_decomposition`: a scalar is taken apart into bits.
use plonk.Prelude.{
  ℕ, zero, suc, ◌+◌, ◌*◌, ◌<◌, ◌≤◌, ◌≡◌, ◌⊎◌, inl, inr, refl, sym, ap, ap₂, ◌∙◌, length, some,
  lt→ltb, le→leb, lt_of_get_elem?, get_elem?, take, List, [], ◌∷◌, arith,
}
use plonk.Scalar.{Scalar, ◌⊕◌, ◌⊗◌}
use plonk.Scalar.Ring.{var, :0, :1, ◌:+◌, ◌:*◌, ring, mul-zero}
use plonk.Scalar.Laws.{from-one}
use plonk.Scalar.Numerals.{from-add, from-mul}
use plonk.Scalar.Bits.{ScalarBits, AllBits, from_bits}
use plonk.Wires.{Witness, zero_witness}
use plonk.Constraint.{Constraint, new, ◌▹◌}
use plonk.Constraint
use plonk.Composer.State.{Composer, ◌>>=◌, ◌>>◌, ret}
use plonk.Composer.Base.{assert_equal}
use plonk.Composer.Components.{decompose, component_decomposition}
use plonk.Composer.Returns.{returns, Returns, Returns-bind}
use plonk.Composer.Gadget.{
  IsValid, Agrees, Gadget, Gadget-map, Gadget-Agrees, Gadget-trans, Forces, Forces-refl,
  Forces-count, Forces-trans, Forces-map, Produces,
}
use plonk.Composer.Append.{Appended, Returns-index, append_witness_lem}
use plonk.Composer.Output.{combination, gate_add_lem}
use plonk.Composer.Asserts.{component_boolean_lem, assert_equal_lem}

abbrev pub AllBelow : List Witness → ℕ → Type 0
AllBelow [] n = Unit
AllBelow (w ∷ ws) n = (w.index < n) × AllBelow ws n

AllBelow-mono : {m n : ℕ} (ws : List Witness) → m ≤ n → AllBelow ws m → AllBelow ws n
AllBelow-mono [] h below = tt
AllBelow-mono (w ∷ ws) h below = (omega arith, AllBelow-mono ws h below.1)

module _ {F : Type 0} ⦃s : Scalar F⦄ ⦃bits : ScalarBits F⦄ where
  abbrev pub IsBit : F → Type 0
  IsBit v = (v ≡ s.zero) ⊎ (v ≡ s.one)

  -- Each of the witnesses holds a bit.
  abbrev pub Booleans : List Witness → (ℕ → F) → Type 0
  Booleans [] x = Unit
  Booleans (w ∷ ws) x = IsBit (x w.index) × Booleans ws x

  -- The sum of the bits by their weights 2^i, 2^(i + 1), ...
  abbrev pub weighted : ℕ → List Witness → (ℕ → F) → F
  weighted i [] x = s.zero
  weighted i (w ∷ ws) x = bits.pow_of_2 i ⊗ x w.index ⊕ weighted (i + 1) ws x

  accumulated :
      (i : ℕ) (w acc : Witness) (x : ℕ → F)
      → combination
          (new
            ▹ Constraint.left (bits.pow_of_2 i)
            ▹ Constraint.right (s.from 1)
            ▹ Constraint.a w
            ▹ Constraint.b acc)
          x
        ≡ bits.pow_of_2 i ⊗ x w.index ⊕ x acc.index
  accumulated i w acc x = rw from-one (
      ring (x w.index ∷ x acc.index ∷ x 0 ∷ bits.pow_of_2 i ∷ [])
        (:0 :* var 0 :* var 1 :+ var 3 :* var 0 :+ :1 :* var 1 :+ :0 :* var 2 :+ :0 :+ :0)
        (var 3 :* var 0 :+ var 1) refl)

  -- The two results of the loop: the witnesses of the bits, and that of their sum.
  abbrev Loop : ℕ → ℕ → Witness → List Witness × Witness → (ℕ → F) → Type 0
  Loop n i acc r x =
      (length r.0 ≡ n) × Booleans r.0 x × (x r.1.index ≡ weighted i r.0 x ⊕ x acc.index)

  from-IsBit : (b : ℕ) → b < 2 → IsBit (s.from b)
  from-IsBit zero h = inl s.from-zero
  from-IsBit (suc zero) h = inr from-one
  from-IsBit (suc (suc b)) h = absurd (omega arith)

  digit_forced :
      (w : Witness) (b : ℕ) (c c1 c2 : Composer F)
      → b < 2
      → Appended (s.from b) c w c1
      → Gadget 1 (λ x. IsBit (x w.index)) c1 c2
      → Forces 1 (λ x. IsBit (x w.index)) c c2
  digit_forced w b c c1 c2 h a g = record {
    gadget = Gadget-map (Gadget-trans a.gadget g) (λ x r. r.1) (λ x _ r. (tt, r));
    honest = λ x agrees. rw (agrees w.index _ (g.keeps w.index _ a.value)) (from-IsBit b h);
  }

  step :
      (i n : ℕ) (w acc acc' : Witness) (r : List Witness × Witness) (x : ℕ → F)
      → IsBit (x w.index)
      → x acc'.index
        ≡ combination
            (new
              ▹ Constraint.left (bits.pow_of_2 i)
              ▹ Constraint.right (s.from 1)
              ▹ Constraint.a w
              ▹ Constraint.b acc)
            x
      → Loop n (i + 1) acc' r x
      → Loop (suc n) i acc (w ∷ r.0, r.1) x
  step i n w acc acc' r x bit e l = (
    omega (arith, l.0),
    (bit, l.1),
    l.2
        ∙ ap (s.add (weighted (i + 1) r.0 x)) (e ∙ accumulated i w acc x)
        ∙ ring (bits.pow_of_2 i ⊗ x w.index ∷ x acc.index ∷ weighted (i + 1) r.0 x ∷ [])
            (var 2 :+ (var 0 :+ var 1)) (var 0 :+ var 2 :+ var 1) refl,
  )

  -- One more digit in front doubles the weight of the others.
  weigh :
      (i b : ℕ) (w : Witness) (ws : List Witness) (bs : List ℕ) (x : ℕ → F)
      → x w.index ≡ s.from b
      → weighted (i + 1) ws x ≡ bits.pow_of_2 (i + 1) ⊗ s.from (from_bits bs)
      → weighted i (w ∷ ws) x ≡ bits.pow_of_2 i ⊗ s.from (from_bits (b ∷ bs))
  weigh i b w ws bs x e h =
      ap₂ s.add (ap (s.mul (bits.pow_of_2 i)) e)
        (h ∙ ap (λ t. t ⊗ s.from (from_bits bs)) (double i))
      ∙ ring (bits.pow_of_2 i ∷ s.from b ∷ s.from (from_bits bs) ∷ [])
          (var 0 :* var 1 :+ (var 0 :+ var 0) :* var 2) (var 0 :* (var 1 :+ (:1 :+ :1) :* var 2))
          refl
      ∙ ap (s.mul (bits.pow_of_2 i)) (sym (split b (from_bits bs)))
    where
      double : (i : ℕ) → bits.pow_of_2 (i + 1) ≡ bits.pow_of_2 i ⊕ bits.pow_of_2 i
      double i = ap bits.pow_of_2 {x = i + 1} (omega arith) ∙ bits.pow_of_2-suc i

      split : (b m : ℕ) → s.from (b + 2 * m) ≡ s.from b ⊕ (s.one ⊕ s.one) ⊗ s.from m
      split b m =
          from-add b (2 * m)
          ∙ ap (s.add (s.from b))
              (from-mul 2 m ∙ ap (λ t. t ⊗ s.from m) (s.from-suc 1 ∙ ap (λ t. t ⊕ s.one) from-one))

  decompose_lem :
      (n i : ℕ) (bs : List ℕ) (acc : Witness) (c : Composer F)
      → n ≤ length bs
      → AllBits bs
      → IsValid c
      → acc.index < length c.witnesses
      → Returns
          (λ r c'.
            Produces (λ r m. AllBelow r.0 m × (r.1.index < m)) (2 * n) (Loop n i acc) c r c'
            × ((x : ℕ → F)
                → Agrees x c'
                → weighted i r.0 x ≡ bits.pow_of_2 i ⊗ s.from (from_bits (take n bs))))
          (decompose n i bs acc c)
  unfolding decompose
  decompose_lem zero i bs acc c hn hb h ha = returns _ c (
    record {
      forces = Forces-map (Forces-refl h) (λ x _. (refl, tt, sym (s.zero-add _)));
      known = (tt, ha);
    },
    λ x _. sym (ap (s.mul (bits.pow_of_2 i)) s.from-zero ∙ mul-zero _),
  )
  decompose_lem (suc n) i [] acc c hn hb h ha = absurd (omega arith)
  decompose_lem (suc n) i (b ∷ bs) acc c hn hb h ha =
      Returns-bind _ _ c (append_witness_lem (s.from b) c h) λ w c1 a1.
        Returns-bind _ _ c1 (component_boolean_lem w c1 a1.gadget.valid a1.known) λ _ c2 e2.
          let g2 = e2.gadget in
          Returns-bind _ _ c2
            (gate_add_lem _ c2 g2.valid (omega (arith, a1.known, a1.gadget.grows, g2.grows, ha))
              refl)
            λ acc' c3 p3.
              let f3 = p3.forces in
              Returns-bind _ _ c3
                (decompose_lem n (i + 1) bs acc' c3 (omega arith) hb.1 f3.gadget.valid p3.known)
                λ r c4 (p4, own).
                  returns (w ∷ r.0, r.1) c4
                    (
                      record {
                        forces = Forces-count (omega arith) (
                            Forces-map
                              (Forces-trans (digit_forced w b c c1 c2 hb.0 a1 g2)
                                (Forces-trans f3 p4.forces))
                              (λ x t. step i n w acc acc' r x t.0 t.1.0 t.1.1));
                        known = (
                          (
                            omega (
                              arith, a1.known, g2.grows, f3.gadget.grows, p4.forces.gadget.grows,
                            ),
                            p4.known.0,
                          ),
                          p4.known.1,
                        );
                      },
                      λ x agrees.
                          let before = Gadget-trans g2 (Gadget-trans f3.gadget p4.forces.gadget) in
                          weigh i b w r.0 (take n bs) x
                            (agrees w.index _ (before.keeps w.index _ a1.value)) (own x agrees),
                    )

  -- For n from 1 to 256 the decomposition returns and appends 2n + 1 gates that force n witnesses
  -- to be bits and the scalar to be their weighted sum plus the value of witness 0; values that
  -- are the composer's own and meet this satisfy the gates, and the composer's own bits sum to the
  -- low n bits of the scalar.
  pub component_decomposition_lem :
      (n : ℕ) (scalar : Witness) (v : F) (c : Composer F)
      → 0 < n
      → n ≤ 256
      → IsValid c
      → get_elem? c.witnesses scalar.index ≡ some v
      → Returns
          (λ ws c'.
            Gadget
              (2 * n + 1)
              (λ x. (length ws ≡ n) × Booleans ws x × (x scalar.index ≡ weighted 0 ws x ⊕ x 0))
              c
              c'
            × AllBelow ws (length c'.witnesses)
            × ((x : ℕ → F)
                → Agrees x c'
                → Booleans ws x × (weighted 0 ws x ≡ s.from (from_bits (take n (bits.to_bits v))))))
          (component_decomposition n scalar c)
  unfolding component_decomposition ◌>>=◌
  component_decomposition_lem n scalar v c h0 h256 h e =
      rw (lt→ltb 0 n h0, le→leb n 256 h256)
        (Returns-index scalar v _ c e (
          Returns-bind (decompose n 0 (bits.to_bits v) zero_witness)
            (λ r. assert_equal r.1 scalar >> ret r.0) c
            (decompose_lem n 0 (bits.to_bits v) zero_witness c
              (omega (arith, bits.length-to_bits v)) (bits.to_bits-AllBits v) h
              (omega (arith, lt_of_get_elem? c.witnesses scalar.index v e)))
            λ r c1 (p, own).
              let f = p.forces in
              Returns-bind (assert_equal r.1 scalar) (λ _. ret r.0) c1
                (assert_equal_lem r.1 scalar c1 f.gadget.valid p.known.1
                  (omega (arith, lt_of_get_elem? c.witnesses scalar.index v e, f.gadget.grows)))
                λ _ c2 g2. returns r.0 c2 (
                  Gadget-map (Gadget-trans f.gadget g2) (λ x t. (t.0.0, t.0.1, sym t.1 ∙ t.0.2))
                      (λ x agrees t.
                        let l = f.honest x (Gadget-Agrees g2 agrees) in (l, l.2 ∙ sym t.2)),
                  AllBelow-mono r.0 g2.grows p.known.0,
                  λ x agrees.
                      let before = Gadget-Agrees g2 agrees in
                      (
                        (f.honest x before).1,
                        own x before
                            ∙ ap (λ t. t ⊗ s.from (from_bits (take n (bits.to_bits v))))
                                bits.pow_of_2-zero
                            ∙ s.one-mul _,
                      ),
                )))
