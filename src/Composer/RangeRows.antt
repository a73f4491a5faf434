-- ===== src/Composer/RangeRows.antt =====
-- The gates of the range check, read with the range widget.
use plonk.Prelude.{
  ℕ, zero, suc, ◌+◌, ◌*◌, ◌<◌, ◌≡◌, refl, sym, ap, ◌∙◌, some, List, [], ◌∷◌, length, get_elem?,
  ℕ_discrete, arith,
}
use plonk.Scalar.{Scalar, ◌⊖◌, ◌⊗◌}
use plonk.Scalar.Ring.{var, ◌:+◌, ◌:-◌, ◌:*◌, ring}
use plonk.Scalar.Numerals.{from-add, from-mul}
use plonk.Wires.{Witness, WiredWitness, Selector}
use plonk.Constraint.{Constraint, new, coeff, witness, set_witness}
use plonk.Composer.State.{Composer, Gate}
use plonk.Composer.Gadget.{Agrees}
use plonk.Composer.Append.{IsGateOf}
use plonk.Widget.Quotient.{range_quotient}
use plonk.Widget.Range.{IsQuad, range_quotient_vanishes}
use plonk.Composer.Quads.{modify_last, accumulator_wire, last, close_range}
use plonk.Composer.RangeWires.{Digits, Placed}

module _ {F : Type 0} ⦃s : Scalar F⦄ where
  -- The term of the range widget at two consecutive gates, with the challenge `t`, is zero at the
  -- values `x`.
  abbrev pub RangeRowVanishes : Gate F → Gate F → (ℕ → F) → F → Type 0
  RangeRowVanishes g g' x t =
      range_quotient (g.q_range ∷ []) 0 t (x g.a.index) (x g.b.index) (x g.c.index) (x g.d.index)
        (x g'.d.index)
      ≡ some s.zero

  pub from-Digits : (u v q : ℕ) → v ≡ q + u * 4 → s.from v ⊖ s.from 4 ⊗ s.from u ≡ s.from q
  from-Digits u v q e =
      ap (λ m. s.from m ⊖ s.from 4 ⊗ s.from u) e
      ∙ ap (λ f. f ⊖ s.from 4 ⊗ s.from u)
          (from-add q (u * 4) ∙ ap (s.add (s.from q)) (from-mul u 4))
      ∙ ring (s.from u ∷ s.from q ∷ s.from 4 ∷ []) ((var 1 :+ var 0 :* var 2) :- var 2 :* var 0)
          (var 1) refl

  -- The wires of the constraint `k` at the place `j`, and the fourth one of the next, hold the
  -- accumulators' values.
  pub record Row (V : ℕ → ℕ) (j : ℕ) (k k' : Constraint F) (c : Composer F) : Type 0 where
    pub selected : coeff k Selector.range ≡ s.one
    pub wires :
        (r : ℕ)
        → r < 4
        → get_elem? c.witnesses (witness k (accumulator_wire r)).index
          ≡ some (s.from (V (j * 4 + r)))
    pub next_wire :
        get_elem? c.witnesses (witness k' WiredWitness.d).index ≡ some (s.from (V (j * 4 + 4)))

  pub Row-RangeRowVanishes :
      (V : ℕ → ℕ) (n j : ℕ) (k k' : Constraint F) (c : Composer F) (g g' : Gate F)
      → Digits V (n * 4)
      → j < n
      → Row V j k k' c
      → IsGateOf k g
      → IsGateOf k' g'
      → (x : ℕ → F) → Agrees x c
      → (t : F) → RangeRowVanishes g g' x t
  Row-RangeRowVanishes V n j k k' c g g' digits lt row h h' x agrees t =
      rw
        (
          ap (λ w. x w.index) h.wire_a ∙ agrees _ _ (row.wires 3 (omega arith)),
          ap (λ w. x w.index) h.wire_b ∙ agrees _ _ (row.wires 2 (omega arith)),
          ap (λ w. x w.index) h.wire_c ∙ agrees _ _ (row.wires 1 (omega arith)),
          ap (λ w. x w.index) h.wire_d ∙ agrees _ _ (row.wires 0 (omega arith)),
          ap (λ w. x w.index) h'.wire_d ∙ agrees _ _ row.next_wire,
        )
        (range_quotient_vanishes (g.q_range ∷ []) 0 g.q_range t _ _ _ _ _ refl
          (digit 0 (omega arith)) (digit 1 (omega arith)) (digit 2 (omega arith))
          (digit 3 (omega arith)))
    where
      digit :
          (r : ℕ) → r < 4 → IsQuad (s.from (V (j * 4 + suc r)) ⊖ s.from 4 ⊗ s.from (V (j * 4 + r)))
      digit r hr =
          let (q, hq, e) = digits (j * 4 + r) (omega arith) in
          (
            q,
            hq,
            from-Digits (V (j * 4 + r)) (V (j * 4 + suc r)) q
                (ap V {x = j * 4 + suc r} {y = suc (j * 4 + r)} (omega arith) ∙ e),
          )

module _ {F : Type 0} where
  modify_last_before :
      (f : Constraint F → Constraint F) (ks : List (Constraint F)) (j : ℕ)
      → suc j < length ks
      → get_elem? (modify_last f ks) j ≡ get_elem? ks j
  modify_last_before f [] j h = refl
  modify_last_before f (k ∷ []) j h = absurd (omega arith)
  modify_last_before f (k ∷ l ∷ ks) zero h = refl
  modify_last_before f (k ∷ l ∷ ks) (suc j) h = modify_last_before f (l ∷ ks) j (omega arith)

  modify_last_end :
      (f : Constraint F → Constraint F) (ks : List (Constraint F)) (j : ℕ) (k : Constraint F)
      → suc j ≡ length ks
      → get_elem? (modify_last f ks) j ≡ some k
      → (l : Constraint F) × (k ≡ f l)
  modify_last_end f [] j k h e = absurd (omega arith)
  modify_last_end f (l ∷ []) zero k h e = (l, cc)
  modify_last_end f (l ∷ []) (suc j) k h e = absurd (omega arith)
  modify_last_end f (l ∷ m ∷ ks) zero k h e = absurd (omega arith)
  modify_last_end f (l ∷ m ∷ ks) (suc j) k h e = modify_last_end f (m ∷ ks) j k (omega arith) e

  length-modify_last :
      (f : Constraint F → Constraint F) (ks : List (Constraint F))
      → length (modify_last f ks) ≡ length ks
  length-modify_last f [] = refl
  length-modify_last f (k ∷ []) = refl
  length-modify_last f (k ∷ l ∷ ks) = omega (arith, length-modify_last f (l ∷ ks))

module _ {F : Type 0} ⦃s : Scalar F⦄ where
  -- The gates of the check, with the last one closed, are rows.
  pub close_range-Row :
      (V : ℕ → ℕ) (n : ℕ) (ws : List Witness) (ks : List (Constraint F)) (c : Composer F)
      (acc : Witness)
      → Placed V (n * 4 + 1) ks c
      → length ks ≡ n + 1
      → last ws ≡ some acc
      → get_elem? c.witnesses acc.index ≡ some (s.from (V (n * 4)))
      → (j : ℕ) (k k' : Constraint F) → j < n
      → get_elem? (close_range ws ks) j ≡ some k
      → get_elem? (close_range ws ks) (suc j) ≡ some k'
      → Row V j k k' c
  unfolding close_range
  close_range-Row V n ws ks c acc p len el ev j k k' lt e e' =
      let f : Constraint F → Constraint F = λ _. new in
      let g : Constraint F → Constraint F = set_witness WiredWitness.d acc in
      let ks1 = modify_last f ks in
      let len1 : length ks1 ≡ length ks = length-modify_last f ks in
      let closed : get_elem? (modify_last g ks1) j ≡ some k = rw (close_range, el) at e in
      let closed' : get_elem? (modify_last g ks1) (suc j) ≡ some k' = rw (close_range, el) at e' in
      let before : (i : ℕ) → i < n → get_elem? (modify_last g ks1) i ≡ get_elem? ks i = λ i h.
        modify_last_before g ks1 i (omega (arith, len1))
        ∙ modify_last_before f ks i (omega arith) in
      let here : get_elem? ks j ≡ some k = sym (before j lt) ∙ closed in
      record {
        selected = p.is_range j k here;
        wires = λ r hr. p.wire j r k here hr (omega arith);
        next_wire = elim (ℕ_discrete (suc j) n) [
          | yes end ↦
              let (l, q) = modify_last_end g ks1 (suc j) k' (omega (arith, len1)) closed' in
              ap (λ m. get_elem? c.witnesses (witness m WiredWitness.d).index) q
              ∙ ev
              ∙ ap (λ m. some (s.from (V m))) {x = n * 4} {y = j * 4 + 4} (omega arith)
          | no inner ↦
              p.wire (suc j) 0 k' (sym (before (suc j) (omega (arith, inner))) ∙ closed')
                (omega arith) (omega arith)
              ∙ ap (λ m. some (s.from (V m))) {x = suc j * 4 + 0} {y = j * 4 + 4} (omega arith)
        ];
      }
