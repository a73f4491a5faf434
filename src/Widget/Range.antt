-- ===== src/Widget/Range.antt =====
-- The range widget: each accumulator extends the one before by a base-four digit.
use plonk.Prelude.{
  ℕ, zero, suc, ◌<◌, ◌≡◌, inl, inr, ◌↔◌, refl, sym, ap, ◌∙◌, some, List, [], ◌∷◌, get_elem?, arith,
}
use plonk.Scalar.{Scalar, ◌⊖◌, ◌⊗◌}
use plonk.Scalar.Ring.{var, :0, :1, ◌:+◌, ◌:-◌, ◌:*◌, ring}
use plonk.Scalar.Laws.{from-one, eq_of_sub, mul-eq_zero}
use plonk.Widget.Quotient.{delta, range_quotient}

module _ {F : Type 0} ⦃s : Scalar F⦄ where
  -- A base-four digit.
  abbrev pub IsQuad : F → Type 0
  IsQuad f = (n : ℕ) × (n < 4) × (f ≡ s.from n)

  delta-IsQuad : (f : F) → delta f ≡ s.zero → IsQuad f
  unfolding delta
  delta-IsQuad f h = elim (mul-eq_zero _ (f ⊖ s.from 3) h) [
    | inr e ↦ (3, omega arith, eq_of_sub f (s.from 3) e)
    | inl h2 ↦ elim (mul-eq_zero _ (f ⊖ s.from 2) h2) [
      | inr e ↦ (2, omega arith, eq_of_sub f (s.from 2) e)
      | inl h1 ↦ elim (mul-eq_zero f (f ⊖ s.one) h1) [
        | inr e ↦ (1, omega arith, eq_of_sub f s.one e ∙ sym from-one)
        | inl e ↦ (0, omega arith, e ∙ sym s.from-zero)
      ]
    ]
  ]

  IsQuad-delta : (f : F) → IsQuad f → delta f ≡ s.zero
  unfolding delta
  IsQuad-delta f (zero, h, e) =
      rw (e ∙ s.from-zero) (
        ring (s.from 2 ∷ s.from 3 ∷ []) (:0 :* (:0 :- :1) :* (:0 :- var 0) :* (:0 :- var 1)) :0
          refl)
  IsQuad-delta f (suc zero, h, e) =
      rw (e ∙ from-one) (
        ring (s.from 2 ∷ s.from 3 ∷ []) (:1 :* (:1 :- :1) :* (:1 :- var 0) :* (:1 :- var 1)) :0
          refl)
  IsQuad-delta f (suc (suc zero), h, e) = rw e (
      ring (s.from 2 ∷ s.from 3 ∷ [])
        (var 0 :* (var 0 :- :1) :* (var 0 :- var 0) :* (var 0 :- var 1)) :0 refl)
  IsQuad-delta f (suc (suc (suc zero)), h, e) = rw e (
      ring (s.from 2 ∷ s.from 3 ∷ [])
        (var 1 :* (var 1 :- :1) :* (var 1 :- var 0) :* (var 1 :- var 1)) :0 refl)
  IsQuad-delta f (suc (suc (suc (suc n))), h, e) = absurd (omega arith)

  -- The polynomial of the range and logic widgets vanishes at a scalar exactly if it is one of the
  -- digits 0, 1, 2 and 3.
  pub delta_iff : (f : F) → (delta f ≡ s.zero) ↔ IsQuad f
  delta_iff f = (delta-IsQuad f, IsQuad-delta f)

  -- At a row whose four accumulators, and the fourth wire of the next row, each extend the one
  -- before by a digit below four, the term of the range widget is zero for every separation
  -- challenge.
  pub range_quotient_vanishes :
      (q_range : List F) (index : ℕ) (q k a b c d d_w : F)
      → get_elem? q_range index ≡ some q
      → IsQuad (c ⊖ s.from 4 ⊗ d)
      → IsQuad (b ⊖ s.from 4 ⊗ c)
      → IsQuad (a ⊖ s.from 4 ⊗ b)
      → IsQuad (d_w ⊖ s.from 4 ⊗ a)
      → range_quotient q_range index k a b c d d_w ≡ some s.zero
  unfolding range_quotient
  range_quotient_vanishes q_range index q k a b c d d_w e h1 h2 h3 h4 =
      rw (e, IsQuad-delta _ h1, IsQuad-delta _ h2, IsQuad-delta _ h3, IsQuad-delta _ h4)
        (ap some (
          ring (q ∷ k ∷ [])
            ((:0
                :+ :0 :* (var 1 :* var 1)
                :+ :0 :* ((var 1 :* var 1) :* (var 1 :* var 1))
                :+ :0 :* ((var 1 :* var 1) :* (var 1 :* var 1) :* (var 1 :* var 1)))
              :* var 0
              :* var 1)
            :0 refl))
