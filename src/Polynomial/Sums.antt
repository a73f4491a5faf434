-- ===== src/Polynomial/Sums.antt =====
-- The operators `+`, `+=`, `-`, `-=` and `+= (f, p)` of src/fft/polynomial.rs on values.
use plonk.Prelude.{
  ℕ, ◌<◌, ◌≡◌, refl, sym, ap, ap₂, ◌∙◌, true, false, Bool-cases, inl, inr, List, [], ◌∷◌, map, leb,
  length, arith, if◌then◌else◌,
}
use plonk.Scalar.{Scalar, ◌⊕◌, ◌⊖◌, ◌⊗◌}
use plonk.Scalar.Ring.{var, :0, :1, ◌:+◌, ◌:-◌, ◌:*◌, :neg, ring}
use plonk.Polynomial.{
  Polynomial, is_zero, degree, zip_with, resize, truncate_leading_zeros, evaluate, add, add_assign,
  add_assign_scaled, sub, sub_assign,
}
use plonk.Polynomial.Evaluate.{
  value_at, value_at-truncate_leading_zeros, value_at-of_all_zero, evaluate-value_at,
}
use plonk.Polynomial.Arithmetic.{
  zip_with_long, zip_with_resized, zero_from, zero_from_mono, zero_from-degree, degree-lt-length,
}

module _ {F : Type 0} ⦃s : Scalar F⦄ where
  value_at-of_is_zero : (p : Polynomial F) (x : F) → is_zero p ≡ true → value_at p x ≡ s.zero
  unfolding is_zero
  value_at-of_is_zero p x h = value_at-of_all_zero p x h

  zero_from-of_is_zero : (n : ℕ) (p : Polynomial F) → is_zero p ≡ true → zero_from n p ≡ true
  unfolding is_zero
  zero_from-of_is_zero n p h = zero_from_mono 0 n p (omega arith) h

  pub value_at-map :
      (g : F → F) (f : F) (g-eq : (a : F) → g a ≡ f ⊗ a) (p : List F) (x : F)
      → value_at (map g p) x ≡ f ⊗ value_at p x
  value_at-map g f g-eq [] x = ring (f ∷ []) :0 (var 0 :* :0) refl
  value_at-map g f g-eq (c ∷ p) x =
      ap₂ (λ t u. t ⊕ x ⊗ u) (g-eq c) (value_at-map g f g-eq p x)
      ∙ ring (f ∷ c ∷ x ∷ value_at p x ∷ []) (var 0 :* var 1 :+ var 2 :* (var 0 :* var 3))
          (var 0 :* (var 1 :+ var 2 :* var 3)) refl

  -- The four cases of the operators, with `first` where the left polynomial is zero and `shorter`
  -- where it has the smaller degree.
  module _ (op : F → F → F) (f : F) (op-eq : (a b : F) → op a b ≡ a ⊕ f ⊗ b) (p q : Polynomial F)
      (x : F) where
    cases :
        (first shorter : List F)
        → (is_zero p ≡ true → value_at first x ≡ f ⊗ value_at q x)
        → (is_zero p ≡ false
            → is_zero q ≡ false
            → degree p < degree q
            → value_at shorter x ≡ value_at p x ⊕ f ⊗ value_at q x)
        → evaluate
            (truncate_leading_zeros (
              if is_zero p
              then first
              else if is_zero q
              then p
              else if leb (degree q) (degree p)
              then zip_with op p q
              else shorter))
            x
          ≡ evaluate p x ⊕ f ⊗ evaluate q x
    cases first shorter hf hs =
        evaluate-value_at _ x
        ∙ value_at-truncate_leading_zeros _ x
        ∙ split
        ∙ ap₂ (λ t u. t ⊕ f ⊗ u) (sym (evaluate-value_at p x)) (sym (evaluate-value_at q x))
      where
        split :
            value_at
              (if is_zero p
                then first
                else if is_zero q
                then p
                else if leb (degree q) (degree p)
                then zip_with op p q
                else shorter)
              x
            ≡ value_at p x ⊕ f ⊗ value_at q x
        split = elim (Bool-cases (is_zero p)) [
          | inl zp ↦ rw zp (
              hf zp
              ∙ ring (f ∷ value_at q x ∷ []) (var 0 :* var 1) (:0 :+ var 0 :* var 1) refl
              ∙ ap (λ t. t ⊕ f ⊗ value_at q x) (sym (value_at-of_is_zero p x zp)))
          | inr np ↦ elim (Bool-cases (is_zero q)) [
            | inl zq ↦
                rw (np, zq)
                  (ring (f ∷ value_at p x ∷ []) (var 1) (var 1 :+ var 0 :* :0) refl
                    ∙ ap (λ t. value_at p x ⊕ f ⊗ t) (sym (value_at-of_is_zero q x zq)))
            | inr nq ↦ elim (Bool-cases (leb (degree q) (degree p))) [
              | inl le ↦ rw (np, nq, le) (zip_with_long op f op-eq x p q np nq (ground arith))
              | inr gt ↦ rw (np, nq, gt) (hs np nq (ground arith))
            ]
          ]
        ]

    resized :
        is_zero p ≡ false
        → is_zero q ≡ false
        → degree p < degree q
        → value_at (zip_with op (resize (length q) p) q) x ≡ value_at p x ⊕ f ⊗ value_at q x
    resized np nq h =
        zip_with_resized op f op-eq x p q
          (zero_from-degree p (length q) np (omega (arith, degree-lt-length q nq)))

  plus : (a b : F) → a ⊕ b ≡ a ⊕ s.one ⊗ b
  plus a b = ring (a ∷ b ∷ []) (var 0 :+ var 1) (var 0 :+ :1 :* var 1) refl

  minus : (a b : F) → a ⊖ b ≡ a ⊕ s.neg s.one ⊗ b
  minus a b = ring (a ∷ b ∷ []) (var 0 :- var 1) (var 0 :+ :neg :1 :* var 1) refl

  -- The sum of two polynomials, computed on coefficient vectors of any lengths and degrees, has at
  -- every point the sum of their values.
  pub add-evaluate :
      (p q : Polynomial F) (x : F) → evaluate (add p q) x ≡ evaluate p x ⊕ evaluate q x
  unfolding add
  add-evaluate p q x =
      cases s.add s.one plus p q x q (zip_with s.add q p)
        (λ _. ring (value_at q x ∷ []) (var 0) (:1 :* var 0) refl)
        (λ np nq h.
          zip_with_long s.add s.one plus x q p nq np (omega arith)
          ∙ ring (value_at p x ∷ value_at q x ∷ []) (var 1 :+ :1 :* var 0) (var 0 :+ :1 :* var 1)
              refl)
      ∙ sym (plus _ _)

  pub add_assign-evaluate :
      (p q : Polynomial F) (x : F) → evaluate (add_assign p q) x ≡ evaluate p x ⊕ evaluate q x
  unfolding add_assign
  add_assign-evaluate p q x =
      cases s.add s.one plus p q x q (zip_with s.add (resize (length q) p) q)
        (λ _. ring (value_at q x ∷ []) (var 0) (:1 :* var 0) refl) (resized s.add s.one plus p q x)
      ∙ sym (plus _ _)

  -- Adding f times a polynomial in place, with the resizing of the coefficient vector, adds f
  -- times its value at every point.
  pub add_assign_scaled-evaluate :
      (p : Polynomial F) (f : F) (q : Polynomial F) (x : F)
      → evaluate (add_assign_scaled p f q) x ≡ evaluate p x ⊕ f ⊗ evaluate q x
  unfolding add_assign_scaled
  add_assign_scaled-evaluate p f q x =
      cases (λ a b. a ⊕ f ⊗ b) f (λ a b. refl) p q x (map (λ c. c ⊗ f) q)
        (zip_with (λ a b. a ⊕ f ⊗ b) (resize (length q) p) q)
        (λ _. value_at-map (λ c. c ⊗ f) f (λ a. s.mul_comm a f) q x)
        (resized (λ a b. a ⊕ f ⊗ b) f (λ a b. refl) p q x)

  -- The difference of two polynomials has at every point the difference of their values, whatever
  -- their lengths and degrees.
  pub sub-evaluate :
      (p q : Polynomial F) (x : F) → evaluate (sub p q) x ≡ evaluate p x ⊖ evaluate q x
  unfolding sub
  sub-evaluate p q x =
      cases s.sub (s.neg s.one) minus p q x (map s.neg q) (zip_with s.sub (resize (length q) p) q)
        (λ _.
          value_at-map s.neg (s.neg s.one)
            (λ a. ring (a ∷ []) (:neg (var 0)) (:neg :1 :* var 0) refl) q x)
        (resized s.sub (s.neg s.one) minus p q x)
      ∙ sym (minus _ _)

  -- The difference in place has at every point the difference of the values, also where the left
  -- polynomial is zero.
  pub sub_assign-evaluate :
      (p q : Polynomial F) (x : F) → evaluate (sub_assign p q) x ≡ evaluate p x ⊖ evaluate q x
  unfolding sub_assign
  sub_assign-evaluate p q x =
      cases s.sub (s.neg s.one) minus p q x (zip_with s.sub (resize (length q) p) q)
        (zip_with s.sub (resize (length q) p) q)
        (λ zp.
          zip_with_resized s.sub (s.neg s.one) minus x p q (zero_from-of_is_zero (length q) p zp)
          ∙ ap (λ t. t ⊕ s.neg s.one ⊗ value_at q x) (value_at-of_is_zero p x zp)
          ∙ s.zero-add _)
        (resized s.sub (s.neg s.one) minus p q x)
      ∙ sym (minus _ _)
