-- ===== src/Polynomial/Arithmetic.antt =====
-- Sums and differences of polynomials, as src/fft/polynomial.rs computes them on coefficient
-- vectors of any lengths, against the values of the polynomials.
use plonk.Prelude.{
  length-reverse, ℕ, zero, suc, ◌≤◌, ◌<◌, ◌≡◌, refl, sym, ap, ap₂, ◌∙◌, Bool, true, false,
  Bool-cases, inl, inr, List, [], ◌∷◌, ◌++◌, reverse, length, arith,
}
use mathlib.Core.List.{reverse-reverse, reverse-append}
use plonk.Scalar.{Scalar, ◌⊕◌, ◌⊗◌}
use plonk.Scalar.Ring.{var, :0, ◌:+◌, ◌:*◌, ring}
use plonk.Polynomial.{Polynomial, all_zero, is_zero, last_index, degree, zip_with, resize}
use plonk.Polynomial.Evaluate.{value_at, value_at-of_all_zero}

module _ {F : Type 0} ⦃s : Scalar F⦄ where
  -- All coefficients from index `n` on are zero.
  abbrev pub zero_from : ℕ → List F → Bool
  zero_from zero cs = all_zero cs
  zero_from (suc n) [] = true
  zero_from (suc n) (c ∷ cs) = zero_from n cs

  zero_from-of_length : (n : ℕ) (cs : List F) → length cs ≤ n → zero_from n cs ≡ true
  zero_from-of_length zero [] h = refl
  zero_from-of_length zero (c ∷ cs) h = absurd (omega arith)
  zero_from-of_length (suc n) [] h = refl
  zero_from-of_length (suc n) (c ∷ cs) h = zero_from-of_length n cs (omega arith)

  zero_from-append :
      (n : ℕ) (cs : List F) (c : F)
      → s.beq c s.zero ≡ true
      → zero_from n cs ≡ true
      → zero_from n (cs ++ c ∷ []) ≡ true
  zero_from-append zero [] c h k = rw h refl
  zero_from-append zero (d ∷ cs) c h k = ground (arith, zero_from-append zero cs c)
  zero_from-append (suc zero) [] c h k = refl
  zero_from-append (suc (suc n)) [] c h k = refl
  zero_from-append (suc n) (d ∷ cs) c h k = zero_from-append n cs c h k

  pub zero_from_mono :
      (m n : ℕ) (cs : List F) → m ≤ n → zero_from m cs ≡ true → zero_from n cs ≡ true
  zero_from_mono zero zero cs h k = k
  zero_from_mono zero (suc n) [] h k = refl
  zero_from_mono zero (suc n) (c ∷ cs) h k = zero_from_mono zero n cs (omega arith) (ground arith)
  zero_from_mono (suc m) zero cs h k = absurd (omega arith)
  zero_from_mono (suc m) (suc n) [] h k = refl
  zero_from_mono (suc m) (suc n) (c ∷ cs) h k = zero_from_mono m n cs (omega arith) k

  zero_from-last_index : (cs : List F) → zero_from (suc (last_index cs)) (reverse cs) ≡ true
  unfolding last_index
  zero_from-last_index [] = refl
  zero_from-last_index (c ∷ cs) = elim (Bool-cases (s.beq c s.zero)) [
    | inl e ↦
        rw (e, reverse-append (c ∷ []) cs)
          (zero_from-append (suc (last_index cs)) (reverse cs) c e (zero_from-last_index cs))
    | inr e ↦ rw e (
        zero_from-of_length (suc (length cs)) (reverse (c ∷ cs))
          (omega (arith, length-reverse (c ∷ cs))))
  ]

  last_index-lt-length : (c : F) (cs : List F) → last_index (c ∷ cs) < length (c ∷ cs)
  unfolding last_index
  last_index-lt-length c [] = ground arith
  last_index-lt-length c (d ∷ cs) = ground (arith, last_index-lt-length d cs)

  pub degree-lt-length : (p : Polynomial F) → is_zero p ≡ false → degree p < length p
  unfolding degree is_zero
  degree-lt-length p h = rw h (below (reverse p) (length-reverse p))
    where
      below : (cs : List F) → length cs ≡ length p → last_index cs < length p
      below [] e = absurd (nonempty p h e)
        where
          nonempty : (p : Polynomial F) → all_zero p ≡ false → ¬ (0 ≡ length p)
          nonempty [] h e = cc
          nonempty (c ∷ cs) h e = omega arith
      below (c ∷ cs) e = omega (arith, last_index-lt-length c cs)

  -- Past the degree all coefficients are zero.
  pub zero_from-degree :
      (p : Polynomial F) (n : ℕ) → is_zero p ≡ false → degree p < n → zero_from n p ≡ true
  unfolding degree is_zero
  zero_from-degree p n h k =
      zero_from_mono (suc (last_index (reverse p))) n p (rw h at k)
        (rw (reverse-reverse p) at (zero_from-last_index (reverse p)))

  value_at-resize :
      (n : ℕ) (cs : List F) (x : F)
      → zero_from n cs ≡ true
      → value_at (resize n cs) x ≡ value_at cs x
  unfolding resize
  value_at-resize zero cs x h = sym (value_at-of_all_zero cs x h)
  value_at-resize (suc n) [] x h =
      ap (λ t. s.zero ⊕ x ⊗ t) (value_at-resize n [] x (nil n))
      ∙ ring (x ∷ []) (:0 :+ var 0 :* :0) :0 refl
    where
      nil : (n : ℕ) → zero_from n [] ≡ true
      nil zero = refl
      nil (suc n) = refl
  value_at-resize (suc n) (c ∷ cs) x h = ap (λ t. c ⊕ x ⊗ t) (value_at-resize n cs x h)

  length-resize : (n : ℕ) (cs : List F) → length (resize n cs) ≡ n
  unfolding resize
  length-resize zero cs = refl
  length-resize (suc n) [] = omega (arith, length-resize n [])
  length-resize (suc n) (c ∷ cs) = omega (arith, length-resize n cs)

  module _ (op : F → F → F) (f : F) (op-eq : (a b : F) → op a b ≡ a ⊕ f ⊗ b) (x : F) where
    value_at-zip_with :
        (p q : List F)
        → value_at (zip_with op p q) x ≡ value_at p x ⊕ f ⊗ value_at (resize (length p) q) x
    unfolding zip_with resize
    value_at-zip_with [] q = ring (f ∷ []) :0 (:0 :+ var 0 :* :0) refl
    value_at-zip_with (a ∷ p) [] =
        ring (a ∷ x ∷ value_at p x ∷ f ∷ []) (var 0 :+ var 1 :* var 2)
          (var 0 :+ var 1 :* var 2 :+ var 3 :* :0) refl
        ∙ ap (λ t. a ⊕ x ⊗ value_at p x ⊕ f ⊗ t) (sym (value_at-resize (suc (length p)) [] x refl))
    value_at-zip_with (a ∷ p) (b ∷ q) =
        ap₂ (λ t u. t ⊕ x ⊗ u) (op-eq a b) (value_at-zip_with p q)
        ∙ ring (a ∷ b ∷ f ∷ x ∷ value_at p x ∷ value_at (resize (length p) q) x ∷ [])
            ((var 0 :+ var 2 :* var 1) :+ var 3 :* (var 4 :+ var 2 :* var 5))
            ((var 0 :+ var 3 :* var 4) :+ var 2 :* (var 1 :+ var 3 :* var 5)) refl

    -- The zip over the longer degree loses nothing.
    pub zip_with_long :
        (p q : Polynomial F)
        → is_zero p ≡ false
        → is_zero q ≡ false
        → degree q ≤ degree p
        → value_at (zip_with op p q) x ≡ value_at p x ⊕ f ⊗ value_at q x
    zip_with_long p q hp hq h =
        value_at-zip_with p q
        ∙ ap (λ t. value_at p x ⊕ f ⊗ t)
            (value_at-resize (length p) q x
              (zero_from-degree q (length p) hq (omega (arith, degree-lt-length p hp))))

    -- Nor does the zip after resizing to the length of the other.
    pub zip_with_resized :
        (p q : Polynomial F)
        → zero_from (length q) p ≡ true
        → value_at (zip_with op (resize (length q) p) q) x ≡ value_at p x ⊕ f ⊗ value_at q x
    zip_with_resized p q h =
        value_at-zip_with (resize (length q) p) q
        ∙ ap₂ (λ t u. t ⊕ f ⊗ u) (value_at-resize (length q) p x h)
            (value_at-resize (length (resize (length q) p)) q x (
              zero_from-of_length (length (resize (length q) p)) q
                (omega (arith, length-resize (length q) p))))
