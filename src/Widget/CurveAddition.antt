-- ===== src/Widget/CurveAddition.antt =====
-- The curve addition widget: the next row holds the sum of the two points of a row.
use plonk.Prelude.{
  ℕ, ◌≡◌, ◌≢◌, inl, inr, refl, sym, ap, ap₂, ◌∙◌, ◌↔◌, some, List, [], ◌∷◌, get_elem?,
}
use plonk.Scalar.{Scalar, ◌⊕◌, ◌⊖◌, ◌⊗◌}
use plonk.Scalar.Ring.{var, :0, ◌:+◌, ◌:-◌, ◌:*◌, ring}
use plonk.Scalar.Laws.{sub_of_eq, eq_of_sub, mul-eq_zero}
use plonk.Widget.Quotient.{curve_addition_quotient}

module _ {F : Type 0} ⦃s : Scalar F⦄ where
  -- The addition law of the twisted Edwards curve `-x² + y² = 1 + d x² y²`, cleared of its
  -- denominators.
  pub record IsSum (d x_1 y_1 x_2 y_2 x_3 y_3 : F) : Type 0 where
    pub x_sum : x_1 ⊗ y_2 ⊕ y_1 ⊗ x_2 ≡ x_3 ⊕ x_3 ⊗ d ⊗ (x_1 ⊗ y_2) ⊗ (y_1 ⊗ x_2)
    pub y_sum : y_1 ⊗ y_2 ⊕ x_1 ⊗ x_2 ≡ y_3 ⊖ y_3 ⊗ d ⊗ (x_1 ⊗ y_2) ⊗ (y_1 ⊗ x_2)

  -- The next row of a sum makes the term zero for every separation challenge.
  pub curve_addition_quotient_vanishes :
      (edwards_d : F) (q_add : List F) (index : ℕ) (q k x_1 y_1 x_2 y_2 x_3 y_3 : F)
      → get_elem? q_add index ≡ some q
      → IsSum edwards_d x_1 y_1 x_2 y_2 x_3 y_3
      → curve_addition_quotient edwards_d q_add index k x_1 x_3 y_1 y_3 x_2 y_2 (x_1 ⊗ y_2)
        ≡ some s.zero
  unfolding curve_addition_quotient
  curve_addition_quotient_vanishes edwards_d q_add index q k x_1 y_1 x_2 y_2 x_3 y_3 e h =
      rw (e, sub_of_eq _ _ h.x_sum, sub_of_eq _ _ h.y_sum)
        (ap some (
          ring (q ∷ k ∷ x_1 ⊗ y_2 ∷ [])
            ((var 2
                :- var 2
                :+ :0 :* (var 1 :* var 1)
                :+ :0 :* ((var 1 :* var 1) :* (var 1 :* var 1)))
              :* var 0
              :* var 1)
            :0 refl))

  cancel : (x y : F) → x ≢ s.zero → x ⊗ y ≡ s.zero → y ≡ s.zero
  cancel x y h e = elim (mul-eq_zero x y e) [ inl z ↦ absurd (h z) | inr z ↦ z ]

  difference : (x y : F) → x ≢ y → x ⊖ y ≢ s.zero
  difference x y h e = h (eq_of_sub x y e)

  -- The divided difference of a quadratic polynomial at two of its zeros.
  divided :
      (a b c k l : F)
      → k ≢ l
      → a ⊕ b ⊗ k ⊕ c ⊗ (k ⊗ k) ≡ s.zero
      → a ⊕ b ⊗ l ⊕ c ⊗ (l ⊗ l) ≡ s.zero
      → b ⊕ c ⊗ (k ⊕ l) ≡ s.zero
  divided a b c k l h ek el = cancel (k ⊖ l) (b ⊕ c ⊗ (k ⊕ l)) (difference k l h) (
      ring (a ∷ b ∷ c ∷ k ∷ l ∷ []) ((var 3 :- var 4) :* (var 1 :+ var 2 :* (var 3 :+ var 4)))
        ((var 0 :+ var 1 :* var 3 :+ var 2 :* (var 3 :* var 3))
          :- (var 0 :+ var 1 :* var 4 :+ var 2 :* (var 4 :* var 4)))
        refl
      ∙ sub_of_eq _ _ (ek ∙ sym el))

  -- A quadratic polynomial with three zeros has no coefficient but zero.
  three_zeros :
      (a b c k l m : F)
      → k ≢ l
      → k ≢ m
      → l ≢ m
      → a ⊕ b ⊗ k ⊕ c ⊗ (k ⊗ k) ≡ s.zero
      → a ⊕ b ⊗ l ⊕ c ⊗ (l ⊗ l) ≡ s.zero
      → a ⊕ b ⊗ m ⊕ c ⊗ (m ⊗ m) ≡ s.zero
      → (a ≡ s.zero) × (b ≡ s.zero) × (c ≡ s.zero)
  three_zeros a b c k l m kl km lm ek el em = (a_zero, b_zero, c_zero)
    where
      dl : b ⊕ c ⊗ (k ⊕ l) ≡ s.zero
      dl = divided a b c k l kl ek el

      dm : b ⊕ c ⊗ (k ⊕ m) ≡ s.zero
      dm = divided a b c k m km ek em

      c_zero : c ≡ s.zero
      c_zero = cancel (l ⊖ m) c (difference l m lm) (
          ring (b ∷ c ∷ k ∷ l ∷ m ∷ []) ((var 3 :- var 4) :* var 1)
            ((var 0 :+ var 1 :* (var 2 :+ var 3)) :- (var 0 :+ var 1 :* (var 2 :+ var 4))) refl
          ∙ sub_of_eq _ _ (dl ∙ sym dm))

      b_zero : b ≡ s.zero
      b_zero =
          ring (b ∷ k ∷ l ∷ []) (var 0) (var 0 :+ :0 :* (var 1 :+ var 2)) refl
          ∙ ap (λ z. b ⊕ z ⊗ (k ⊕ l)) (sym c_zero)
          ∙ dl

      a_zero : a ≡ s.zero
      a_zero =
          ring (a ∷ k ∷ []) (var 0) (var 0 :+ :0 :* var 1 :+ :0 :* (var 1 :* var 1)) refl
          ∙ ap₂ (λ y z. a ⊕ y ⊗ k ⊕ z ⊗ (k ⊗ k)) (sym b_zero) (sym c_zero)
          ∙ ek

  -- The term of the widget at two rows is zero for the challenge `k`.
  abbrev pub Vanishes : (edwards_d : F) → List F → ℕ → (x_1 y_1 x_2 y_2 x_3 y_3 w k : F) → Type 0
  Vanishes edwards_d q_add index x_1 y_1 x_2 y_2 x_3 y_3 w k =
      curve_addition_quotient edwards_d q_add index k x_1 x_3 y_1 y_3 x_2 y_2 w ≡ some s.zero

  some_injective : (a b : F) → some a ≡ some b → a ≡ b
  some_injective a b e = cc

  -- Without the selector and the challenge, the term is quadratic in the challenge's square.
  quadratic :
      (edwards_d : F) (q_add : List F) (index : ℕ) (q x_1 y_1 x_2 y_2 x_3 y_3 w k : F)
      → get_elem? q_add index ≡ some q
      → q ≢ s.zero
      → k ≢ s.zero
      → Vanishes edwards_d q_add index x_1 y_1 x_2 y_2 x_3 y_3 w k
      → (x_1 ⊗ y_2 ⊖ w)
          ⊕ ((w ⊕ y_1 ⊗ x_2) ⊖ (x_3 ⊕ x_3 ⊗ edwards_d ⊗ w ⊗ (y_1 ⊗ x_2))) ⊗ (k ⊗ k)
          ⊕ ((y_1 ⊗ y_2 ⊕ x_1 ⊗ x_2) ⊖ (y_3 ⊖ y_3 ⊗ edwards_d ⊗ w ⊗ (y_1 ⊗ x_2)))
            ⊗ ((k ⊗ k) ⊗ (k ⊗ k))
        ≡ s.zero
  unfolding curve_addition_quotient
  quadratic edwards_d q_add index q x_1 y_1 x_2 y_2 x_3 y_3 w k e hq hk v =
      cancel q _ hq
        (s.mul_comm q _ ∙ cancel k _ hk (s.mul_comm k _ ∙ some_injective _ _ (rw e at v)))

  -- At a row whose selector is not zero, and for three challenges that are not zero and have
  -- different squares: the term of the curve addition widget is zero for all three exactly if the
  -- fourth wire of the next row is the product of the first x and the second y, and the point of
  -- the next row is the sum of the two points of the row by the addition law of the curve, cleared
  -- of its denominators.
  pub curve_addition_quotient_iff :
      (edwards_d : F) (q_add : List F) (index : ℕ) (q x_1 y_1 x_2 y_2 x_3 y_3 w k l m : F)
      → get_elem? q_add index ≡ some q
      → q ≢ s.zero
      → (k ≢ s.zero) × (l ≢ s.zero) × (m ≢ s.zero)
      → (k ⊗ k ≢ l ⊗ l) × (k ⊗ k ≢ m ⊗ m) × (l ⊗ l ≢ m ⊗ m)
      → (Vanishes edwards_d q_add index x_1 y_1 x_2 y_2 x_3 y_3 w k
          × Vanishes edwards_d q_add index x_1 y_1 x_2 y_2 x_3 y_3 w l
          × Vanishes edwards_d q_add index x_1 y_1 x_2 y_2 x_3 y_3 w m)
        ↔ ((w ≡ x_1 ⊗ y_2) × IsSum edwards_d x_1 y_1 x_2 y_2 x_3 y_3)
  curve_addition_quotient_iff edwards_d q_add index q x_1 y_1 x_2 y_2 x_3 y_3 w k l m e hq nonzero
        distinct =
      (
        λ v.
            let (xy, xs, ys) =
              three_zeros _ _ _ (k ⊗ k) (l ⊗ l) (m ⊗ m) distinct.0 distinct.1 distinct.2
                (quadratic edwards_d q_add index q _ _ _ _ _ _ _ k e hq nonzero.0 v.0)
                (quadratic edwards_d q_add index q _ _ _ _ _ _ _ l e hq nonzero.1 v.1)
                (quadratic edwards_d q_add index q _ _ _ _ _ _ _ m e hq nonzero.2 v.2) in
            let product : w ≡ x_1 ⊗ y_2 = sym (eq_of_sub _ _ xy) in
            (
              product,
              record {
                x_sum = rw product at (eq_of_sub _ _ xs);
                y_sum = rw product at (eq_of_sub _ _ ys);
              },
            ),
        λ h.
            let f : (k : F) → Vanishes edwards_d q_add index x_1 y_1 x_2 y_2 x_3 y_3 w k = λ k.
              rw (h.0)
                (curve_addition_quotient_vanishes edwards_d q_add index q k _ _ _ _ _ _ e h.1) in
            (f k, f l, f m),
      )
