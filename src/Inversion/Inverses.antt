-- ===== src/Inversion/Inverses.antt =====
-- `batch_inversion` against the inversion of each element.
use plonk.Prelude.{
  ◌≡◌, ◌≢◌, refl, sym, ap, ◌∙◌, true, false, Bool-cases, inl, inr, none, some, Option-cases, List,
  [], ◌∷◌, ◌++◌, map, reverse, append-nil, append_assoc, length, length-append, length-reverse, ◌<◌,
  arith,
}
use mathlib.Core.List.{reverse-cons, reverse-append, reverse-reverse}
use plonk.Scalar.{Scalar, ◌⊗◌}
use plonk.Scalar.Ring.{var, ◌:*◌, ring, mul-one, mul-zero}
use plonk.Scalar.Laws.{mul-eq_zero}
use plonk.Inversion.{products, invert_backwards, drop_first, earlier_products, batch_inversion}

reverse-cons_append :
    {A : Type 0} (x : A) (xs ys : List A) → reverse (x ∷ xs) ++ ys ≡ reverse xs ++ x ∷ ys
reverse-cons_append x xs ys =
    ap (λ t. t ++ ys) (reverse-cons x xs) ∙ append_assoc (reverse xs) (x ∷ []) ys

module _ {F : Type 0} ⦃s : Scalar F⦄ where
  -- The inverse of an element, or zero for zero.
  unfoldable pub inverse_or_zero : F → F
  inverse_or_zero x = elim (s.invert x) [ none ↦ x | some y ↦ y ]

  -- The products before each element that is not zero.
  before : F → List F → List F
  before tmp [] = []
  before tmp (f ∷ fs) = elim (s.beq f s.zero) [
    | true ↦ before tmp fs
    | false ↦ tmp ∷ before (tmp ⊗ f) fs
  ]

  ne_of_beq : (x : F) → s.beq x s.zero ≡ false → x ≢ s.zero
  ne_of_beq x h e = let h' : s.beq x s.zero ≡ true = (s.beq_iff x s.zero).1 e in cc

  invert_of_zero : (x : F) → x ≡ s.zero → s.invert x ≡ none
  invert_of_zero x e = elim (Option-cases (s.invert x)) [
    | inl h ↦ h
    | inr (y, h) ↦ absurd (
        s.one-ne-zero
          (sym (s.mul-invert x y h) ∙ ap (λ t. t ⊗ y) e ∙ s.mul_comm s.zero y ∙ mul-zero y))
  ]

  inverse_unique : (x y z : F) → x ⊗ y ≡ s.one → x ⊗ z ≡ s.one → y ≡ z
  inverse_unique x y z hy hz =
      sym (mul-one y)
      ∙ ap (s.mul y) (sym hz)
      ∙ ring (x ∷ y ∷ z ∷ []) (var 1 :* (var 0 :* var 2)) (var 0 :* var 1 :* var 2) refl
      ∙ ap (λ t. t ⊗ z) hy
      ∙ s.one-mul z

  inverse_or_zero-zero : (x : F) → s.beq x s.zero ≡ true → inverse_or_zero x ≡ x
  unfolding inverse_or_zero
  inverse_or_zero-zero x h = rw (inverse_or_zero, invert_of_zero x ((s.beq_iff x s.zero).0 h)) refl

  pub inverse_or_zero-mul : (x : F) → x ≢ s.zero → x ⊗ inverse_or_zero x ≡ s.one
  unfolding inverse_or_zero
  inverse_or_zero-mul x h = elim (Option-cases (s.invert x)) [
    | inl e ↦ absurd (h (s.invert-none x e))
    | inr (y, e) ↦ rw (inverse_or_zero, e) (s.mul-invert x y e)
  ]

  product-ne-zero : (tmp : F) (v : List F) → tmp ≢ s.zero → (products tmp v).1 ≢ s.zero
  unfolding products
  product-ne-zero tmp [] h = h
  product-ne-zero tmp (f ∷ fs) h = elim (Bool-cases (s.beq f s.zero)) [
    | inl e ↦ rw (products, e) (product-ne-zero tmp fs h)
    | inr e ↦
        rw (products, e)
          (product-ne-zero (tmp ⊗ f) fs
            (λ z. elim (mul-eq_zero tmp f z) [ inl a ↦ h a | inr b ↦ ne_of_beq f e b ]))
  ]

  -- The products after the first one, shifted by one place.
  products-before :
      (tmp : F) (v : List F) → tmp ∷ (products tmp v).0 ≡ before tmp v ++ (products tmp v).1 ∷ []
  unfolding products before
  products-before tmp [] = refl
  products-before tmp (f ∷ fs) = elim (Bool-cases (s.beq f s.zero)) [
    | inl e ↦ rw (products, before, e) (products-before tmp fs)
    | inr e ↦ rw (products, before, e) (ap (◌∷◌ tmp) (products-before (tmp ⊗ f) fs))
  ]

  -- The second pass from the inverse of the last product inverts what it goes over, and ends with
  -- the inverse of what stood before it.
  invert_backwards_lem :
      (v : List F) (tmp tmp' : F) (rest ss : List F)
      → tmp' ⊗ (products tmp v).1 ≡ s.one
      → (last : F) × (last ⊗ tmp ≡ s.one)
        × (invert_backwards tmp' (reverse v ++ rest) (reverse (before tmp v) ++ ss)
            ≡ reverse (map inverse_or_zero v) ++ invert_backwards last rest ss)
  unfolding products before invert_backwards
  invert_backwards_lem [] tmp tmp' rest ss h = (tmp', h, refl)
  invert_backwards_lem (x ∷ v) tmp tmp' rest ss h = elim (Bool-cases (s.beq x s.zero)) [
    | inl e ↦
        let (last, inv, eq) =
          invert_backwards_lem v tmp tmp' (x ∷ rest) ss (rw (products, e) at h) in
        (
          last,
          inv,
          rw
              (
                before,
                e,
                reverse-cons_append x v rest,
                reverse-cons_append (inverse_or_zero x) (map inverse_or_zero v)
                    (invert_backwards last rest ss),
              )
              (eq ∙ rw (invert_backwards, e, inverse_or_zero-zero x e) refl),
        )
    | inr e ↦
        let (last, inv, eq) =
          invert_backwards_lem v (tmp ⊗ x) tmp' (x ∷ rest) (tmp ∷ ss) (rw (products, e) at h) in
        let inverse : last ⊗ tmp ≡ inverse_or_zero x =
          inverse_unique x (last ⊗ tmp) (inverse_or_zero x)
            (ring (x ∷ last ∷ tmp ∷ []) (var 0 :* (var 1 :* var 2)) (var 1 :* (var 2 :* var 0)) refl
              ∙ inv)
            (inverse_or_zero-mul x (ne_of_beq x e)) in
        (
          last ⊗ x,
          ring (x ∷ last ∷ tmp ∷ []) (var 1 :* var 0 :* var 2) (var 1 :* (var 2 :* var 0)) refl
              ∙ inv,
          rw
              (
                before,
                e,
                reverse-cons_append x v rest,
                reverse-cons_append tmp (before (tmp ⊗ x) v) ss,
                reverse-cons_append (inverse_or_zero x) (map inverse_or_zero v)
                    (invert_backwards (last ⊗ x) rest ss),
              )
              (eq ∙ rw (invert_backwards, e, inverse) refl),
        )
  ]

  eq_of_singleton : (xs : List F) (y z : F) → z ∷ [] ≡ xs ++ y ∷ [] → xs ≡ []
  eq_of_singleton [] y z h = refl
  eq_of_singleton (x ∷ xs) y z h = absurd (omega (arith, ap length h, length-append xs (y ∷ [])))

  drop_first-append :
      (xs : List F) (y : F) → 0 < length xs → drop_first xs ++ y ∷ [] ≡ drop_first (xs ++ y ∷ [])
  drop_first-append [] y h = absurd (omega arith)
  drop_first-append (x ∷ xs) y h = refl

  -- The earlier products in the order of the second pass, and what it does not come to.
  earlier_products-before :
      (v : List F)
      → (ss : List F) × (earlier_products (products s.one v).0 ≡ reverse (before s.one v) ++ ss)
  unfolding earlier_products
  earlier_products-before v = go (products s.one v).0 (products-before s.one v)
    where
      go :
          (prod : List F)
          → s.one ∷ prod ≡ before s.one v ++ (products s.one v).1 ∷ []
          → (ss : List F) × (earlier_products prod ≡ reverse (before s.one v) ++ ss)
      go [] h = (s.one ∷ [], rw (eq_of_singleton (before s.one v) _ s.one h) refl)
      go (p ∷ ps) h = (
        [],
        drop_first-append (reverse (p ∷ ps)) s.one (omega (arith, length-reverse (p ∷ ps)))
            ∙ ap drop_first (
                sym (reverse-cons s.one (p ∷ ps))
                ∙ ap reverse h
                ∙ reverse-append (before s.one v) ((products s.one v).1 ∷ []))
            ∙ sym (append-nil _),
      )

  -- The inversion of a vector by one inversion and two passes never fails, and gives the inverse
  -- of each element, or zero for zero.
  pub batch_inversion_lem : (v : List F) → batch_inversion v ≡ some (map inverse_or_zero v)
  unfolding batch_inversion invert_backwards
  batch_inversion_lem v = elim (Option-cases (s.invert (products s.one v).1)) [
    | inl e ↦ absurd (product-ne-zero s.one v s.one-ne-zero (s.invert-none _ e))
    | inr (tmp, e) ↦
        let (ss, shifted) = earlier_products-before v in
        let (last, inv, eq) =
          invert_backwards_lem v s.one tmp [] ss (s.mul_comm tmp _ ∙ s.mul-invert _ tmp e) in
        rw (batch_inversion, e, shifted, sym (append-nil (reverse v)))
          (ap some (
            ap reverse (eq ∙ append-nil (reverse (map inverse_or_zero v)))
            ∙ reverse-reverse (map inverse_or_zero v)))
  ]
