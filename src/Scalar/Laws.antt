-- ===== src/Scalar/Laws.antt =====
-- Laws of the scalar field that the components share.
use plonk.Prelude.{◌≡◌, ◌⊎◌, inl, inr, refl, sym, ap, ◌∙◌, ◌≡⟨◌⟩◌, ◌∎, Option-cases, [], ◌∷◌}
use plonk.Scalar.{Scalar, ◌⊕◌, ◌⊖◌, ◌⊗◌}
use plonk.Scalar.Ring.{var, ◌:+◌, ◌:-◌, ◌:*◌, ring, mul-zero}

module _ {F : Type 0} ⦃s : Scalar F⦄ where
  pub from-one : s.from 1 ≡ s.one
  from-one = s.from-suc 0 ∙ ap (λ x. x ⊕ s.one) s.from-zero ∙ s.zero-add s.one

  pub sub_self : (a : F) → a ⊖ a ≡ s.zero
  sub_self a = s.sub_lem a a ∙ s.add-neg a

  pub eq_of_sub : (a b : F) → a ⊖ b ≡ s.zero → a ≡ b
  eq_of_sub a b h =
      ring (a ∷ b ∷ []) (var 0) ((var 0 :- var 1) :+ var 1) refl ∙ ap (λ x. x ⊕ b) h ∙ s.zero-add b

  pub sub_of_eq : (a b : F) → a ≡ b → a ⊖ b ≡ s.zero
  sub_of_eq a b h = ap (λ x. x ⊖ b) h ∙ sub_self b

  -- A field has no zero divisors.
  pub mul-eq_zero : (a b : F) → a ⊗ b ≡ s.zero → (a ≡ s.zero) ⊎ (b ≡ s.zero)
  mul-eq_zero a b h = elim (Option-cases (s.invert a)) [
    | inl e ↦ inl (s.invert-none a e)
    | inr (y, e) ↦ inr (
        b
        ≡⟨ sym (s.one-mul b) ⟩ s.one ⊗ b
        ≡⟨ ap (λ x. x ⊗ b) (sym (s.mul-invert a y e)) ⟩ (a ⊗ y) ⊗ b
        ≡⟨ ring (a ∷ b ∷ y ∷ []) ((var 0 :* var 2) :* var 1) (var 2 :* (var 0 :* var 1)) refl ⟩
          y ⊗ (a ⊗ b)
        ≡⟨ ap (s.mul y) h ∙ mul-zero y ⟩ s.zero ∎)
  ]
