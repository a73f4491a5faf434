-- ===== src/Polynomial/Ruffini.antt =====
-- `ruffini` of src/fft/polynomial.rs: division by X - z, which the opening proofs are made of.
use plonk.Prelude.{◌≡◌, refl, sym, ap, ap₂, ◌∙◌, some, List, [], ◌∷◌, reverse}
use plonk.Scalar.{Scalar, ◌⊕◌, ◌⊖◌, ◌⊗◌}
use plonk.Scalar.Ring.{var, :0, ◌:+◌, ◌:-◌, ◌:*◌, ring}
use plonk.Polynomial.{Polynomial, ruffini_loop, pop, ruffini, evaluate}
use plonk.Polynomial.Evaluate.{
  value_at, horner, horner-reverse, value_at-reverse, from_coefficients_vec_lem, evaluate-value_at,
}

module _ {F : Type 0} ⦃s : Scalar F⦄ where
  -- The last quotient, which the code drops: the remainder.
  abbrev last_of : F → List F → F
  last_of t [] = t
  last_of t (u ∷ ts) = last_of u ts

  -- With the quotients so far and the last one `t`, the loop keeps the division correct.
  divides :
      (z x q t : F) (cs : List F)
      → horner x ((x ⊖ z) ⊗ q ⊕ t) cs
        ≡ (x ⊖ z) ⊗ horner x q (pop (t ∷ ruffini_loop z (z ⊗ t) cs))
          ⊕ last_of t (ruffini_loop z (z ⊗ t) cs)
  unfolding ruffini_loop pop
  divides z x q t [] = refl
  divides z x q t (c ∷ cs) =
      ap (λ u. horner x u cs)
        (ring (z ∷ x ∷ q ∷ t ∷ c ∷ []) (((var 1 :- var 0) :* var 2 :+ var 3) :* var 1 :+ var 4)
          ((var 1 :- var 0) :* (var 2 :* var 1 :+ var 3) :+ (var 4 :+ var 0 :* var 3)) refl)
      ∙ divides z x (q ⊗ x ⊕ t) (c ⊕ z ⊗ t) cs

  remainder : F → List F → F
  remainder z [] = s.zero
  remainder z (c ∷ cs) = last_of (c ⊕ s.zero) (ruffini_loop z (z ⊗ (c ⊕ s.zero)) cs)

  horner-ruffini :
      (z x : F) (cs : List F)
      → horner x s.zero cs
        ≡ (x ⊖ z) ⊗ horner x s.zero (pop (ruffini_loop z s.zero cs)) ⊕ remainder z cs
  unfolding ruffini_loop pop remainder
  horner-ruffini z x [] = ring (z ∷ x ∷ []) :0 ((var 1 :- var 0) :* :0 :+ :0) refl
  horner-ruffini z x (c ∷ cs) =
      ap (λ u. horner x u cs)
        (ring (z ∷ x ∷ c ∷ []) (:0 :* var 1 :+ var 2) ((var 1 :- var 0) :* :0 :+ (var 2 :+ :0))
          refl)
      ∙ divides z x s.zero (c ⊕ s.zero) cs

  remainder-value_at : (z : F) (p : Polynomial F) → remainder z (reverse p) ≡ value_at p z
  remainder-value_at z p =
      ring
        (z
          ∷ horner z s.zero (pop (ruffini_loop z s.zero (reverse p)))
          ∷ remainder z (reverse p)
          ∷ [])
        (var 2) ((var 0 :- var 0) :* var 1 :+ var 2) refl
      ∙ sym (horner-ruffini z z (reverse p))
      ∙ horner-reverse z p

  -- For every polynomial p and point z the division returns a quotient q with p(x) = (x - z) *
  -- q(x) + p(z) at every point x: its assertion cannot fail, and the remainder that it drops is
  -- the value at z.
  pub ruffini-evaluate :
      (p : Polynomial F) (z : F)
      → (q : Polynomial F) × (ruffini p z ≡ some q)
        × ((x : F) → evaluate p x ≡ (x ⊖ z) ⊗ evaluate q x ⊕ evaluate p z)
  unfolding ruffini
  ruffini-evaluate p z =
      let (q, e, values) =
        from_coefficients_vec_lem (reverse (pop (ruffini_loop z s.zero (reverse p)))) in
      (
        q,
        e,
        λ x.
            evaluate-value_at p x
            ∙ sym (horner-reverse x p)
            ∙ horner-ruffini z x (reverse p)
            ∙ ap₂ (λ t u. (x ⊖ z) ⊗ t ⊕ u)
                (sym (
                  evaluate-value_at q x
                  ∙ values x
                  ∙ value_at-reverse x (pop (ruffini_loop z s.zero (reverse p)))))
                (remainder-value_at z p ∙ sym (evaluate-value_at p z)),
      )
