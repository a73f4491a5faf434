-- ===== src/Scalar/Numerals.antt =====
-- Equations between numerals of the field, decided on the native numbers.
use plonk.Prelude.{ℕ, zero, suc, ◌+◌, ◌*◌, ◌≡◌, refl, sym, ap, ap₂, ◌∙◌, List, [], ◌∷◌, arith}
use plonk.Scalar.{Scalar, ◌⊕◌, ◌⊗◌}
use plonk.Scalar.Ring.{
  Expr, var, :0, :1, ◌:+◌, ◌:-◌, ◌:*◌, :neg, eval, value, add-zero, mul-one, mul-zero, add_cancel,
  interchange, mul_parts, neg_add_cancel, sub_parts,
}
use plonk.Scalar.Laws.{from-one}

abbrev pub numeral : List ℕ → ℕ → ℕ
numeral [] i = 0
numeral (n ∷ ns) zero = n
numeral (n ∷ ns) (suc i) = numeral ns i

-- The parts that are added and subtracted, as numbers.
abbrev mutual
  pub gained : List ℕ → Expr → ℕ
  gained ns (var i) = numeral ns i
  gained ns :0 = 0
  gained ns :1 = 1
  gained ns (a :+ b) = gained ns a + gained ns b
  gained ns (a :- b) = gained ns a + lost ns b
  gained ns (a :* b) = gained ns a * gained ns b + lost ns a * lost ns b
  gained ns (:neg a) = lost ns a

  pub lost : List ℕ → Expr → ℕ
  lost ns (var i) = 0
  lost ns :0 = 0
  lost ns :1 = 0
  lost ns (a :+ b) = lost ns a + lost ns b
  lost ns (a :- b) = lost ns a + gained ns b
  lost ns (a :* b) = gained ns a * lost ns b + lost ns a * gained ns b
  lost ns (:neg a) = gained ns a

module _ {F : Type 0} ⦃s : Scalar F⦄ where
  pub from-add : (m n : ℕ) → s.from (m + n) ≡ s.from m ⊕ s.from n
  from-add m zero =
      ap s.from {x = m + 0} (omega arith)
      ∙ sym (add-zero _)
      ∙ ap (s.add (s.from m)) (sym s.from-zero)
  from-add m (suc n) =
      ap s.from {x = m + suc n} (omega arith)
      ∙ s.from-suc (m + n)
      ∙ ap (λ t. t ⊕ s.one) (from-add m n)
      ∙ s.add_assoc _ _ _
      ∙ ap (s.add (s.from m)) (sym (s.from-suc n))

  pub from-mul : (m n : ℕ) → s.from (m * n) ≡ s.from m ⊗ s.from n
  from-mul m zero =
      ap s.from {x = m * 0} (omega arith)
      ∙ s.from-zero
      ∙ sym (ap (s.mul (s.from m)) s.from-zero ∙ mul-zero _)
  from-mul m (suc n) =
      ap s.from {x = m * suc n} (omega arith)
      ∙ from-add (m * n) m
      ∙ ap₂ s.add (from-mul m n) (sym (mul-one _))
      ∙ sym (s.mul-add _ _ _)
      ∙ ap (s.mul (s.from m)) (sym (s.from-suc n))

  abbrev pub numerals : List ℕ → List F
  numerals [] = []
  numerals (n ∷ ns) = s.from n ∷ numerals ns

  value-numerals : (ns : List ℕ) (i : ℕ) → value (numerals ns) i ≡ s.from (numeral ns i)
  value-numerals [] i = sym s.from-zero
  value-numerals (n ∷ ns) zero = refl
  value-numerals (n ∷ ns) (suc i) = value-numerals ns i

  parts :
      (ns : List ℕ) (e : Expr) → eval (numerals ns) e ⊕ s.from (lost ns e) ≡ s.from (gained ns e)
  parts ns (var i) = ap₂ s.add (value-numerals ns i) s.from-zero ∙ add-zero _
  parts ns :0 = s.zero-add _
  parts ns :1 = ap (s.add s.one) s.from-zero ∙ add-zero _ ∙ sym from-one
  parts ns (a :+ b) =
      rw (from-add (lost ns a) (lost ns b), from-add (gained ns a) (gained ns b))
        (interchange _ _ _ _ ∙ ap₂ s.add (parts ns a) (parts ns b))
  parts ns (a :- b) =
      rw
        (
          from-add (lost ns a) (gained ns b),
          from-add (gained ns a) (lost ns b),
          ← parts ns a,
          ← parts ns b,
        )
        (sub_parts _ _ _ _)
  parts ns (a :* b) =
      rw
        (
          from-add (gained ns a * lost ns b) (lost ns a * gained ns b),
          from-add (gained ns a * gained ns b) (lost ns a * lost ns b),
          from-mul (gained ns a) (lost ns b),
          from-mul (lost ns a) (gained ns b),
          from-mul (gained ns a) (gained ns b),
          from-mul (lost ns a) (lost ns b),
          ← parts ns a,
          ← parts ns b,
        )
        (mul_parts _ _ _ _)
  parts ns (:neg a) = rw (← parts ns a) (neg_add_cancel _ _)

  -- Two expressions over numerals are equal if they are as numbers.
  pub numeral_eq :
      (ns : List ℕ) (a b : Expr)
      → gained ns a + lost ns b ≡ gained ns b + lost ns a
      → eval (numerals ns) a ≡ eval (numerals ns) b
  numeral_eq ns a b h = add_cancel _ _ (s.from (lost ns a) ⊕ s.from (lost ns b)) (
      sym (s.add_assoc _ _ _)
      ∙ ap (λ t. t ⊕ s.from (lost ns b)) (parts ns a)
      ∙ sym (from-add _ _)
      ∙ ap s.from h
      ∙ from-add _ _
      ∙ ap (λ t. t ⊕ s.from (lost ns a)) (sym (parts ns b))
      ∙ s.add_assoc _ _ _
      ∙ ap (s.add (eval (numerals ns) b)) (s.add_comm _ _))
