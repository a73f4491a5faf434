-- ===== src/Scalar/Ring.antt =====
-- Equations that hold in every commutative ring, decided by evaluation: both sides are read as
-- expressions over a list of values and expanded into sums of monomials.
use plonk.Prelude.{
  ℕ, zero, suc, ◌≡◌, refl, sym, ap, ap₂, ◌∙◌, ◌≡⟨◌⟩◌, ◌∎, Bool, true, false, ◌&&◌, ◌==◌, leb,
  Option, none, some, if◌then◌else◌, Bool-cases, Option-cases, inl, inr, List, [], ◌∷◌, ◌++◌,
  ==_iff,
}
use mathlib.Core.Option
use plonk.Scalar.{Scalar, ◌⊕◌, ◌⊖◌, ◌⊗◌}

infixl 65 ◌:+◌ ◌:-◌
infixl 70 ◌:*◌
pub data Expr : Type 0 where
  var : ℕ → Expr
  :0 : Expr
  :1 : Expr
  ◌:+◌ : Expr → Expr → Expr
  ◌:-◌ : Expr → Expr → Expr
  ◌:*◌ : Expr → Expr → Expr
  :neg : Expr → Expr

abbrev insert : ℕ → List ℕ → List ℕ
insert i [] = i ∷ []
insert i (j ∷ m) = if leb i j then i ∷ j ∷ m else j ∷ insert i m

abbrev mul_mono : List ℕ → List ℕ → List ℕ
mul_mono [] n = n
mul_mono (i ∷ m) n = insert i (mul_mono m n)

abbrev scale : List ℕ → List (List ℕ) → List (List ℕ)
scale m [] = []
scale m (n ∷ p) = mul_mono m n ∷ scale m p

abbrev expand : List (List ℕ) → List (List ℕ) → List (List ℕ)
expand [] q = []
expand (m ∷ p) q = scale m q ++ expand p q

-- The monomials added and the monomials subtracted.
abbrev mutual
  plus : Expr → List (List ℕ)
  plus (var i) = (i ∷ []) ∷ []
  plus :0 = []
  plus :1 = [] ∷ []
  plus (a :+ b) = plus a ++ plus b
  plus (a :- b) = plus a ++ minus b
  plus (a :* b) = expand (plus a) (plus b) ++ expand (minus a) (minus b)
  plus (:neg a) = minus a

  minus : Expr → List (List ℕ)
  minus (var i) = []
  minus :0 = []
  minus :1 = []
  minus (a :+ b) = minus a ++ minus b
  minus (a :- b) = minus a ++ plus b
  minus (a :* b) = expand (plus a) (minus b) ++ expand (minus a) (plus b)
  minus (:neg a) = plus a

abbrev same : List ℕ → List ℕ → Bool
same [] [] = true
same [] (j ∷ n) = false
same (i ∷ m) [] = false
same (i ∷ m) (j ∷ n) = (i == j) && same m n

-- Takes one occurrence of a monomial away.
abbrev remove : List ℕ → List (List ℕ) → Option (List (List ℕ))
remove m [] = none
remove m (n ∷ p) = if same m n then some p else Option.map (◌∷◌ n) (remove m p)

abbrev balanced : List (List ℕ) → List (List ℕ) → Bool
balanced [] [] = true
balanced [] (n ∷ q) = false
balanced (m ∷ p) q = elim (remove m q) [ none ↦ false | some r ↦ balanced p r ]

abbrev pub agree : Expr → Expr → Bool
agree a b = balanced (plus a ++ minus b) (plus b ++ minus a)

same-eq : (m n : List ℕ) → same m n ≡ true → m ≡ n
same-eq [] [] h = refl
same-eq [] (j ∷ n) h = cc
same-eq (i ∷ m) [] h = cc
same-eq (i ∷ m) (j ∷ n) h = elim (Bool-cases (i == j)) [
  | inl e ↦ ap₂ ◌∷◌ ((==_iff i j).0 e) (same-eq m n (rw e at h))
  | inr e ↦ cc (rw e at h)
]

module _ {F : Type 0} ⦃s : Scalar F⦄ where
  pub add-zero : (a : F) → a ⊕ s.zero ≡ a
  add-zero a = s.add_comm a s.zero ∙ s.zero-add a

  pub add_left_comm : (a b c : F) → a ⊕ (b ⊕ c) ≡ b ⊕ (a ⊕ c)
  add_left_comm a b c =
      sym (s.add_assoc a b c) ∙ ap (λ x. x ⊕ c) (s.add_comm a b) ∙ s.add_assoc b a c

  pub mul_left_comm : (a b c : F) → a ⊗ (b ⊗ c) ≡ b ⊗ (a ⊗ c)
  mul_left_comm a b c =
      sym (s.mul_assoc a b c) ∙ ap (λ x. x ⊗ c) (s.mul_comm a b) ∙ s.mul_assoc b a c

  pub mul-one : (a : F) → a ⊗ s.one ≡ a
  mul-one a = s.mul_comm a s.one ∙ s.one-mul a

  pub add-mul : (a b c : F) → (a ⊕ b) ⊗ c ≡ a ⊗ c ⊕ b ⊗ c
  add-mul a b c =
      s.mul_comm (a ⊕ b) c ∙ s.mul-add c a b ∙ ap₂ s.add (s.mul_comm c a) (s.mul_comm c b)

  pub add_cancel : (a b c : F) → a ⊕ c ≡ b ⊕ c → a ≡ b
  add_cancel a b c h =
      a
      ≡⟨ sym (strip a) ⟩ (a ⊕ c) ⊕ s.neg c
      ≡⟨ ap (λ x. x ⊕ s.neg c) h ⟩ (b ⊕ c) ⊕ s.neg c
      ≡⟨ strip b ⟩ b ∎
    where
      strip : (x : F) → (x ⊕ c) ⊕ s.neg c ≡ x
      strip x = s.add_assoc x c (s.neg c) ∙ ap (s.add x) (s.add-neg c) ∙ add-zero x

  pub mul-zero : (a : F) → a ⊗ s.zero ≡ s.zero
  mul-zero a =
      add_cancel (a ⊗ s.zero) s.zero (a ⊗ s.zero)
        (sym (s.mul-add a s.zero s.zero) ∙ ap (s.mul a) (s.zero-add s.zero) ∙ sym (s.zero-add _))

  abbrev pub value : List F → ℕ → F
  value [] i = s.zero
  value (x ∷ ρ) zero = x
  value (x ∷ ρ) (suc i) = value ρ i

  abbrev pub eval : List F → Expr → F
  eval ρ (var i) = value ρ i
  eval ρ :0 = s.zero
  eval ρ :1 = s.one
  eval ρ (a :+ b) = eval ρ a ⊕ eval ρ b
  eval ρ (a :- b) = eval ρ a ⊖ eval ρ b
  eval ρ (a :* b) = eval ρ a ⊗ eval ρ b
  eval ρ (:neg a) = s.neg (eval ρ a)

  abbrev mono : List F → List ℕ → F
  mono ρ [] = s.one
  mono ρ (i ∷ m) = value ρ i ⊗ mono ρ m

  abbrev total : List F → List (List ℕ) → F
  total ρ [] = s.zero
  total ρ (m ∷ p) = mono ρ m ⊕ total ρ p

  mono-insert : (ρ : List F) (i : ℕ) (m : List ℕ) → mono ρ (insert i m) ≡ value ρ i ⊗ mono ρ m
  mono-insert ρ i [] = refl
  mono-insert ρ i (j ∷ m) = elim (Bool-cases (leb i j)) [
    | inl h ↦ rw h
    | inr h ↦ rw (h, mono-insert ρ i m) (mul_left_comm _ _ _)
  ]

  mono-mul_mono : (ρ : List F) (m n : List ℕ) → mono ρ (mul_mono m n) ≡ mono ρ m ⊗ mono ρ n
  mono-mul_mono ρ [] n = sym (s.one-mul _)
  mono-mul_mono ρ (i ∷ m) n =
      rw (mono-insert ρ i (mul_mono m n), mono-mul_mono ρ m n) (sym (s.mul_assoc _ _ _))

  total-append : (ρ : List F) (p q : List (List ℕ)) → total ρ (p ++ q) ≡ total ρ p ⊕ total ρ q
  total-append ρ [] q = sym (s.zero-add _)
  total-append ρ (m ∷ p) q = rw (total-append ρ p q) (sym (s.add_assoc _ _ _))

  total-scale :
      (ρ : List F) (m : List ℕ) (p : List (List ℕ)) → total ρ (scale m p) ≡ mono ρ m ⊗ total ρ p
  total-scale ρ m [] = sym (mul-zero _)
  total-scale ρ m (n ∷ p) = rw (mono-mul_mono ρ m n, total-scale ρ m p) (sym (s.mul-add _ _ _))

  total-expand : (ρ : List F) (p q : List (List ℕ)) → total ρ (expand p q) ≡ total ρ p ⊗ total ρ q
  total-expand ρ [] q = sym (s.mul_comm s.zero _ ∙ mul-zero _)
  total-expand ρ (m ∷ p) q =
      rw (total-append ρ (scale m q) (expand p q), total-scale ρ m q, total-expand ρ p q)
        (sym (add-mul _ _ _))

  total-remove :
      (ρ : List F) (m : List ℕ) (p r : List (List ℕ))
      → remove m p ≡ some r
      → total ρ p ≡ mono ρ m ⊕ total ρ r
  total-remove ρ m [] r h = cc
  total-remove ρ m (n ∷ p) r h = elim (Bool-cases (same m n)) [
    | inl e ↦ let g : some p ≡ some r = rw e at h in rw (same-eq m n e) (cc)
    | inr e ↦ elim (Option-cases (remove m p)) [
      | inl f ↦ cc (rw (e, f) at h)
      | inr (t, f) ↦
          ap (s.add (mono ρ n)) (total-remove ρ m p t f)
          ∙ add_left_comm _ _ _
          ∙ (let g : some (n ∷ t) ≡ some r = rw (e, f) at h in cc)
    ]
  ]

  total-balanced : (ρ : List F) (p q : List (List ℕ)) → balanced p q ≡ true → total ρ p ≡ total ρ q
  total-balanced ρ [] [] h = refl
  total-balanced ρ [] (n ∷ q) h = cc
  total-balanced ρ (m ∷ p) q h = elim (Option-cases (remove m q)) [
    | inl f ↦ cc (rw (f, balanced) at h)
    | inr (r, f) ↦
        ap (s.add (mono ρ m)) (total-balanced ρ p r (rw (f, balanced) at h))
        ∙ sym (total-remove ρ m q r f)
  ]

  pub interchange : (a b c d : F) → (a ⊕ b) ⊕ (c ⊕ d) ≡ (a ⊕ c) ⊕ (b ⊕ d)
  interchange a b c d = simp (s.add_assoc, add_left_comm)

  pub neg_add_cancel : (a m : F) → s.neg a ⊕ (a ⊕ m) ≡ m
  neg_add_cancel a m =
      sym (s.add_assoc _ _ _)
      ∙ ap (λ x. x ⊕ m) (s.add_comm (s.neg a) a ∙ s.add-neg a)
      ∙ s.zero-add m

  pub sub_parts : (a m b n : F) → (a ⊖ b) ⊕ (m ⊕ (b ⊕ n)) ≡ (a ⊕ m) ⊕ n
  sub_parts a m b n =
      ap₂ s.add (s.sub_lem a b) (add_left_comm m b n)
      ∙ s.add_assoc a _ _
      ∙ ap (s.add a) (neg_add_cancel b (m ⊕ n))
      ∙ sym (s.add_assoc a m n)

  pub mul_parts : (a m b n : F) → a ⊗ b ⊕ ((a ⊕ m) ⊗ n ⊕ m ⊗ (b ⊕ n)) ≡ (a ⊕ m) ⊗ (b ⊕ n) ⊕ m ⊗ n
  mul_parts a m b n =
      ap (λ x. a ⊗ b ⊕ ((a ⊕ m) ⊗ n ⊕ x)) (s.mul-add m b n)
      ∙ regroup _ _ _ _
      ∙ ap (λ x. x ⊕ (a ⊕ m) ⊗ n ⊕ m ⊗ n) (sym (add-mul a m b))
      ∙ ap (λ x. x ⊕ m ⊗ n) (sym (s.mul-add _ b n))
    where
      regroup : (p q r t : F) → p ⊕ (q ⊕ (r ⊕ t)) ≡ (p ⊕ r) ⊕ q ⊕ t
      regroup p q r t = simp (s.add_assoc, s.add_comm)

  -- What an expression stands for, with the monomials that are subtracted moved over.
  eval_lem : (ρ : List F) (e : Expr) → eval ρ e ⊕ total ρ (minus e) ≡ total ρ (plus e)
  eval_lem ρ (var i) = ap (λ x. x ⊕ s.zero) (sym (mul-one _))
  eval_lem ρ :0 = s.zero-add s.zero
  eval_lem ρ :1 = refl
  eval_lem ρ (a :+ b) =
      rw (total-append ρ (minus a) (minus b), total-append ρ (plus a) (plus b))
        (interchange _ _ _ _ ∙ ap₂ s.add (eval_lem ρ a) (eval_lem ρ b))
  eval_lem ρ (a :- b) =
      rw
        (
          total-append ρ (minus a) (plus b),
          total-append ρ (plus a) (minus b),
          ← eval_lem ρ a,
          ← eval_lem ρ b,
        )
        (sub_parts _ _ _ _)
  eval_lem ρ (a :* b) =
      rw
        (
          total-append ρ (expand (plus a) (minus b)) (expand (minus a) (plus b)),
          total-append ρ (expand (plus a) (plus b)) (expand (minus a) (minus b)),
          total-expand ρ (plus a) (minus b),
          total-expand ρ (minus a) (plus b),
          total-expand ρ (plus a) (plus b),
          total-expand ρ (minus a) (minus b),
          ← eval_lem ρ a,
          ← eval_lem ρ b,
        )
        (mul_parts _ _ _ _)
  eval_lem ρ (:neg a) = rw (← eval_lem ρ a) (neg_add_cancel _ _)

  -- Two expressions that expand to the same monomials have one value, whatever the variables are.
  pub ring : (ρ : List F) (a b : Expr) → agree a b ≡ true → eval ρ a ≡ eval ρ b
  ring ρ a b h = add_cancel (eval ρ a) (eval ρ b) (total ρ (minus a) ⊕ total ρ (minus b)) (
      sym (s.add_assoc _ _ _)
      ∙ ap (λ x. x ⊕ total ρ (minus b)) (eval_lem ρ a)
      ∙ sym (total-append ρ (plus a) (minus b))
      ∙ total-balanced ρ (plus a ++ minus b) (plus b ++ minus a) h
      ∙ total-append ρ (plus b) (minus a)
      ∙ ap (λ x. x ⊕ total ρ (minus a)) (sym (eval_lem ρ b))
      ∙ s.add_assoc _ _ _
      ∙ ap (s.add (eval ρ b)) (s.add_comm _ _))
