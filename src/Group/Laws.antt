-- ===== src/Group/Laws.antt =====
-- Laws of the groups that the commitment scheme uses.
use plonk.Prelude.{◌≡◌, sym, ap, ◌∙◌}
use plonk.Scalar.{Scalar, ◌⊖◌}
use plonk.Group.{Group}

module _ (F : Type 0) {G : Type 0} ⦃s : Scalar F⦄ ⦃g : Group F G⦄ where
  pub plus-identity : (a : G) → g.plus a g.identity ≡ a
  plus-identity a = g.plus_comm a g.identity ∙ g.identity-plus a

  pub plus_cancel : (a b : G) → g.plus a b ≡ a → b ≡ g.identity
  plus_cancel a b h =
      sym (g.identity-plus b)
      ∙ ap (λ t. g.plus t b) (sym (g.plus_comm (g.negate a) a ∙ g.plus-negate a))
      ∙ g.plus_assoc (g.negate a) a b
      ∙ ap (g.plus (g.negate a)) h
      ∙ g.plus_comm (g.negate a) a
      ∙ g.plus-negate a

  pub times-zero : (a : G) → g.times a s.zero ≡ g.identity
  times-zero a =
      plus_cancel (g.times a s.zero) (g.times a s.zero)
        (sym (g.times-add a s.zero s.zero) ∙ ap (g.times a) (s.zero-add s.zero))

  pub negate_unique : (a b : G) → g.plus a b ≡ g.identity → g.negate a ≡ b
  negate_unique a b h =
      sym (plus-identity (g.negate a))
      ∙ ap (g.plus (g.negate a)) (sym h)
      ∙ sym (g.plus_assoc (g.negate a) a b)
      ∙ ap (λ t. g.plus t b) (g.plus_comm (g.negate a) a ∙ g.plus-negate a)
      ∙ g.identity-plus b

module _ {F G : Type 0} ⦃s : Scalar F⦄ ⦃g : Group F G⦄ where
  -- Multiples of one point are added, negated and subtracted by their scalars.
  pub negate-times : (a : G) (c : F) → g.negate (g.times a c) ≡ g.times a (s.neg c)
  negate-times a c =
      negate_unique F (g.times a c) (g.times a (s.neg c))
        (sym (g.times-add a c (s.neg c)) ∙ ap (g.times a) (s.add-neg c) ∙ times-zero F a)

  pub minus-times : (a : G) (c d : F) → g.minus (g.times a c) (g.times a d) ≡ g.times a (c ⊖ d)
  minus-times a c d =
      g.minus_lem _ _
      ∙ ap (g.plus (g.times a c)) (negate-times a d)
      ∙ sym (g.times-add a c (s.neg d))
      ∙ ap (g.times a) (sym (s.sub_lem c d))
