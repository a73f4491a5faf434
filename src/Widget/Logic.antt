-- ===== src/Widget/Logic.antt =====
-- The logic widget: the output accumulator is extended by the conjunction or the exclusive
-- disjunction of the digits that extend the inputs.
use plonk.Prelude.{
  ℕ, ◌+◌, ◌*◌, ◌<◌, ◌≡◌, ◌≢◌, inl, inr, ◌↔◌, refl, sym, ap, ap₂, ◌∙◌, Bool, true, false, some, List,
  [], ◌∷◌, get_elem?, ◌==◌, ==_iff, all_below, all_below_sound, ltb, ltb→lt, arith,
}
use plonk.Scalar.{Scalar, ◌⊕◌, ◌⊖◌, ◌⊗◌}
use plonk.Scalar.Ring.{Expr, var, :0, :1, ◌:+◌, ◌:-◌, ◌:*◌, :neg, ring}
use plonk.Scalar.Laws.{eq_of_sub, mul-eq_zero, sub_self}
use plonk.Scalar.Numerals.{gained, lost, numeral_eq, from-add, from-mul}
use plonk.Composer.Quads.{xor_quad, and_quad}
use plonk.Widget.Quotient.{LogicKey, delta_xor_and, logic_quotient}
use plonk.Widget.Range.{delta_iff}

abbrev numbers : ℕ → ℕ → ℕ → List ℕ
numbers m n c = m ∷ n ∷ m * n ∷ c ∷ 9 ∷ 2 ∷ 3 ∷ 4 ∷ 18 ∷ 81 ∷ 83 ∷ []

-- What a gate of `append_logic_component` computes on two digits.
abbrev pub logic_quad : Bool → ℕ → ℕ → ℕ
logic_quad true = xor_quad
logic_quad false = and_quad

-- `delta_xor_and` over these numbers.
abbrev identity : Expr → Expr
identity q_c =
    let a = var 0 in
    let b = var 1 in
    let w = var 2 in
    let c = var 3 in
    let f =
      w
      :* (w :* (var 7 :* w :- var 8 :* (a :+ b) :+ var 9)
          :+ var 8 :* (a :* a :+ b :* b)
          :- var 9 :* (a :+ b)
          :+ var 10) in
    q_c :* (var 4 :* c :- var 6 :* (a :+ b)) :+ (var 6 :* (a :+ b :+ c) :- var 5 :* f)

abbrev balanced : (ℕ → ℕ → ℕ) → Expr → ℕ → ℕ → Bool
balanced op q_c m n =
    let ns = numbers m n (op m n) in gained ns (identity q_c) + 0 == 0 + lost ns (identity q_c)

and_balanced : all_below 4 (λ m. all_below 4 (balanced and_quad :1 m)) ≡ true
and_balanced = refl

xor_balanced : all_below 4 (λ m. all_below 4 (balanced xor_quad (:neg :1) m)) ≡ true
xor_balanced = refl

balanced_at :
    (op : ℕ → ℕ → ℕ) (q_c : Expr) (m n : ℕ)
    → m < 4
    → n < 4
    → all_below 4 (λ m. all_below 4 (balanced op q_c m)) ≡ true
    → gained (numbers m n (op m n)) (identity q_c) + 0
      ≡ 0 + lost (numbers m n (op m n)) (identity q_c)
balanced_at op q_c m n hm hn h = (==_iff _ _).0 (
    all_below_sound 4 (balanced op q_c m) n
      (all_below_sound 4 (λ m. all_below 4 (balanced op q_c m)) m h hm) hn)

logic_quad_lt : (b : Bool) (m n : ℕ) → m < 4 → n < 4 → logic_quad b m n < 4
logic_quad_lt true m n hm hn = omega arith
logic_quad_lt false m n hm hn = ltb→lt _ _ (
    all_below_sound 4 (λ n. ltb (and_quad m n) 4) n
      (all_below_sound 4 (λ m. all_below 4 (λ n. ltb (and_quad m n) 4)) m refl hm) hn)

module _ {F : Type 0} ⦃s : Scalar F⦄ where
  and_zero :
      (m n : ℕ)
      → m < 4
      → n < 4
      → delta_xor_and (s.from m) (s.from n) (s.from (m * n)) (s.from (and_quad m n)) s.one ≡ s.zero
  unfolding delta_xor_and
  and_zero m n hm hn =
      numeral_eq (numbers m n (and_quad m n)) (identity :1) :0
        (balanced_at and_quad :1 m n hm hn and_balanced)

  xor_zero :
      (m n : ℕ)
      → m < 4
      → n < 4
      → delta_xor_and (s.from m) (s.from n) (s.from (m * n)) (s.from (xor_quad m n)) (s.neg s.one)
        ≡ s.zero
  unfolding delta_xor_and
  xor_zero m n hm hn =
      numeral_eq (numbers m n (xor_quad m n)) (identity (:neg :1)) :0
        (balanced_at xor_quad (:neg :1) m n hm hn xor_balanced)

  cancel : (k c d : F) → k ≢ s.zero → k ⊗ (c ⊖ d) ≡ s.zero → c ≡ d
  cancel k c d hk h = elim (mul-eq_zero k (c ⊖ d) h) [
    | inl e ↦ absurd (hk e)
    | inr e ↦ eq_of_sub c d e
  ]

  and_parts :
      (n t u v c d f : F)
      → (s.one ⊗ (n ⊗ c ⊖ t ⊗ u) ⊕ (t ⊗ (u ⊕ c) ⊖ v ⊗ f))
          ⊖ (s.one ⊗ (n ⊗ d ⊖ t ⊗ u) ⊕ (t ⊗ (u ⊕ d) ⊖ v ⊗ f))
        ≡ (n ⊕ t) ⊗ (c ⊖ d)
  and_parts n t u v c d f =
      let e : Expr → Expr =
        λ x. :1 :* (var 0 :* x :- var 1 :* var 2) :+ (var 1 :* (var 2 :+ x) :- var 3 :* var 6) in
      ring (n ∷ t ∷ u ∷ v ∷ c ∷ d ∷ f ∷ []) (e (var 4) :- e (var 5))
        ((var 0 :+ var 1) :* (var 4 :- var 5)) refl

  xor_parts :
      (n t u v c d f : F)
      → (s.neg s.one ⊗ ((n ⊕ t) ⊗ d ⊖ t ⊗ u) ⊕ (t ⊗ (u ⊕ d) ⊖ v ⊗ f))
          ⊖ (s.neg s.one ⊗ ((n ⊕ t) ⊗ c ⊖ t ⊗ u) ⊕ (t ⊗ (u ⊕ c) ⊖ v ⊗ f))
        ≡ n ⊗ (c ⊖ d)
  xor_parts n t u v c d f =
      let e : Expr → Expr = λ x.
        :neg :1 :* ((var 0 :+ var 1) :* x :- var 1 :* var 2)
        :+ (var 1 :* (var 2 :+ x) :- var 3 :* var 6) in
      ring (n ∷ t ∷ u ∷ v ∷ c ∷ d ∷ f ∷ []) (e (var 5) :- e (var 4)) (var 0 :* (var 4 :- var 5))
        refl

  -- The polynomial is linear in the output digit.
  and_linear :
      (a b w c d : F)
      → delta_xor_and a b w c s.one ⊖ delta_xor_and a b w d s.one ≡ s.from 12 ⊗ (c ⊖ d)
  unfolding delta_xor_and
  and_linear a b w c d =
      and_parts (s.from 9) (s.from 3) (a ⊕ b) (s.from 2) c d _
      ∙ ap (λ t. t ⊗ (c ⊖ d)) (sym (from-add 9 3))

  xor_linear :
      (a b w c d : F)
      → delta_xor_and a b w d (s.neg s.one) ⊖ delta_xor_and a b w c (s.neg s.one)
        ≡ s.from 6 ⊗ (c ⊖ d)
  unfolding delta_xor_and
  xor_linear a b w c d =
      rw (from-add 6 3) (xor_parts (s.from 6) (s.from 3) (a ⊕ b) (s.from 2) c d _)

  -- The coefficient of a gate of `append_logic_component`.
  abbrev pub logic_sign : Bool → F
  logic_sign true = s.neg s.one
  logic_sign false = s.one

  delta_zero :
      (is_component_xor : Bool) (m n : ℕ)
      → m < 4
      → n < 4
      → delta_xor_and
          (s.from m)
          (s.from n)
          (s.from (m * n))
          (s.from (logic_quad is_component_xor m n))
          (logic_sign is_component_xor)
        ≡ s.zero
  delta_zero true m n hm hn = xor_zero m n hm hn
  delta_zero false m n hm hn = and_zero m n hm hn

  -- In a field where 6 and 12 are not zero, at two digits below four and their product the
  -- identity of the logic widget holds for exactly one output digit: the exclusive disjunction of
  -- the digits at the coefficient -1, their conjunction at the coefficient 1.
  pub delta_xor_and_iff :
      (is_component_xor : Bool) (m n : ℕ) (c : F)
      → s.from 6 ≢ s.zero
      → s.from 12 ≢ s.zero
      → m < 4
      → n < 4
      → (delta_xor_and (s.from m) (s.from n) (s.from (m * n)) c (logic_sign is_component_xor)
          ≡ s.zero)
        ↔ (c ≡ s.from (logic_quad is_component_xor m n))
  delta_xor_and_iff true m n c h6 h12 hm hn = (
    λ h.
        cancel (s.from 6) c _ h6
          (sym (xor_linear _ _ _ c _) ∙ ap₂ s.sub (xor_zero m n hm hn) h ∙ sub_self s.zero),
    λ e. rw e (xor_zero m n hm hn),
  )
  delta_xor_and_iff false m n c h6 h12 hm hn = (
    λ h.
        cancel (s.from 12) c _ h12
          (sym (and_linear _ _ _ c _) ∙ ap₂ s.sub h (and_zero m n hm hn) ∙ sub_self s.zero),
    λ e. rw e (and_zero m n hm hn),
  )

  -- At a row whose selectors are those of the logic gate, whose input accumulators are extended by
  -- digits, whose third wire is the product of the digits and whose output accumulator is extended
  -- by their conjunction or exclusive disjunction, the term of the logic widget is zero for every
  -- separation challenge.
  pub logic_quotient_vanishes :
      (is_component_xor : Bool) (key : LogicKey (List F)) (index m n : ℕ)
      (q k a a_w b b_w d d_w : F)
      → get_elem? key.q_logic index ≡ some q
      → get_elem? key.q_c index ≡ some (logic_sign is_component_xor)
      → m < 4
      → n < 4
      → a_w ⊖ s.from 4 ⊗ a ≡ s.from m
      → b_w ⊖ s.from 4 ⊗ b ≡ s.from n
      → d_w ⊖ s.from 4 ⊗ d ≡ s.from (logic_quad is_component_xor m n)
      → logic_quotient key index k a a_w b b_w (s.from (m * n)) d d_w ≡ some s.zero
  unfolding logic_quotient
  logic_quotient_vanishes is_component_xor key index m n q k a a_w b b_w d d_w eq ec hm hn ea eb
        ed =
      rw
        (
          eq,
          ec,
          ea,
          eb,
          ed,
          (delta_iff (s.from m)).1 (m, hm, refl),
          (delta_iff (s.from n)).1 (n, hn, refl),
          (delta_iff (s.from (logic_quad is_component_xor m n))).1
              (logic_quad is_component_xor m n, logic_quad_lt is_component_xor m n hm hn, refl),
          delta_zero is_component_xor m n hm hn,
          from-mul m n,
        )
        (ap some (
          ring (q ∷ k ∷ s.from m ∷ s.from n ∷ [])
            (var 0
              :* ((var 2 :* var 3 :- var 2 :* var 3)
                    :* ((var 1 :* var 1) :* (var 1 :* var 1) :* (var 1 :* var 1))
                  :+ :0
                  :+ :0 :* (var 1 :* var 1)
                  :+ :0 :* ((var 1 :* var 1) :* (var 1 :* var 1))
                  :+ :0
                    :* ((var 1 :* var 1)
                        :* (var 1 :* var 1)
                        :* (var 1 :* var 1)
                        :* (var 1 :* var 1)))
              :* var 1)
            :0 refl))
