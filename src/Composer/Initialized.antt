-- ===== src/Composer/Initialized.antt =====
-- `Composer::initialized`: the constants zero and one, and the dummy gates.
use plonk.Prelude.{◌≤◌, ◌≡◌, refl, sym, ap, ◌∙◌, none, length, [], ◌∷◌, arith}
use plonk.Scalar.{Scalar}
use plonk.Scalar.Ring.{var, :0, ◌:+◌, ◌:*◌, :neg, add-zero, mul-zero}
use plonk.Scalar.Laws.{from-one}
use plonk.Scalar.Numerals.{numeral_eq}
use plonk.Composer.State.{Composer, uninitialized}
use plonk.Composer.Base.{append_dummy_gates, initialize, initialized}
use plonk.Composer.Returns.{Returns, Returns-bind, Returns-map}
use plonk.Composer.Gadget.{IsValid, Gadget-trans, Forces, Forces-map}
use plonk.Composer.Append.{append_witness_lem, append_gate_lem}
use plonk.Composer.Asserts.{gate_expr, assert_equal_constant_lem}

module _ {F : Type 0} ⦃s : Scalar F⦄ where
  uninitialized-IsValid : IsValid (uninitialized {F = F})
  uninitialized-IsValid = record {
    known = record { mapped = λ w. ground arith; sized = refl };
    wired = λ i g e. cc;
    public_below = λ i e. cc;
  }

  -- The dummy gates put no condition on the witnesses that are there already.
  append_dummy_gates_lem :
      (c : Composer F)
      → IsValid c
      → Returns (λ _. Forces 2 (λ _. Unit {0}) c) (append_dummy_gates c)
  unfolding append_dummy_gates
  append_dummy_gates_lem c h = Returns-bind _ _ c (append_witness_lem _ c h) λ six c1 a6.
      Returns-bind _ _ c1 (append_witness_lem _ c1 a6.gadget.valid) λ one c2 a1.
        Returns-bind _ _ c2 (append_witness_lem _ c2 a1.gadget.valid) λ seven c3 a7.
          Returns-bind _ _ c3 (append_witness_lem _ c3 a7.gadget.valid) λ min_twenty c4 a20.
            Returns-bind _ _ c4
              (append_gate_lem _ c4 a20.gadget.valid (
                omega (
                  arith, a6.known, a1.known, a7.known, a20.known, a1.gadget.grows, a7.gadget.grows,
                  a20.gadget.grows,
                )))
              λ _ c5 g1.
                Returns-map
                  (append_gate_lem _ c5 g1.valid (
                    omega (
                      arith, a6.known, a1.known, a7.known, a20.known, a1.gadget.grows,
                      a7.gadget.grows, a20.gadget.grows, g1.grows,
                    )))
                  λ _ c6 g2.
                    let h4 = Gadget-trans g1 g2 in
                    let h3 = Gadget-trans a20.gadget h4 in
                    let h2 = Gadget-trans a7.gadget h3 in
                    let h1 = Gadget-trans a1.gadget h2 in
                    Forces-map
                      (record {
                        gadget = Gadget-trans a6.gadget h1;
                        honest = λ x agrees.
                            let e6 = agrees _ _ (h1.keeps _ _ a6.value) in
                            let e1 = agrees _ _ (h2.keeps _ _ a1.value) in
                            let e7 = agrees _ _ (h3.keeps _ _ a7.value) in
                            let e20 = agrees _ _ (h4.keeps _ _ a20.value) in
                            (
                              tt,
                              (
                                tt,
                                (
                                  tt,
                                  (
                                    tt,
                                    (
                                      rw (e6, e7, e20, e1)
                                          (numeral_eq (6 ∷ 7 ∷ 1 ∷ 20 ∷ 2 ∷ 3 ∷ 4 ∷ [])
                                            (gate_expr (var 0) (var 1) (:neg (var 3)) (var 2)
                                              (var 2) (var 4) (var 5) (var 6) (var 2) (var 6) :0
                                              (var 2))
                                            :0 refl),
                                      rw (e6, e7, e20, mul-zero (x 0))
                                          (numeral_eq (6 ∷ 7 ∷ 1 ∷ 20 ∷ 127 ∷ [])
                                            ((:neg (var 3) :* var 0 :* var 2
                                                  :+ :neg (var 3) :* var 2
                                                  :+ var 0 :* var 2
                                                  :+ var 1 :* var 2
                                                  :+ :0
                                                  :+ var 4)
                                                :* var 2
                                              :+ :0)
                                            :0 refl),
                                    ),
                                  ),
                                ),
                              ),
                            );
                      })
                      (λ x _. tt)

  initialize_lem :
      Returns
        (λ _ c.
          Forces 4 (λ x. (x 0 ≡ s.zero) × (x 1 ≡ s.one)) uninitialized c × (2 ≤ length c.witnesses))
        (initialize (uninitialized {F = F}))
  unfolding initialize
  initialize_lem =
      Returns-bind _ _ uninitialized (append_witness_lem _ _ uninitialized-IsValid) λ zero c1 a0.
        Returns-bind _ _ c1 (append_witness_lem _ c1 a0.gadget.valid) λ one c2 a1.
          Returns-bind _ _ c2
            (assert_equal_constant_lem zero _ none c2 a1.gadget.valid
              (omega (arith, a0.known, a1.gadget.grows)))
            λ _ c3 e0.
              let g0 = e0.0.gadget in
              Returns-bind _ _ c3
                (assert_equal_constant_lem one _ none c3 g0.valid
                  (omega (arith, a1.known, g0.grows)))
                λ _ c4 e1.
                  let g1 = e1.0.gadget in
                  Returns-map (append_dummy_gates_lem c4 g1.valid) λ _ c5 d.
                    let h2 = Gadget-trans g1 d.gadget in
                    let h1 = Gadget-trans g0 h2 in
                    let h0 = Gadget-trans a1.gadget h1 in
                    (
                      Forces-map
                          (record {
                            gadget = Gadget-trans a0.gadget h0;
                            honest = λ x agrees.
                                let e0 = agrees _ _ (h0.keeps _ _ a0.value) in
                                let e1 = agrees _ _ (h1.keeps _ _ a1.value) in
                                (tt, (tt, (e0 ∙ sym (add-zero _), (e1 ∙ sym (add-zero _), tt))));
                          })
                          (λ x r. (
                            ap x {x = 0} {y = zero.index} (sym a0.position)
                                ∙ r.1.1.0
                                ∙ add-zero _
                                ∙ s.from-zero,
                            ap x {x = 1} {y = one.index} (omega (arith, a0.longer, a1.position))
                                ∙ r.1.1.1.0
                                ∙ add-zero _
                                ∙ from-one,
                          )),
                      omega (arith, a0.longer, a1.longer, h1.grows),
                    )

  -- Initialising returns a valid composer with four gates, which force the first two witnesses to
  -- be zero and one, and which its own values satisfy, the dummy gates included.
  pub initialized_lem :
      Returns
        (λ _ c.
          Forces 4 (λ x. (x 0 ≡ s.zero) × (x 1 ≡ s.one)) uninitialized c × (2 ≤ length c.witnesses))
        (initialized {F = F})
  unfolding initialized
  initialized_lem = initialize_lem
