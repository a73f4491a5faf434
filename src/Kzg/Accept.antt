-- ===== src/Kzg/Accept.antt =====
-- `batch_check` on honest openings.
use plonk.Prelude.{◌≡◌, refl, sym, ap, ap₂, ◌∙◌, List, [], ◌∷◌, length}
use plonk.Scalar.{Scalar, ◌⊕◌, ◌⊖◌, ◌⊗◌}
use plonk.Scalar.Ring.{var, :0, ◌:+◌, ◌:-◌, ◌:*◌, :neg, ring}
use plonk.Error.{ok}
use plonk.Group.{Group, Pairing}
use plonk.Group.Laws.{times-zero, negate-times, minus-times}
use plonk.Polynomial.{powers_of}
use plonk.Kzg.Commit.{opening_key_of}
use plonk.Kzg.Check.{Proof, Totals, batch_loop, batch_check}

module _ {F G : Type 0} ⦃s : Scalar F⦄ ⦃group : Group F G⦄ where
  -- The proof commits, at the secret point `x`, to a polynomial with the value `at_secret` there,
  -- and to a quotient of it by the line through the point `z`.
  pub record Opens (x : F) (g : G) (z : F) (p : Proof F G) : Type 0 where
    pub at_secret : F
    pub quotient : F
    pub commits : p.commitment_to_polynomial ≡ group.times g at_secret
    pub commits_witness : p.commitment_to_witness ≡ group.times g quotient
    pub divides : at_secret ≡ (x ⊖ z) ⊗ quotient ⊕ p.evaluated_point

  abbrev pub AllOpen : F → G → List F → List (Proof F G) → Type 0
  AllOpen x g zs [] = Unit
  AllOpen x g [] (p ∷ ps) = Unit
  AllOpen x g (z ∷ zs) (p ∷ ps) = Opens x g z p × AllOpen x g zs ps

  -- The invariant of the loop.
  pub record Balanced (x : F) (g : G) (t : Totals F G) : Type 0 where
    pub c_value : F
    pub w_value : F
    pub total_c_lem : t.total_c ≡ group.times g c_value
    pub total_w_lem : t.total_w ≡ group.times g w_value
    pub balance : c_value ≡ x ⊗ w_value ⊕ t.g_multiplier

  batch_loop-Balanced :
      (x : F) (g : G) (ps : List (Proof F G)) (us zs : List F) (t : Totals F G)
      → AllOpen x g zs ps
      → Balanced x g t
      → Balanced x g (batch_loop ps us zs t)
  unfolding batch_loop
  batch_loop-Balanced x g [] us zs t o b = b
  batch_loop-Balanced x g (p ∷ ps) [] zs t o b = b
  batch_loop-Balanced x g (p ∷ ps) (u ∷ us) [] t o b = b
  batch_loop-Balanced x g (p ∷ ps) (u ∷ us) (z ∷ zs) t o b =
      let y = p.evaluated_point in
      let w = o.0.quotient in
      batch_loop-Balanced x g ps us zs _ o.1 (record {
        c_value = b.c_value ⊕ (o.0.at_secret ⊕ w ⊗ z) ⊗ u;
        w_value = b.w_value ⊕ w ⊗ u;
        total_c_lem =
            rw
              (
                b.total_c_lem,
                o.0.commits,
                o.0.commits_witness,
                group.times-add g b.c_value ((o.0.at_secret ⊕ w ⊗ z) ⊗ u),
                group.times-mul g (o.0.at_secret ⊕ w ⊗ z) u,
                group.times-add g o.0.at_secret (w ⊗ z),
                group.times-mul g w z,
              )
              refl;
        total_w_lem =
            rw
              (
                b.total_w_lem,
                o.0.commits_witness,
                group.times-add g b.w_value (w ⊗ u),
                group.times-mul g w u,
              )
              refl;
        balance =
            ap₂ (λ k l. k ⊕ (l ⊕ w ⊗ z) ⊗ u) b.balance o.0.divides
            ∙ ring (x ∷ b.w_value ∷ t.g_multiplier ∷ z ∷ w ∷ y ∷ u ∷ [])
                ((var 0 :* var 1 :+ var 2)
                  :+ ((var 0 :- var 3) :* var 4 :+ var 5 :+ var 4 :* var 3) :* var 6)
                (var 0 :* (var 1 :+ var 4 :* var 6) :+ (var 2 :+ var 6 :* var 5)) refl;
      })

  module _ {H : Type 0} (T : Type 0) ⦃group_2 : Group F H⦄ ⦃e : Pairing F G H T⦄ where
    pub pairs_cancel :
        (x : F) (g : G) (h : H) (t : Totals F G)
        → Balanced x g t
        → e.multi_pairing (
            (group.negate t.total_w, group_2.times h x)
            ∷ (group.minus t.total_c (group.times g t.g_multiplier), h)
            ∷ [])
          ≡ e.one
    pairs_cancel x g h t b =
        let w = b.w_value in
        let left : e.pairing (group.negate t.total_w) (group_2.times h x)
            ≡ e.pairing (group.times g (s.neg w ⊗ x)) h =
          rw (b.total_w_lem, negate-times g w, group.times-mul g (s.neg w) x)
            (sym (e.pairing-times (group.times g (s.neg w)) h x)) in
        let right : group.minus t.total_c (group.times g t.g_multiplier) ≡ group.times g (x ⊗ w) =
          ap (λ c. group.minus c (group.times g t.g_multiplier)) b.total_c_lem
          ∙ minus-times g b.c_value t.g_multiplier
          ∙ ap (group.times g) (
              ap (λ c. c ⊖ t.g_multiplier) b.balance
              ∙ ring (x ∷ w ∷ t.g_multiplier ∷ []) (var 0 :* var 1 :+ var 2 :- var 2)
                  (var 0 :* var 1) refl) in
        e.multi_pairing-cons _ _ _
        ∙ ap₂ e.product left (
            e.multi_pairing-cons _ _ _
            ∙ ap (e.product _) e.multi_pairing-nil
            ∙ e.product-one _
            ∙ ap (λ c. e.pairing c h) right)
        ∙ sym (e.pairing-plus _ _ h)
        ∙ ap (λ c. e.pairing c h)
            (sym (group.times-add g _ _)
              ∙ ap (group.times g)
                  (ring (x ∷ w ∷ []) (:neg (var 1) :* var 0 :+ var 0 :* var 1) :0 refl)
              ∙ times-zero F g)
        ∙ e.pairing-identity h

    -- A batch of one or more proofs is accepted if each commits, at the secret point, to a value
    -- and to a quotient that open it at the point of the same position, for every batching
    -- challenge.
    pub batch_check_lem :
        (x : F) (g : G) (h : H) (zs : List F) (p : Proof F G) (ps : List (Proof F G)) (u : F)
        → AllOpen x g zs (p ∷ ps)
        → batch_check T (opening_key_of x g h) zs (p ∷ ps) u ≡ ok tt
    unfolding batch_check
    batch_check_lem x g h zs p ps u o =
        let b : Balanced x g (
            batch_loop (p ∷ ps) (powers_of u (length ps)) zs (record {
              total_c = group.identity;
              total_w = group.identity;
              g_multiplier = s.zero;
            })) =
          batch_loop-Balanced x g (p ∷ ps) _ zs _ o (record {
            c_value = s.zero;
            w_value = s.zero;
            total_c_lem = sym (times-zero F g);
            total_w_lem = sym (times-zero F g);
            balance = ring (x ∷ []) :0 (var 0 :* :0 :+ :0) refl;
          }) in
        rw ((e.is_one_iff _).1 (pairs_cancel x g h _ b)) refl
