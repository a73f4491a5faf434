-- ===== src/Proving/Complete.antt =====
-- The exponents of the points that the verifier pairs.
use plonk.Prelude.{◌≡◌, refl, sym, ap, ap₂, ◌∙◌, [], ◌∷◌}
use plonk.Scalar.{Scalar, ◌⊕◌, ◌⊖◌, ◌⊗◌}
use plonk.Scalar.Ring.{var, :0, ◌:+◌, ◌:-◌, ◌:*◌, :neg, ring}
use plonk.Group.{Group, Pairing}
use plonk.Group.Laws.{times-zero}
use plonk.Kzg.Accept.{pairs_cancel}
use plonk.Widget.Permutation.{PermutationKey}
use plonk.Proving.Verify.{Proof, OpeningChallenges, e_scalar, f_point, left_point, right_point}

module _ {F : Type 0} ⦃s : Scalar F⦄ where
  -- The weighted sums of the two openings.
  abbrev pub weighted_8 : F → F → F → F → F → F → F → F → F → F
  weighted_8 v r a b c d s_1 s_2 s_3 =
      r
      ⊕ a ⊗ v
      ⊕ b ⊗ (v ⊗ v)
      ⊕ c ⊗ (v ⊗ v ⊗ v)
      ⊕ d ⊗ (v ⊗ v ⊗ v ⊗ v)
      ⊕ s_1 ⊗ (v ⊗ v ⊗ v ⊗ v ⊗ v)
      ⊕ s_2 ⊗ (v ⊗ v ⊗ v ⊗ v ⊗ v ⊗ v)
      ⊕ s_3 ⊗ (v ⊗ v ⊗ v ⊗ v ⊗ v ⊗ v ⊗ v)

  abbrev pub weighted_4 : F → F → F → F → F → F
  weighted_4 w z a b d = z ⊕ a ⊗ w ⊕ b ⊗ (w ⊗ w) ⊕ d ⊗ (w ⊗ w ⊗ w)

  -- The exponent of the right point before `E`.
  combine :
      (r z a b c d s_1 s_2 s_3 v_0 v_1 v_2 v_3 v_4 v_5 v_6 w u p q zc om : F) (pi : F)
      → p ⊗ zc
          ⊕ q ⊗ (u ⊗ zc ⊗ om)
          ⊕ (s.zero
              ⊕ a ⊗ (v_0 ⊕ w ⊗ u)
              ⊕ b ⊗ (v_1 ⊕ w ⊗ u ⊗ w)
              ⊕ c ⊗ v_2
              ⊕ d ⊗ (v_3 ⊕ w ⊗ u ⊗ w ⊗ w)
              ⊕ s_1 ⊗ v_4
              ⊕ s_2 ⊗ v_5
              ⊕ s_3 ⊗ v_6
              ⊕ (r ⊖ pi ⊕ u ⊗ z))
        ≡ (r ⊕ a ⊗ v_0 ⊕ b ⊗ v_1 ⊕ c ⊗ v_2 ⊕ d ⊗ v_3 ⊕ s_1 ⊗ v_4 ⊕ s_2 ⊗ v_5 ⊕ s_3 ⊗ v_6)
          ⊕ u ⊗ weighted_4 w z a b d
          ⊕ (p ⊗ zc ⊕ q ⊗ (u ⊗ zc ⊗ om) ⊖ pi)
  combine r z a b c d s_1 s_2 s_3 v_0 v_1 v_2 v_3 v_4 v_5 v_6 w u p q zc om pi =
      ring
        (r ∷ z ∷ a ∷ b ∷ c ∷ d ∷ s_1 ∷ s_2 ∷ s_3 ∷ v_0 ∷ v_1 ∷ v_2 ∷ v_3 ∷ v_4 ∷ v_5 ∷ v_6 ∷ w ∷ u
          ∷ p ∷ q ∷ zc ∷ om ∷ pi ∷ [])
        (var 18 :* var 20
          :+ var 19 :* (var 17 :* var 20 :* var 21)
          :+ (:0
              :+ var 2 :* (var 9 :+ var 16 :* var 17)
              :+ var 3 :* (var 10 :+ var 16 :* var 17 :* var 16)
              :+ var 4 :* var 11
              :+ var 5 :* (var 12 :+ var 16 :* var 17 :* var 16 :* var 16)
              :+ var 6 :* var 13
              :+ var 7 :* var 14
              :+ var 8 :* var 15
              :+ (var 0 :- var 22 :+ var 17 :* var 1)))
        ((var 0
            :+ var 2 :* var 9
            :+ var 3 :* var 10
            :+ var 4 :* var 11
            :+ var 5 :* var 12
            :+ var 6 :* var 13
            :+ var 7 :* var 14
            :+ var 8 :* var 15)
          :+ var 17
            :* (var 1
                :+ var 2 :* var 16
                :+ var 3 :* (var 16 :* var 16)
                :+ var 5 :* (var 16 :* var 16 :* var 16))
          :+ (var 18 :* var 20 :+ var 19 :* (var 17 :* var 20 :* var 21) :- var 22))
        refl

  -- What is left for the verifier's scalar `E`.
  separate :
      (r_0 z a b c d s_1 s_2 s_3 a_w b_w d_w v_0 v_1 v_2 v_3 v_4 v_5 v_6 w u p q zc om x pi : F)
      → ((x ⊖ zc) ⊗ p
            ⊕ (pi
                ⊖ r_0
                ⊕ a ⊗ v_0
                ⊕ b ⊗ v_1
                ⊕ c ⊗ v_2
                ⊕ d ⊗ v_3
                ⊕ s_1 ⊗ v_4
                ⊕ s_2 ⊗ v_5
                ⊕ s_3 ⊗ v_6))
          ⊕ u ⊗ ((x ⊖ zc ⊗ om) ⊗ q ⊕ weighted_4 w z a_w b_w d_w)
          ⊕ (p ⊗ zc ⊕ q ⊗ (u ⊗ zc ⊗ om) ⊖ pi)
        ≡ x ⊗ (p ⊕ q ⊗ u)
          ⊕ (s.zero
              ⊕ a ⊗ v_0
              ⊕ b ⊗ v_1
              ⊕ c ⊗ v_2
              ⊕ d ⊗ v_3
              ⊕ s_1 ⊗ v_4
              ⊕ s_2 ⊗ v_5
              ⊕ s_3 ⊗ v_6
              ⊕ a_w ⊗ (w ⊗ u)
              ⊕ b_w ⊗ (w ⊗ u ⊗ w)
              ⊕ d_w ⊗ (w ⊗ u ⊗ w ⊗ w)
              ⊕ (s.neg r_0 ⊕ u ⊗ z))
  separate r_0 z a b c d s_1 s_2 s_3 a_w b_w d_w v_0 v_1 v_2 v_3 v_4 v_5 v_6 w u p q zc om x pi =
      ring
        (r_0 ∷ z ∷ a ∷ b ∷ c ∷ d ∷ s_1 ∷ s_2 ∷ s_3 ∷ a_w ∷ b_w ∷ d_w ∷ v_0 ∷ v_1 ∷ v_2 ∷ v_3 ∷ v_4
          ∷ v_5 ∷ v_6 ∷ w ∷ u ∷ p ∷ q ∷ zc ∷ om ∷ x ∷ pi ∷ [])
        (((var 25 :- var 23) :* var 21
            :+ (var 26
                :- var 0
                :+ var 2 :* var 12
                :+ var 3 :* var 13
                :+ var 4 :* var 14
                :+ var 5 :* var 15
                :+ var 6 :* var 16
                :+ var 7 :* var 17
                :+ var 8 :* var 18))
          :+ var 20
            :* ((var 25 :- var 23 :* var 24) :* var 22
                :+ (var 1
                    :+ var 9 :* var 19
                    :+ var 10 :* (var 19 :* var 19)
                    :+ var 11 :* (var 19 :* var 19 :* var 19)))
          :+ (var 21 :* var 23 :+ var 22 :* (var 20 :* var 23 :* var 24) :- var 26))
        (var 25 :* (var 21 :+ var 22 :* var 20)
          :+ (:0
              :+ var 2 :* var 12
              :+ var 3 :* var 13
              :+ var 4 :* var 14
              :+ var 5 :* var 15
              :+ var 6 :* var 16
              :+ var 7 :* var 17
              :+ var 8 :* var 18
              :+ var 9 :* (var 19 :* var 20)
              :+ var 10 :* (var 19 :* var 20 :* var 19)
              :+ var 11 :* (var 19 :* var 20 :* var 19 :* var 19)
              :+ (:neg (var 0) :+ var 20 :* var 1)))
        refl

module _ {F G : Type 0} ⦃s : Scalar F⦄ ⦃group : Group F G⦄ where
  plus_of :
      (g p q : G) (a b : F)
      → p ≡ group.times g a
      → q ≡ group.times g b
      → group.plus p q ≡ group.times g (a ⊕ b)
  plus_of g p q a b e f = ap₂ group.plus e f ∙ sym (group.times-add g a b)

  times_of : (g p : G) (a c : F) → p ≡ group.times g a → group.times p c ≡ group.times g (a ⊗ c)
  times_of g p a c e = ap (λ q. group.times q c) e ∙ sym (group.times-mul g a c)

  -- The polynomials' values at the secret point, and their commitments.
  pub record Committed (g : G) (proof : Proof F G) (perm : PermutationKey G)
      (a b c d s_1 s_2 s_3 p q : F) : Type 0 where
    pub a_lem : proof.a_comm ≡ group.times g a
    pub b_lem : proof.b_comm ≡ group.times g b
    pub c_lem : proof.c_comm ≡ group.times g c
    pub d_lem : proof.d_comm ≡ group.times g d
    pub s_1_lem : perm.s_sigma_1 ≡ group.times g s_1
    pub s_2_lem : perm.s_sigma_2 ≡ group.times g s_2
    pub s_3_lem : perm.s_sigma_3 ≡ group.times g s_3
    pub w_z_lem : proof.w_z_chall_comm ≡ group.times g p
    pub w_z_w_lem : proof.w_z_chall_w_comm ≡ group.times g q

  module _ {H : Type 0} (T : Type 0) ⦃group_2 : Group F H⦄ ⦃pair : Pairing F G H T⦄ where
    pub pairs_accepted :
        (x : F) (g : G) (h : H) (proof : Proof F G) (perm : PermutationKey G)
        (opening : OpeningChallenges F) (om r_0 pi r z a b c d s_1 s_2 s_3 p q : F) (linear : G)
        → Committed g proof perm a b c d s_1 s_2 s_3 p q
        → linear ≡ group.times g (r ⊖ pi ⊕ opening.u_challenge ⊗ z)
        → weighted_8 opening.v_challenge r a b c d s_1 s_2 s_3
          ≡ (x ⊖ opening.z_challenge) ⊗ p
            ⊕ weighted_8 opening.v_challenge
                (pi ⊖ r_0)
                proof.evaluations.a_eval
                proof.evaluations.b_eval
                proof.evaluations.c_eval
                proof.evaluations.d_eval
                proof.evaluations.s_sigma_1_eval
                proof.evaluations.s_sigma_2_eval
                proof.evaluations.s_sigma_3_eval
        → weighted_4 opening.v_w_challenge z a b d
          ≡ (x ⊖ opening.z_challenge ⊗ om) ⊗ q
            ⊕ weighted_4 opening.v_w_challenge proof.evaluations.z_eval proof.evaluations.a_w_eval
                proof.evaluations.b_w_eval proof.evaluations.d_w_eval
        → pair.multi_pairing (
            (left_point proof opening, group_2.times h x)
            ∷ (
              right_point proof opening om
                  (f_point proof perm opening linear)
                  (group.times g (e_scalar proof.evaluations opening r_0)),
              h,
            )
            ∷ [])
          ≡ pair.one
    unfolding left_point right_point f_point e_scalar
    pairs_accepted x g h proof perm opening om r_0 pi r z a b c d s_1 s_2 s_3 p q linear k e o_1
          o_2 =
        let v_0 = opening.v_challenge in
        let v_1 = v_0 ⊗ opening.v_challenge in
        let v_2 = v_1 ⊗ opening.v_challenge in
        let v_3 = v_2 ⊗ opening.v_challenge in
        let v_4 = v_3 ⊗ opening.v_challenge in
        let v_5 = v_4 ⊗ opening.v_challenge in
        let v_6 = v_5 ⊗ opening.v_challenge in
        let w = opening.v_w_challenge in
        let u = opening.u_challenge in
        let zc = opening.z_challenge in
        let ev = proof.evaluations in
        pairs_cancel T x g h
          (record {
            total_c =
                group.plus
                  (group.plus (group.times proof.w_z_chall_comm zc)
                    (group.times proof.w_z_chall_w_comm (u ⊗ zc ⊗ om)))
                  (f_point proof perm opening linear);
            total_w = group.plus proof.w_z_chall_comm (group.times proof.w_z_chall_w_comm u);
            g_multiplier = e_scalar ev opening r_0;
          })
          (record {
            c_value = _;
            w_value = p ⊕ q ⊗ u;
            total_c_lem =
                plus_of g _ _ _ _
                  (plus_of g _ _ _ _ (times_of g _ _ zc k.w_z_lem)
                    (times_of g _ _ (u ⊗ zc ⊗ om) k.w_z_w_lem))
                  (plus_of g _ _ _ _
                    (plus_of g _ _ _ _
                      (plus_of g _ _ _ _
                        (plus_of g _ _ _ _
                          (plus_of g _ _ _ _
                            (plus_of g _ _ _ _
                              (plus_of g _ _ _ _
                                (plus_of g _ _ _ _ (sym (times-zero F g))
                                  (times_of g _ _ _ k.a_lem))
                                (times_of g _ _ _ k.b_lem))
                              (times_of g _ _ _ k.c_lem))
                            (times_of g _ _ _ k.d_lem))
                          (times_of g _ _ _ k.s_1_lem))
                        (times_of g _ _ _ k.s_2_lem))
                      (times_of g _ _ _ k.s_3_lem))
                    e);
            total_w_lem = plus_of g _ _ _ _ k.w_z_lem (times_of g _ _ u k.w_z_w_lem);
            balance =
                combine r z a b c d s_1 s_2 s_3 v_0 v_1 v_2 v_3 v_4 v_5 v_6 w u p q zc om pi
                ∙ ap₂ (λ y y'. y ⊕ u ⊗ y' ⊕ (p ⊗ zc ⊕ q ⊗ (u ⊗ zc ⊗ om) ⊖ pi)) o_1 o_2
                ∙ separate r_0 ev.z_eval ev.a_eval ev.b_eval ev.c_eval ev.d_eval ev.s_sigma_1_eval
                    ev.s_sigma_2_eval ev.s_sigma_3_eval ev.a_w_eval ev.b_w_eval ev.d_w_eval v_0 v_1
                    v_2 v_3 v_4 v_5 v_6 w u p q zc om x pi;
          })
