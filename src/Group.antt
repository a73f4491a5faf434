-- ===== src/Group.antt =====
-- The groups of the crate dusk-bls12_381, which the repository calls and does not contain. The
-- affine, projective and prepared forms of a point are one point.
pub mod Laws
use plonk.Prelude.{◌≡◌, Bool, true, ◌↔◌, List, [], ◌∷◌}
use plonk.Scalar.{Scalar, ◌⊕◌, ◌⊗◌}

-- A group written additively, with multiplication by scalars.
pub record Group (F G : Type 0) ⦃s : Scalar F⦄ : Type 0 where
  pub identity : G
  pub plus : G → G → G
  pub minus : G → G → G
  pub negate : G → G
  pub times : G → F → G
  -- `msm_variable_base`
  pub msm : List G → List F → G
  pub plus_assoc : (a b c : G) → plus (plus a b) c ≡ plus a (plus b c)
  pub plus_comm : (a b : G) → plus a b ≡ plus b a
  pub identity-plus : (a : G) → plus identity a ≡ a
  pub plus-negate : (a : G) → plus a (negate a) ≡ identity
  pub minus_lem : (a b : G) → minus a b ≡ plus a (negate b)
  pub times-one : (a : G) → times a s.one ≡ a
  pub times-add : (a : G) (c d : F) → times a (c ⊕ d) ≡ plus (times a c) (times a d)
  pub times-mul : (a : G) (c d : F) → times a (c ⊗ d) ≡ times (times a c) d
  pub times-plus : (a b : G) (c : F) → times (plus a b) c ≡ plus (times a c) (times b c)
  -- The sum of the points times the scalars, as many as the shorter list has.
  pub msm-nil : (cs : List F) → msm [] cs ≡ identity
  pub msm-no_scalars : (gs : List G) → msm gs [] ≡ identity
  pub msm-cons :
      (g : G) (gs : List G) (c : F) (cs : List F)
      → msm (g ∷ gs) (c ∷ cs) ≡ plus (times g c) (msm gs cs)

-- The pairing: `multi_miller_loop` and the final exponentiation of the result.
pub record Pairing (F G H T : Type 0) ⦃s : Scalar F⦄ ⦃g : Group F G⦄ ⦃h : Group F H⦄ : Type 0 where
  pub pairing : G → H → T
  pub product : T → T → T
  pub one : T
  pub is_one : T → Bool
  pub multi_pairing : List (G × H) → T
  pub product-one : (t : T) → product t one ≡ t
  pub is_one_iff : (t : T) → (is_one t ≡ true) ↔ (t ≡ one)
  pub multi_pairing-nil : multi_pairing [] ≡ one
  pub multi_pairing-cons :
      (a : G) (b : H) (ps : List (G × H))
      → multi_pairing ((a, b) ∷ ps) ≡ product (pairing a b) (multi_pairing ps)
  pub pairing-plus :
      (a b : G) (c : H) → pairing (g.plus a b) c ≡ product (pairing a c) (pairing b c)
  pub pairing-times : (a : G) (b : H) (c : F) → pairing (g.times a c) b ≡ pairing a (h.times b c)
  pub pairing-identity : (b : H) → pairing g.identity b ≡ one
