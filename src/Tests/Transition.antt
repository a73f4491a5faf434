-- ===== src/Tests/Transition.antt =====
-- The theorems on the gates of the logic and curve widgets, at a new composer over the field with
-- 17 elements.
use plonk.Prelude.{refl, ◌∷◌}
use plonk.Scalar.{◌⊕◌, ◌⊖◌, ◌⊗◌}
use plonk.Scalar.Bits.{ScalarBytes}
use plonk.JubJub.{JubJub}
use plonk.Composer.Quads.{replicate}
use plonk.Composer.Gadget.{or_zero}
use plonk.Composer.Returns.{Returns}
use plonk.Tests.Field.{Z17, z17, of_ℕ, inverse}

instance abbrev z17_bytes : ScalarBytes Z17
z17_bytes = record { to_bytes = λ a. a.value ∷ replicate 31 0; length-to_bytes = λ _. refl }

pub record Point17 : Type 0 where
  pub u : Z17
  pub v : Z17

-- The curve -u² + v² = 1 + 3 u² v².
abbrev add_17 : Point17 → Point17 → Point17
add_17 p q =
    let uv = p.u ⊗ q.v in
    let vu = p.v ⊗ q.u in
    let t = of_ℕ 3 ⊗ uv ⊗ vu in
    record {
      u = (uv ⊕ vu) ⊗ or_zero (inverse (of_ℕ 1 ⊕ t));
      v = (p.v ⊗ q.v ⊕ p.u ⊗ q.u) ⊗ or_zero (inverse (of_ℕ 1 ⊖ t));
    }

instance abbrev jubjub_17 : JubJub Z17 Point17
jubjub_17 = record {
  get_u = λ p. p.u;
  get_v = λ p. p.v;
  from_raw_unchecked = λ u v. record { u = u; v = v };
  add = add_17;
}
