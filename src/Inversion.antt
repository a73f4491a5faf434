-- ===== src/Inversion.antt =====
-- `batch_inversion` of src/util.rs.
pub mod Inverses
use plonk.Prelude.{true, false, Option, none, some, List, [], ◌∷◌, ◌++◌, reverse}
use plonk.Scalar.{Scalar, ◌⊗◌}

module _ {F : Type 0} ⦃s : Scalar F⦄ where
  -- The first pass: the products of the elements that are not zero, and the last of them.
  unfoldable pub products : F → List F → List F × F
  products tmp [] = ([], tmp)
  products tmp (f ∷ fs) = elim (s.beq f s.zero) [
    | true ↦ products tmp fs
    | false ↦ let (prod, last) = products (tmp ⊗ f) fs in ((tmp ⊗ f) ∷ prod, last)
  ]

  -- The second pass, over the elements from the last to the first: one product for each element
  -- that is not zero.
  unfoldable pub invert_backwards : F → List F → List F → List F
  invert_backwards tmp [] ss = []
  invert_backwards tmp (f ∷ fs) ss = elim (s.beq f s.zero) [
    | true ↦ f ∷ invert_backwards tmp fs ss
    | false ↦ elim ss [
      | [] ↦ f ∷ fs
      | prefix ∷ ss' ↦ (tmp ⊗ prefix) ∷ invert_backwards (tmp ⊗ f) fs ss'
    ]
  ]

  -- `skip(1)`
  abbrev pub drop_first : List F → List F
  drop_first [] = []
  drop_first (x ∷ xs) = xs

  -- `rev().skip(1).chain(Some(BlsScalar::one()))`
  unfoldable pub earlier_products : List F → List F
  earlier_products prod = drop_first (reverse prod) ++ s.one ∷ []

  -- `none` is the panic of `unwrap`.
  unfoldable pub batch_inversion : List F → Option (List F)
  unfolding products invert_backwards earlier_products
  batch_inversion v =
      let (prod, tmp) = products s.one v in
      elim (s.invert tmp) [
        | none ↦ none
        | some tmp ↦ some (reverse (invert_backwards tmp (reverse v) (earlier_products prod)))
      ]
