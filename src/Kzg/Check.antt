-- ===== src/Kzg/Check.antt =====
-- Opening proofs and their check: src/commitment_scheme/kzg10/{key,proof,commitment}.rs.
use plonk.Prelude.{if◌then◌else◌, List, [], ◌∷◌}
use plonk.Scalar.{Scalar, ◌⊕◌, ◌⊗◌}
use plonk.Error.{◌>>=◌, Error, Outcome, ok, err}
use plonk.Group.{Group, Pairing}
use plonk.Polynomial.{powers_of}
use plonk.Kzg.Key.{OpeningKey, len_minus_one}

pub record Proof (F G : Type 0) : Type 0 where
  pub commitment_to_witness : G
  pub evaluated_point : F
  pub commitment_to_polynomial : G

pub record AggregateProof (F G : Type 0) : Type 0 where
  pub commitment_to_witness : G
  pub evaluated_points : List F
  pub commitments_to_polynomials : List G

-- The variables of the loop of `batch_check`.
pub record Totals (F G : Type 0) : Type 0 where
  pub total_c : G
  pub total_w : G
  pub g_multiplier : F

module _ {F : Type 0} ⦃s : Scalar F⦄ where
  unfoldable pub sum_scalars : F → List F → List F → F
  sum_scalars sum [] vs = sum
  sum_scalars sum (y ∷ ys) [] = sum
  sum_scalars sum (y ∷ ys) (v ∷ vs) = sum_scalars (sum ⊕ y ⊗ v) ys vs

module _ {F G : Type 0} ⦃s : Scalar F⦄ ⦃group : Group F G⦄ where
  -- The sums of the products of both zips, from zero.
  unfoldable pub sum_points : G → List G → List F → G
  sum_points sum [] vs = sum
  sum_points sum (c ∷ cs) [] = sum
  sum_points sum (c ∷ cs) (v ∷ vs) = sum_points (group.plus sum (group.times c v)) cs vs

  unfoldable pub flatten : AggregateProof F G → F → Outcome (Proof F G)
  unfolding sum_points
  flatten proof v_challenge = do
    max ← len_minus_one proof.commitments_to_polynomials
    let powers = powers_of v_challenge max
    ok (record {
      commitment_to_witness = proof.commitment_to_witness;
      evaluated_point = sum_scalars s.zero proof.evaluated_points powers;
      commitment_to_polynomial = sum_points group.identity proof.commitments_to_polynomials powers;
    })

  unfoldable pub batch_loop : List (Proof F G) → List F → List F → Totals F G → Totals F G
  batch_loop [] us zs t = t
  batch_loop (p ∷ ps) [] zs t = t
  batch_loop (p ∷ ps) (u ∷ us) [] t = t
  batch_loop (p ∷ ps) (u ∷ us) (z ∷ zs) t =
      let w = p.commitment_to_witness in
      let c = group.plus p.commitment_to_polynomial (group.times w z) in
      batch_loop ps us zs (record {
        total_c = group.plus t.total_c (group.times c u);
        total_w = group.plus t.total_w (group.times w u);
        g_multiplier = t.g_multiplier ⊕ u ⊗ p.evaluated_point;
      })

  module _ {H : Type 0} (T : Type 0) ⦃group_2 : Group F H⦄ ⦃e : Pairing F G H T⦄ where
    -- The transcript's challenge is the argument `u_challenge`.
    unfoldable pub batch_check : OpeningKey G H → List F → List (Proof F G) → F → Outcome (Unit {0})
    unfolding batch_loop
    batch_check key points proofs u_challenge = do
      max ← len_minus_one proofs
      let t =
          batch_loop proofs (powers_of u_challenge max) points
            (record { total_c = group.identity; total_w = group.identity; g_multiplier = s.zero })
      let total_c = group.minus t.total_c (group.times key.g t.g_multiplier)
      (if e.is_one (e.multi_pairing ((group.negate t.total_w, key.x_h) ∷ (total_c, key.h) ∷ []))
          then ok tt
          else err Error.pairing_check_failure)
