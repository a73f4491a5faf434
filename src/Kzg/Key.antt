-- ===== src/Kzg/Key.antt =====
-- Commitment keys: src/commitment_scheme/kzg10/{key,srs}.rs, with the helpers of src/util.rs. An
-- index out of bounds and a subtraction below zero are panics.
use plonk.Prelude.{
  ℕ, ◌+◌, ◌==◌, ltb, usize_wrap, if◌then◌else◌, Option, none, some, List, [], ◌∷◌, length, take,
  map,
}
use plonk.Scalar.{Scalar}
use plonk.Error.{Error, Outcome, ok, err, panic, ◌>>=◌, ◌>>◌, asserted}
use plonk.Group.{Group}
use plonk.Polynomial.{Polynomial, degree, powers_of, mul_scalar, add, ruffini}

pub record CommitKey (G : Type 0) : Type 0 where
  pub powers_of_g : List G

pub record OpeningKey (G H : Type 0) : Type 0 where
  pub g : G
  pub h : H
  pub x_h : H

pub record PublicParameters (G H : Type 0) : Type 0 where
  pub commit_key : CommitKey G
  pub opening_key : OpeningKey G H

-- `len() - 1`
abbrev pub len_minus_one : {A : Type 0} → List A → Outcome ℕ
len_minus_one [] = panic
len_minus_one (x ∷ xs) = ok (length xs)

module _ {G : Type 0} where
  unfoldable pub max_degree : CommitKey G → Outcome ℕ
  max_degree ck = len_minus_one ck.powers_of_g

  -- `xs[..=i]`
  abbrev pub slice_to : List G → ℕ → Outcome (List G)
  slice_to xs i = if ltb i (length xs) then ok (take (i + 1) xs) else panic

  unfoldable pub truncate : CommitKey G → ℕ → Outcome (CommitKey G)
  unfolding max_degree
  truncate ck truncated_degree =
      if truncated_degree == 0 then err Error.truncated_degree_is_zero else (do
        max ← max_degree ck
        if ltb max truncated_degree then err Error.truncated_degree_too_large else do
          let d = if truncated_degree == 1 then truncated_degree + 1 else truncated_degree
          powers ← slice_to ck.powers_of_g d
          ok (record { powers_of_g = powers }))

  unfoldable pub check_commit_degree_is_within_bounds : CommitKey G → ℕ → Outcome (Unit {0})
  unfolding max_degree
  check_commit_degree_is_within_bounds ck poly_degree = do
    max ← max_degree ck
    (if poly_degree == 0
        then err Error.polynomial_degree_is_zero
        else if ltb max poly_degree
        then err Error.polynomial_degree_too_large
        else ok tt)

-- `PublicParameters::ADDED_BLINDING_DEGREE`
abbrev pub added_blinding_degree : ℕ
added_blinding_degree = 6

module _ {G H : Type 0} where
  unfoldable pub trim : PublicParameters G H → ℕ → Outcome (CommitKey G × OpeningKey G H)
  unfolding truncate
  trim pp truncated_degree = do
    truncated ← truncate pp.commit_key (usize_wrap (truncated_degree + added_blinding_degree))
    ok (truncated, pp.opening_key)

module _ {F : Type 0} ⦃s : Scalar F⦄ where
  -- `iter.sum()` from the zero polynomial
  unfoldable pub sum_polynomials : Polynomial F → List (Polynomial F) → Polynomial F
  sum_polynomials res [] = res
  sum_polynomials res (p ∷ ps) = sum_polynomials (add res p) ps

  -- `polynomials.iter().zip(powers.iter()).map(|(poly, v)| poly * v)`
  unfoldable pub scale_all : List (Polynomial F) → List F → Option (List (Polynomial F))
  scale_all [] vs = some []
  scale_all (p ∷ ps) [] = some []
  scale_all (p ∷ ps) (v ∷ vs) = elim (mul_scalar p v) [
    | none ↦ none
    | some q ↦ elim (scale_all ps vs) [ none ↦ none | some qs ↦ some (q ∷ qs) ]
  ]

  unfoldable pub compute_aggregate_witness : List (Polynomial F) → F → F → Outcome (Polynomial F)
  unfolding sum_polynomials scale_all
  compute_aggregate_witness polynomials point v_challenge = do
    max ← len_minus_one polynomials
    let powers = powers_of v_challenge max
    (if length powers == length polynomials
        then (do
          scaled ← asserted (scale_all polynomials powers)
          asserted (ruffini (sum_polynomials [] scaled) point))
        else panic)

module _ {F G : Type 0} ⦃s : Scalar F⦄ ⦃group : Group F G⦄ where
  unfoldable pub commit : CommitKey G → Polynomial F → Outcome G
  unfolding check_commit_degree_is_within_bounds
  commit ck polynomial = do
    check_commit_degree_is_within_bounds ck (degree polynomial)
    ok (group.msm ck.powers_of_g polynomial)

  unfoldable pub slow_multiscalar_mul_single_base : List F → G → List G
  slow_multiscalar_mul_single_base scalars base = map (λ c. group.times base c) scalars

  module _ {H : Type 0} ⦃group_2 : Group F H⦄ where
    -- The random generator's draws `x`, `g` and `h` are arguments.
    unfoldable pub setup : ℕ → F → G → H → Outcome (PublicParameters G H)
    unfolding slow_multiscalar_mul_single_base
    setup max_degree x g h =
        if ltb max_degree 1
        then err Error.degree_is_zero
        else (let n = usize_wrap (max_degree + added_blinding_degree) in
            let powers_of_g = slow_multiscalar_mul_single_base (powers_of x n) g in
            if length powers_of_g == n + 1
            then ok (record {
              commit_key = record { powers_of_g = powers_of_g };
              opening_key = record { g = g; h = h; x_h = group_2.times h x };
            })
            else panic)
