-- ===== src/Tests/Kzg.antt =====
-- The theorems on the commitment scheme, with the field with 17 elements as all three groups.
use plonk.Prelude.{
  ◌≡◌, refl, sym, ap, ap₂, ◌∙◌, List, [], ◌∷◌, map, ◌==◌, ltb, if◌then◌else◌, arith,
}
use plonk.Scalar.{◌⊕◌, ◌⊖◌, ◌⊗◌}
use plonk.Scalar.Ring.{var, :0, ◌:*◌, ring, add-zero}
use plonk.Error.{◌>>=◌, Error, ok, err, panic}
use plonk.Group.{Group, Pairing}
use plonk.Polynomial.{
  Polynomial, degree, evaluate, from_coefficients_vec, mul_scalar, powers_of, next_powers, ruffini,
  add, is_zero, zip_with,
}
use plonk.Kzg.Key.{
  max_degree, truncate, trim, setup, commit, sum_polynomials, scale_all, compute_aggregate_witness,
}
use plonk.Kzg.Check.{Proof, flatten, batch_check}
use plonk.Kzg.Commit.{key_of, opening_key_of, commit_lem, setup-trim, max_degree-key_of}
use plonk.Kzg.Accept.{batch_check_lem}
use plonk.Kzg.Aggregate.{dot, values, compute_aggregate_witness_lem, flatten-batch_check}
use plonk.Kzg.Truncate.{truncate-max_degree}
use plonk.Tests.Field.{Z17, z17, of_ℕ, Z17-ext}

abbrev msm_17 : List Z17 → List Z17 → Z17
msm_17 [] cs = of_ℕ 0
msm_17 (g ∷ gs) [] = of_ℕ 0
msm_17 (g ∷ gs) (c ∷ cs) = g ⊗ c ⊕ msm_17 gs cs

pub msm_17-nil : (cs : List Z17) → msm_17 [] cs ≡ of_ℕ 0
msm_17-nil cs = refl

pub msm_17-no_scalars : (gs : List Z17) → msm_17 gs [] ≡ of_ℕ 0
msm_17-no_scalars [] = refl
msm_17-no_scalars (g ∷ gs) = refl

-- The additive group of the field.
instance abbrev pub group_17 : Group Z17 Z17
group_17 = record {
  identity = of_ℕ 0;
  plus = z17.add;
  minus = z17.sub;
  negate = z17.neg;
  times = z17.mul;
  msm = msm_17;
  plus_assoc = z17.add_assoc;
  plus_comm = z17.add_comm;
  identity-plus = z17.zero-add;
  plus-negate = z17.add-neg;
  minus_lem = z17.sub_lem;
  times-one = λ a. z17.mul_comm a z17.one ∙ z17.one-mul a;
  times-add = λ a c d. z17.mul-add a c d;
  times-mul = λ a c d. sym (z17.mul_assoc a c d);
  times-plus = λ a b c.
      z17.mul_comm (a ⊕ b) c
      ∙ z17.mul-add c a b
      ∙ ap₂ z17.add (z17.mul_comm c a) (z17.mul_comm c b);
  msm-nil = msm_17-nil;
  msm-no_scalars = msm_17-no_scalars;
  msm-cons = λ g gs c cs. refl;
}

abbrev product_17 : List (Z17 × Z17) → Z17
product_17 [] = of_ℕ 0
product_17 ((a, b) ∷ ps) = a ⊗ b ⊕ product_17 ps

-- The multiplication, into the additive group.
instance abbrev pub pairing_17 : Pairing Z17 Z17 Z17 Z17
pairing_17 = record {
  pairing = z17.mul;
  product = z17.add;
  one = of_ℕ 0;
  is_one = λ t. z17.beq t (of_ℕ 0);
  multi_pairing = product_17;
  product-one = add-zero;
  is_one_iff = λ t. z17.beq_iff t (of_ℕ 0);
  multi_pairing-nil = refl;
  multi_pairing-cons = λ a b ps. refl;
  pairing-plus = group_17.times-plus;
  pairing-times = λ a b c. z17.mul_assoc a c b ∙ ap (z17.mul a) (z17.mul_comm c b);
  pairing-identity = λ b. ring (b ∷ []) (:0 :* var 0) :0 refl;
}

-- 1 + 2 X + 3 X^2
abbrev quadratic : Polynomial Z17
quadratic = of_ℕ 1 ∷ of_ℕ 2 ∷ of_ℕ 3 ∷ []

-- 4 + X^3
abbrev cubic : Polynomial Z17
cubic = of_ℕ 4 ∷ of_ℕ 0 ∷ of_ℕ 0 ∷ of_ℕ 1 ∷ []

commit_lem_example : commit (key_of (of_ℕ 3) (of_ℕ 2) 4) quadratic ≡ (
    if degree quadratic == 0
    then err Error.polynomial_degree_is_zero
    else if ltb 4 (degree quadratic)
    then err Error.polynomial_degree_too_large
    else ok (of_ℕ 2 ⊗ evaluate quadratic (of_ℕ 3)))
commit_lem_example = commit_lem (of_ℕ 3) (of_ℕ 2) 4 quadratic

setup-trim_example :
    (do pp ← setup 5 (of_ℕ 3) (of_ℕ 2) (of_ℕ 7); trim pp 2)
    ≡ ok (key_of (of_ℕ 3) (of_ℕ 2) 8, opening_key_of (of_ℕ 3) (of_ℕ 2) (of_ℕ 7))
setup-trim_example = setup-trim 5 2 (of_ℕ 3) (of_ℕ 2) (of_ℕ 7) (omega arith) (omega arith)

truncate-max_degree_example :
    (do truncated ← truncate (key_of (of_ℕ 3) (of_ℕ 2) 1) 1; max_degree truncated) ≡ panic
truncate-max_degree_example =
    truncate-max_degree (key_of (of_ℕ 3) (of_ℕ 2) 1) 1 1 (max_degree-key_of (of_ℕ 3) (of_ℕ 2) 1)
      (omega arith) (omega arith)

-- The values 13 and 5 at the secret point 3.
abbrev first_proof : Proof Z17 Z17
first_proof = record {
  commitment_to_witness = of_ℕ 8;
  evaluated_point = of_ℕ 5;
  commitment_to_polynomial = of_ℕ 9;
}

abbrev second_proof : Proof Z17 Z17
second_proof = record {
  commitment_to_witness = of_ℕ 2;
  evaluated_point = of_ℕ 2;
  commitment_to_polynomial = of_ℕ 10;
}

batch_check_lem_example :
    batch_check Z17
      (opening_key_of (of_ℕ 3) (of_ℕ 2) (of_ℕ 7))
      (of_ℕ 1 ∷ of_ℕ 0 ∷ [])
      (first_proof ∷ second_proof ∷ [])
      (of_ℕ 6)
    ≡ ok tt
batch_check_lem_example =
    batch_check_lem Z17 (of_ℕ 3) (of_ℕ 2) (of_ℕ 7) (of_ℕ 1 ∷ of_ℕ 0 ∷ []) first_proof
      (second_proof ∷ []) (of_ℕ 6)
      (
        record {
          at_secret = of_ℕ 13;
          quotient = of_ℕ 4;
          commits = Z17-ext _ _ refl;
          commits_witness = Z17-ext _ _ refl;
          divides = Z17-ext _ _ refl;
        },
        (
          record {
            at_secret = of_ℕ 5;
            quotient = of_ℕ 1;
            commits = Z17-ext _ _ refl;
            commits_witness = Z17-ext _ _ refl;
            divides = Z17-ext _ _ refl;
          },
          tt,
        ),
      )

compute_aggregate_witness_lem_example :
    (q : Polynomial Z17) × (compute_aggregate_witness (quadratic ∷ cubic ∷ []) (of_ℕ 2) (of_ℕ 5)
      ≡ ok q)
    × ((x : Z17)
        → dot (values x (quadratic ∷ cubic ∷ [])) (powers_of (of_ℕ 5) 1)
          ≡ (x ⊖ of_ℕ 2) ⊗ evaluate q x
            ⊕ dot (values (of_ℕ 2) (quadratic ∷ cubic ∷ [])) (powers_of (of_ℕ 5) 1))
compute_aggregate_witness_lem_example =
    compute_aggregate_witness_lem quadratic (cubic ∷ []) (of_ℕ 2) (of_ℕ 5)

-- 11 + 13 X + 5 X^2
abbrev witness_polynomial : Polynomial Z17
witness_polynomial = of_ℕ 11 ∷ of_ℕ 13 ∷ of_ℕ 5 ∷ []

aggregate_witness :
    compute_aggregate_witness (quadratic ∷ cubic ∷ []) (of_ℕ 2) (of_ℕ 5) ≡ ok witness_polynomial
unfolding compute_aggregate_witness powers_of next_powers scale_all mul_scalar sum_polynomials add
    ruffini from_coefficients_vec is_zero degree zip_with
aggregate_witness = refl

commit-quadratic : commit (key_of (of_ℕ 3) (of_ℕ 2) 4) quadratic ≡ ok (of_ℕ 0)
unfolding commit powers_of next_powers degree
commit-quadratic = ap ok (Z17-ext _ _ refl)

commit-cubic : commit (key_of (of_ℕ 3) (of_ℕ 2) 4) cubic ≡ ok (of_ℕ 11)
unfolding commit powers_of next_powers degree
commit-cubic = ap ok (Z17-ext _ _ refl)

commit_witness : commit (key_of (of_ℕ 3) (of_ℕ 2) 4) witness_polynomial ≡ ok (of_ℕ 3)
unfolding commit powers_of next_powers degree
commit_witness = ap ok (Z17-ext _ _ refl)

flatten-batch_check_example :
    (do
      proof ←
          flatten
            (record {
              commitment_to_witness = of_ℕ 3;
              evaluated_points = map (λ p. evaluate p (of_ℕ 2)) (quadratic ∷ cubic ∷ []);
              commitments_to_polynomials = of_ℕ 0 ∷ of_ℕ 11 ∷ [];
            })
            (of_ℕ 5)
      batch_check Z17
          (opening_key_of (of_ℕ 3) (of_ℕ 2) (of_ℕ 7))
          (of_ℕ 2 ∷ [])
          (proof ∷ [])
          (of_ℕ 6))
    ≡ ok tt
flatten-batch_check_example =
    flatten-batch_check Z17 (of_ℕ 3) (of_ℕ 2) (of_ℕ 7) 4 quadratic (cubic ∷ []) (of_ℕ 0)
      (of_ℕ 11 ∷ []) (of_ℕ 2) (of_ℕ 5) (of_ℕ 6) witness_polynomial (of_ℕ 3)
      (commit-quadratic, (commit-cubic, tt)) aggregate_witness commit_witness
