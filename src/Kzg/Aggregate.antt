-- ===== src/Kzg/Aggregate.antt =====
-- The aggregated opening of several polynomials at one point: `compute_aggregate_witness` and
-- `flatten`.
use plonk.Prelude.{
  ℕ, zero, suc, ◌≡◌, refl, sym, ap, ap₂, ◌∙◌, true, Bool-cases, inl, inr, ◌==◌, ==_iff, ltb, some,
  List, [], ◌∷◌, length, map,
}
use plonk.Scalar.{Scalar, ◌⊕◌, ◌⊖◌, ◌⊗◌}
use plonk.Scalar.Ring.{add-zero}
use plonk.Error.{◌>>=◌, ok}
use plonk.Group.{Group, Pairing}
use plonk.Group.Laws.{times-zero}
use plonk.Polynomial.{Polynomial, degree, next_powers, powers_of, add, evaluate}
use plonk.Polynomial.Sums.{add-evaluate}
use plonk.Polynomial.Scalars.{mul_scalar-evaluate, evaluate-nil}
use plonk.Polynomial.Ruffini.{ruffini-evaluate}
use plonk.Kzg.Key.{CommitKey, sum_polynomials, scale_all, compute_aggregate_witness, commit}
use plonk.Kzg.Check.{sum_scalars, sum_points, flatten, batch_check}
use plonk.Kzg.Commit.{key_of, opening_key_of, commit_lem}
use plonk.Kzg.Accept.{batch_check_lem}

module _ {F : Type 0} ⦃s : Scalar F⦄ where
  -- The sum of the products of the two lists.
  abbrev pub dot : List F → List F → F
  dot [] vs = s.zero
  dot (y ∷ ys) [] = s.zero
  dot (y ∷ ys) (v ∷ vs) = y ⊗ v ⊕ dot ys vs

  sum_scalars-dot : (sum : F) (ys vs : List F) → sum_scalars sum ys vs ≡ sum ⊕ dot ys vs
  unfolding sum_scalars
  sum_scalars-dot sum [] vs = sym (add-zero sum)
  sum_scalars-dot sum (y ∷ ys) [] = sym (add-zero sum)
  sum_scalars-dot sum (y ∷ ys) (v ∷ vs) =
      sum_scalars-dot (sum ⊕ y ⊗ v) ys vs ∙ s.add_assoc sum (y ⊗ v) (dot ys vs)

  abbrev pub values : F → List (Polynomial F) → List F
  values x ps = map (λ p. evaluate p x) ps

  length-powers_of : (v : F) (n : ℕ) → length (powers_of v n) ≡ suc n
  unfolding powers_of next_powers
  length-powers_of v n = ap suc (go s.one n)
    where
      go : (pw : F) (n : ℕ) → length (next_powers v pw n) ≡ n
      go pw zero = refl
      go pw (suc n) = ap suc (go (pw ⊗ v) n)

  -- The scaled polynomials exist, and their sum has the weighted sum of the values.
  scaled_sum :
      (ps : List (Polynomial F)) (vs : List F)
      → (qs : List (Polynomial F)) × (scale_all ps vs ≡ some qs)
        × ((res : Polynomial F) (x : F)
            → evaluate (sum_polynomials res qs) x ≡ evaluate res x ⊕ dot (values x ps) vs)
  unfolding scale_all sum_polynomials
  scaled_sum [] vs = ([], refl, λ res x. sym (add-zero _))
  scaled_sum (p ∷ ps) [] = ([], refl, λ res x. sym (add-zero _))
  scaled_sum (p ∷ ps) (v ∷ vs) =
      let (q, eq, value) = mul_scalar-evaluate p v in
      let (qs, eqs, sums) = scaled_sum ps vs in
      (
        q ∷ qs,
        rw (scale_all, eq, eqs) refl,
        λ res x.
            sums (add res q) x
            ∙ ap (λ t. t ⊕ dot (values x ps) vs)
                (add-evaluate res q x ∙ ap (λ t. evaluate res x ⊕ t) (value x))
            ∙ s.add_assoc _ _ _,
      )

  -- For one or more polynomials the aggregate witness is computed without a failed assertion, and
  -- is the quotient of the sum of the polynomials, weighted by the powers of the challenge, by the
  -- line through the point.
  pub compute_aggregate_witness_lem :
      (p : Polynomial F) (ps : List (Polynomial F)) (z v : F)
      → (q : Polynomial F) × (compute_aggregate_witness (p ∷ ps) z v ≡ ok q)
        × ((x : F)
            → dot (values x (p ∷ ps)) (powers_of v (length ps))
              ≡ (x ⊖ z) ⊗ evaluate q x ⊕ dot (values z (p ∷ ps)) (powers_of v (length ps)))
  unfolding compute_aggregate_witness
  compute_aggregate_witness_lem p ps z v =
      let vs = powers_of v (length ps) in
      let (qs, e, sums) = scaled_sum (p ∷ ps) vs in
      let (q, r, divides) = ruffini-evaluate (sum_polynomials [] qs) z in
      let len : (length vs == suc (length ps)) ≡ true =
        (==_iff _ _).1 (length-powers_of v (length ps)) in
      let value : (x : F) → evaluate (sum_polynomials [] qs) x ≡ dot (values x (p ∷ ps)) vs =
        λ x. sums [] x ∙ ap (λ t. t ⊕ dot (values x (p ∷ ps)) vs) (evaluate-nil x) ∙ s.zero-add _ in
      (
        q,
        rw (len, e, r) refl,
        λ x. sym (value x) ∙ divides x ∙ ap (λ t. (x ⊖ z) ⊗ evaluate q x ⊕ t) (value z),
      )

module _ {F G : Type 0} ⦃s : Scalar F⦄ ⦃group : Group F G⦄ where
  sum_points-dot :
      (g : G) (sum : F) (cs vs : List F)
      → sum_points (group.times g sum) (map (group.times g) cs) vs ≡ group.times g (sum ⊕ dot cs vs)
  unfolding sum_points
  sum_points-dot g sum [] vs = ap (group.times g) (sym (add-zero sum))
  sum_points-dot g sum (c ∷ cs) [] = ap (group.times g) (sym (add-zero sum))
  sum_points-dot g sum (c ∷ cs) (v ∷ vs) =
      ap (λ t. sum_points t (map (group.times g) cs) vs)
        (ap (group.plus (group.times g sum)) (sym (group.times-mul g c v))
          ∙ sym (group.times-add g sum (c ⊗ v)))
      ∙ sum_points-dot g (sum ⊕ c ⊗ v) cs vs
      ∙ ap (group.times g) (s.add_assoc sum (c ⊗ v) (dot cs vs))

  -- The key gives these commitments, one for each polynomial.
  abbrev pub AllCommit : CommitKey G → List (Polynomial F) → List G → Type 0
  AllCommit ck [] [] = Unit
  AllCommit ck [] (c ∷ cs) = ⊥
  AllCommit ck (p ∷ ps) [] = ⊥
  AllCommit ck (p ∷ ps) (c ∷ cs) = (commit ck p ≡ ok c) × AllCommit ck ps cs

  commit-eq :
      (x : F) (g : G) (n : ℕ) (p : Polynomial F) (c : G)
      → commit (key_of x g n) p ≡ ok c
      → c ≡ group.times g (evaluate p x)
  commit-eq x g n p c h = elim (Bool-cases (degree p == 0)) [
    | inl e ↦ cc (rw (commit_lem x g n p, e) at h)
    | inr e ↦ elim (Bool-cases (ltb n (degree p))) [
      | inl f ↦ cc (rw (commit_lem x g n p, e, f) at h)
      | inr f ↦ cc (rw (commit_lem x g n p, e, f) at h)
    ]
  ]

  AllCommit-eq :
      (x : F) (g : G) (n : ℕ) (ps : List (Polynomial F)) (cs : List G)
      → AllCommit (key_of x g n) ps cs
      → cs ≡ map (group.times g) (values x ps)
  AllCommit-eq x g n [] [] h = refl
  AllCommit-eq x g n [] (c ∷ cs) h = absurd h
  AllCommit-eq x g n (p ∷ ps) [] h = absurd h
  AllCommit-eq x g n (p ∷ ps) (c ∷ cs) h =
      ap₂ ◌∷◌ (commit-eq x g n p c h.0) (AllCommit-eq x g n ps cs h.1)

  length-AllCommit :
      (ck : CommitKey G) (ps : List (Polynomial F)) (cs : List G)
      → AllCommit ck ps cs
      → length cs ≡ length ps
  length-AllCommit ck [] [] h = refl
  length-AllCommit ck [] (c ∷ cs) h = absurd h
  length-AllCommit ck (p ∷ ps) [] h = absurd h
  length-AllCommit ck (p ∷ ps) (c ∷ cs) h = ap suc (length-AllCommit ck ps cs h.1)

  module _ {H : Type 0} (T : Type 0) ⦃group_2 : Group F H⦄ ⦃e : Pairing F G H T⦄ where
    -- If a key commits to each polynomial and to their aggregate witness at a point, then the
    -- flattened proof with the values of the polynomials at the point is accepted by the check of
    -- the matching opening key, for all challenges.
    pub flatten-batch_check :
        (x : F) (g : G) (h : H) (n : ℕ) (p : Polynomial F) (ps : List (Polynomial F)) (c : G)
        (cs : List G) (z v u : F) (q : Polynomial F) (w : G)
        → AllCommit (key_of x g n) (p ∷ ps) (c ∷ cs)
        → compute_aggregate_witness (p ∷ ps) z v ≡ ok q
        → commit (key_of x g n) q ≡ ok w
        → (do
          proof ←
              flatten
                (record {
                  commitment_to_witness = w;
                  evaluated_points = map (λ p. evaluate p z) (p ∷ ps);
                  commitments_to_polynomials = c ∷ cs;
                })
                v
          batch_check T (opening_key_of x g h) (z ∷ []) (proof ∷ []) u)
          ≡ ok tt
    unfolding flatten
    flatten-batch_check x g h n p ps c cs z v u q w all eq ew =
        let (q', eq', divides) = compute_aggregate_witness_lem p ps z v in
        let qq : q' ≡ q = cc in
        let vs = powers_of v (length ps) in
        let len : powers_of v (length cs) ≡ vs =
          ap (powers_of v) (length-AllCommit _ ps cs all.1) in
        batch_check_lem T x g h (z ∷ []) _ [] u (
          record {
            at_secret = dot (values x (p ∷ ps)) vs;
            quotient = evaluate q x;
            commits =
                ap₂ (sum_points group.identity) (AllCommit-eq x g n (p ∷ ps) (c ∷ cs) all) len
                ∙ ap (λ t. sum_points t (map (group.times g) (values x (p ∷ ps))) vs)
                    (sym (times-zero F g))
                ∙ sum_points-dot g s.zero (values x (p ∷ ps)) vs
                ∙ ap (group.times g) (s.zero-add _);
            commits_witness = commit-eq x g n q w ew;
            divides =
                divides x
                ∙ ap₂ (λ r t. (x ⊖ z) ⊗ evaluate r x ⊕ t) qq
                    (sym (
                      ap (sum_scalars s.zero (values z (p ∷ ps))) len
                      ∙ sum_scalars-dot s.zero (values z (p ∷ ps)) vs
                      ∙ s.zero-add _));
          },
          tt,
        )
