-- ===== src/Kzg/Commit.antt =====
-- Commitments and keys in terms of the secret point of the setup.
use plonk.Prelude.{
  usize_wrap_lem, ◌<◌, ◌^◌, ℕ, zero, suc, ◌+◌, ◌≤◌, ◌≡◌, refl, sym, ap, ap₂, ◌∙◌, true, false,
  Bool-cases, inl, inr, ◌==◌, ltb, if◌then◌else◌, List, [], ◌∷◌, length, take, map, ==_iff, lt→ltb,
  arith,
}
use plonk.Scalar.{Scalar, ◌⊗◌}
use plonk.Scalar.Ring.{var, :0, :1, ◌:+◌, ◌:*◌, ring}
use plonk.Error.{◌>>=◌, Error, ok, err}
use plonk.Group.{Group}
use plonk.Group.Laws.{times-zero}
use plonk.Polynomial.{Polynomial, is_zero, degree, next_powers, powers_of, evaluate}
use plonk.Polynomial.Evaluate.{value_at, value_at-of_all_zero, evaluate-value_at}
use plonk.Polynomial.Arithmetic.{zero_from, zero_from-degree}
use plonk.Kzg.Key.{
  CommitKey, OpeningKey, added_blinding_degree, max_degree, truncate, trim,
  check_commit_degree_is_within_bounds, commit, slow_multiscalar_mul_single_base, setup,
}

module _ {F : Type 0} ⦃s : Scalar F⦄ where
  nonzero-of_degree : (p : Polynomial F) → (degree p == 0) ≡ false → is_zero p ≡ false
  unfolding degree
  nonzero-of_degree p h = elim (Bool-cases (is_zero p)) [ inl e ↦ cc (rw e at h) | inr e ↦ e ]

module _ {F G : Type 0} ⦃s : Scalar F⦄ ⦃group : Group F G⦄ where
  -- The multiples of `g` by the powers of `x` up to the `n`-th.
  abbrev pub powers_of_point : F → G → ℕ → List G
  powers_of_point x g n = map (group.times g) (powers_of x n)

  abbrev pub key_of : F → G → ℕ → CommitKey G
  key_of x g n = record { powers_of_g = powers_of_point x g n }

  length-next_powers :
      (g : G) (x pw : F) (n : ℕ) → length (map (group.times g) (next_powers x pw n)) ≡ n
  unfolding next_powers
  length-next_powers g x pw zero = refl
  length-next_powers g x pw (suc n) = ap suc (length-next_powers g x (pw ⊗ x) n)

  take-next_powers :
      (g : G) (x pw : F) (m n : ℕ)
      → m ≤ n
      → take m (map (group.times g) (next_powers x pw n)) ≡ map (group.times g) (next_powers x pw m)
  unfolding next_powers
  take-next_powers g x pw zero n h = refl
  take-next_powers g x pw (suc m) zero h = absurd (omega arith)
  take-next_powers g x pw (suc m) (suc n) h =
      ap (◌∷◌ (group.times g (pw ⊗ x))) (take-next_powers g x (pw ⊗ x) m n (omega arith))

  pub length-powers_of_point : (x : F) (g : G) (n : ℕ) → length (powers_of_point x g n) ≡ suc n
  unfolding powers_of
  length-powers_of_point x g n = ap suc (length-next_powers g x s.one n)

  take-powers_of_point :
      (x : F) (g : G) (m n : ℕ)
      → m ≤ n
      → take (m + 1) (powers_of_point x g n) ≡ powers_of_point x g m
  unfolding powers_of
  take-powers_of_point x g m n h =
      ap (λ k. take k (powers_of_point x g n)) {y = suc m} (omega arith)
      ∙ ap (◌∷◌ (group.times g s.one)) (take-next_powers g x s.one m n h)

  pub max_degree-key_of : (x : F) (g : G) (n : ℕ) → max_degree (key_of x g n) ≡ ok n
  unfolding max_degree powers_of
  max_degree-key_of x g n = ap ok (length-next_powers g x s.one n)

  msm-next_powers :
      (g : G) (x pw : F) (n : ℕ) (p : Polynomial F)
      → zero_from n p ≡ true
      → group.msm (map (group.times g) (next_powers x pw n)) p
        ≡ group.times g (pw ⊗ x ⊗ value_at p x)
  unfolding next_powers
  msm-next_powers g x pw zero p h =
      group.msm-nil p
      ∙ sym (
          ap (λ t. group.times g (pw ⊗ x ⊗ t)) (value_at-of_all_zero p x h)
          ∙ ap (group.times g) (ring (pw ∷ x ∷ []) (var 0 :* var 1 :* :0) :0 refl)
          ∙ times-zero F g)
  msm-next_powers g x pw (suc n) [] h =
      group.msm-no_scalars _
      ∙ sym
          (ap (group.times g) (ring (pw ∷ x ∷ []) (var 0 :* var 1 :* :0) :0 refl) ∙ times-zero F g)
  msm-next_powers g x pw (suc n) (c ∷ p) h =
      group.msm-cons _ _ c p
      ∙ ap₂ group.plus (sym (group.times-mul g (pw ⊗ x) c)) (msm-next_powers g x (pw ⊗ x) n p h)
      ∙ sym (group.times-add g _ _)
      ∙ ap (group.times g) (
          ring (pw ∷ x ∷ c ∷ value_at p x ∷ [])
            (var 0 :* var 1 :* var 2 :+ var 0 :* var 1 :* var 1 :* var 3)
            (var 0 :* var 1 :* (var 2 :+ var 1 :* var 3)) refl)

  msm-powers_of :
      (g : G) (x : F) (n : ℕ) (p : Polynomial F)
      → zero_from (suc n) p ≡ true
      → group.msm (powers_of_point x g n) p ≡ group.times g (value_at p x)
  unfolding powers_of
  msm-powers_of g x n [] h = group.msm-no_scalars _ ∙ sym (times-zero F g)
  msm-powers_of g x n (c ∷ p) h =
      group.msm-cons _ _ c p
      ∙ ap₂ group.plus (sym (group.times-mul g s.one c)) (msm-next_powers g x s.one n p h)
      ∙ sym (group.times-add g _ _)
      ∙ ap (group.times g) (
          ring (x ∷ c ∷ value_at p x ∷ []) (:1 :* var 1 :+ :1 :* var 0 :* var 2)
            (var 1 :+ var 0 :* var 2) refl)

  -- With the powers of a secret point x up to n, the commitment to a polynomial p is the generator
  -- times the value of p at x; a polynomial of degree zero and one of a degree above n get their
  -- errors.
  pub commit_lem :
      (x : F) (g : G) (n : ℕ) (p : Polynomial F)
      → commit (key_of x g n) p ≡ (
          if degree p == 0
          then err Error.polynomial_degree_is_zero
          else if ltb n (degree p)
          then err Error.polynomial_degree_too_large
          else ok (group.times g (evaluate p x)))
  unfolding commit check_commit_degree_is_within_bounds
  commit_lem x g n p = rw (max_degree-key_of x g n) (elim (Bool-cases (degree p == 0)) [
    | inl e ↦ rw e refl
    | inr e ↦ elim (Bool-cases (ltb n (degree p))) [
      | inl f ↦ rw (e, f) refl
      | inr f ↦
          rw (e, f)
            (ap ok (
              msm-powers_of g x n p
                (zero_from-degree p (suc n) (nonzero-of_degree p e) (ground arith))
              ∙ ap (group.times g) (sym (evaluate-value_at p x))))
    ]
  ])

  module _ {H : Type 0} ⦃group_2 : Group F H⦄ where
    abbrev pub opening_key_of : F → G → H → OpeningKey G H
    opening_key_of x g h = record { g = g; h = h; x_h = group_2.times h x }

    setup_lem :
        (d : ℕ) (x : F) (g : G) (h : H)
        → d + added_blinding_degree < 2 ^ 64
        → setup d x g h ≡ (
            if ltb d 1
            then err Error.degree_is_zero
            else ok (record {
              commit_key = key_of x g (d + added_blinding_degree);
              opening_key = opening_key_of x g h;
            }))
    unfolding setup slow_multiscalar_mul_single_base powers_of
    setup_lem d x g h fits =
        let e : (length (powers_of_point x g (d + added_blinding_degree))
              == d + added_blinding_degree + 1)
            ≡ true =
          (==_iff _ _).1 (ap suc (length-next_powers g x s.one (d + 6)) ∙ omega arith) in
        rw (usize_wrap_lem (d + added_blinding_degree) fits, e) refl

    trim_lem :
        (d t : ℕ) (x : F) (g : G) (o : OpeningKey G H)
        → t + added_blinding_degree < 2 ^ 64
        → trim (record { commit_key = key_of x g (d + added_blinding_degree); opening_key = o }) t
          ≡ (if ltb d t
              then err Error.truncated_degree_too_large
              else ok (key_of x g (t + added_blinding_degree), o))
    unfolding trim truncate
    trim_lem d t x g o fits =
        let positive : (t + added_blinding_degree == 0) ≡ false = ground arith in
        let not_one : (t + added_blinding_degree == 1) ≡ false = ground arith in
        let n = d + added_blinding_degree in
        let len : length (powers_of_point x g n) ≡ suc n = length-powers_of_point x g n in
        elim (Bool-cases (ltb d t)) [
          | inl large ↦
              let large' : ltb n (t + added_blinding_degree) ≡ true = ground arith in
              rw (usize_wrap_lem _ fits, positive, max_degree-key_of x g n, large', large) refl
          | inr small ↦
              let small' : ltb n (t + added_blinding_degree) ≡ false = ground arith in
              let within : ltb (t + added_blinding_degree) (length (powers_of_point x g n)) ≡ true =
                lt→ltb _ _ (ground (arith, len)) in
              rw
                (
                  usize_wrap_lem _ fits,
                  positive,
                  max_degree-key_of x g n,
                  small',
                  not_one,
                  within,
                  small,
                )
                (ap (λ ps. ok (record { powers_of_g = ps }, o))
                  (take-powers_of_point x g _ n (ground arith)))
        ]

    -- For degrees d and t to which the degree added for blinding can be added within a usize: a
    -- setup to degree d followed by a trim to degree t fails if d is zero or if t is above d, each
    -- with its error, and gives the key of the powers of the secret point up to t plus the degree
    -- added for blinding otherwise; no index is out of bounds.
    pub setup-trim :
        (d t : ℕ) (x : F) (g : G) (h : H)
        → d + added_blinding_degree < 2 ^ 64
        → t + added_blinding_degree < 2 ^ 64
        → (do pp ← setup d x g h; trim pp t) ≡ (
            if ltb d 1
            then err Error.degree_is_zero
            else if ltb d t
            then err Error.truncated_degree_too_large
            else ok (key_of x g (t + added_blinding_degree), opening_key_of x g h))
    setup-trim d t x g h fits_d fits_t = elim (Bool-cases (ltb d 1)) [
      | inl e ↦ rw (setup_lem d x g h fits_d, e) refl
      | inr e ↦ rw (setup_lem d x g h fits_d, e) (trim_lem d t x g (opening_key_of x g h) fits_t)
    ]
