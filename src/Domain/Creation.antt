-- ===== src/Domain/Creation.antt =====
-- What `EvaluationDomain::new` creates.
use plonk.Prelude.{
  ℕ, zero, suc, ◌+◌, ◌-◌, ◌*◌, ◌/◌, ◌%◌, ◌^◌, ◌≤◌, ◌<◌, ◌≡◌, ◌≢◌, ◌⊎◌, inl, inr, refl, sym, ap, ◌∙◌,
  true, false, Bool-cases, leb, ◌==◌, ==_iff, some, Option-cases, arith,
}
use native.Mathlib.Nat.{pow-suc, mul_assoc}
use plonk.Scalar.{Scalar, ◌⊗◌}
use plonk.Scalar.Ring.{mul-zero}
use plonk.Scalar.Roots.{Roots, pow-square, from-power_of_two}
use plonk.Error.{Error, ok, err}
use plonk.Domain.{EvaluationDomain, least_log, next_power_of_two, trailing_zeros, squarings, new}

-- `k` is the least exponent whose power of two is not below `n`.
pub record LeastLog (n k : ℕ) : Type 0 where
  pub enough : n ≤ 2 ^ k
  pub least : (j : ℕ) → j < k → 2 ^ j < n

le_of_leb : (a b : ℕ) → leb a b ≡ true → a ≤ b
le_of_leb a b h = ground arith

lt_of_leb : (a b : ℕ) → leb a b ≡ false → b < a
lt_of_leb a b h = ground arith

least_log_lem : (n k fuel j : ℕ) → LeastLog n k → j ≤ k → k < j + fuel → least_log fuel j n ≡ some k
unfolding least_log
least_log_lem n k zero j h le lt = absurd (omega arith)
least_log_lem n k (suc fuel) j h le lt = elim (Bool-cases (leb n (2 ^ j))) [
  | inl e ↦
      let last : j ≡ k = elim (Bool-cases (j == k)) [
        | inl eq ↦ (==_iff j k).0 eq
        | inr ne ↦ absurd (ground (arith, h.least j))
      ] in
      rw (least_log, e) (ap some last)
  | inr e ↦
      let more : j < k = elim (Bool-cases (j == k)) [
        | inl eq ↦
            let same : 2 ^ j ≡ 2 ^ k = ap (◌^◌ 2) ((==_iff j k).0 eq) in
            absurd (ground (arith, h.enough, same))
        | inr ne ↦ ground arith
      ] in
      rw (least_log, e) (least_log_lem n k fuel (suc j) h (omega arith) (omega arith))
]

next_power_of_two_lem : (n k : ℕ) → k < 64 → LeastLog n k → next_power_of_two n ≡ some (2 ^ k)
unfolding next_power_of_two
next_power_of_two_lem n k below h =
    rw (next_power_of_two, least_log_lem n k 64 0 h (omega arith) (omega arith)) refl

trailing_zeros_lem : (bits k : ℕ) → k < bits → trailing_zeros bits (2 ^ k) ≡ k
unfolding trailing_zeros
trailing_zeros_lem zero k h = absurd (omega arith)
trailing_zeros_lem (suc bits) zero h = refl
trailing_zeros_lem (suc bits) (suc k) h =
    let even : 2 ^ suc k % 2 ≡ 0 = omega (arith, pow-suc 2 k) in
    let half : 2 ^ suc k / 2 ≡ 2 ^ k = omega (arith, pow-suc 2 k) in
    let not_odd : (2 ^ suc k % 2 == 1) ≡ false = rw even refl in
    rw (trailing_zeros, not_odd, half) (ap suc (trailing_zeros_lem bits k (omega arith)))

pow-add_ℕ : (a b : ℕ) → 2 ^ a * 2 ^ b ≡ 2 ^ (a + b)
pow-add_ℕ zero b = omega (arith, ap (◌^◌ 2) {x = 0 + b} {y = b} (omega arith))
pow-add_ℕ (suc a) b =
    ap (λ t. t * 2 ^ b) {x = 2 ^ suc a} {y = 2 * 2 ^ a} (omega (arith, pow-suc 2 a))
    ∙ mul_assoc 2 (2 ^ a) (2 ^ b)
    ∙ ap (λ t. 2 * t) (pow-add_ℕ a b)
    ∙ sym (
        ap (◌^◌ 2) {x = suc a + b} {y = suc (a + b)} (omega arith)
        ∙ pow-suc 2 (a + b)
        ∙ omega arith)

pub power-positive : (k : ℕ) → 0 < 2 ^ k
power-positive zero = omega arith
power-positive (suc k) = omega (arith, pow-suc 2 k, power-positive k)

module _ {F : Type 0} ⦃s : Scalar F⦄ ⦃r : Roots F⦄ where
  squarings-pow : (n m : ℕ) (g : F) → r.pow (squarings n g) m ≡ r.pow g (2 ^ n * m)
  unfolding squarings
  squarings-pow zero m g = ap (r.pow g) {x = m} (omega arith)
  squarings-pow (suc n) m g =
      squarings-pow n m (g ⊗ g)
      ∙ pow-square g (2 ^ n * m)
      ∙ ap (r.pow g) {x = 2 * (2 ^ n * m)} (
          sym (mul_assoc 2 (2 ^ n) m)
          ∙ ap (λ t. t * m) {x = 2 * 2 ^ n} {y = 2 ^ suc n} (omega (arith, pow-suc 2 n)))

  -- What a domain for `n` coefficients is.
  pub record IsDomain (n : ℕ) (d : EvaluationDomain F) : Type 0 where
    pub size_lem : d.size ≡ 2 ^ d.log_size_of_group
    pub least : LeastLog n d.log_size_of_group
    pub size_as_field_element_lem : d.size_as_field_element ≡ s.from d.size
    pub size_inverse : s.from d.size ⊗ d.size_inv ≡ s.one
    pub gen_inverse : d.group_gen ⊗ d.group_gen_inv ≡ s.one
    pub generator_inverse : r.generator ⊗ d.generator_inv ≡ s.one
    pub order : r.pow d.group_gen d.size ≡ s.one
    pub primitive : (j : ℕ) → j < d.log_size_of_group → r.pow d.group_gen (2 ^ j) ≢ s.one

  inverse_of : (x : F) → x ≢ s.zero → (y : F) × (s.invert x ≡ some y) × (x ⊗ y ≡ s.one)
  inverse_of x h = elim (Option-cases (s.invert x)) [
    | inl e ↦ absurd (h (s.invert-none x e))
    | inr (y, e) ↦ (y, e, s.mul-invert x y e)
  ]

  ne-zero_of_pow : (a : F) (n : ℕ) → 0 < n → r.pow a n ≡ s.one → a ≢ s.zero
  ne-zero_of_pow a zero h e z = absurd (omega arith)
  ne-zero_of_pow a (suc n) h e z =
      s.one-ne-zero (sym e ∙ r.pow-suc a n ∙ ap (s.mul (r.pow a n)) z ∙ mul-zero _)

  abbrev subgroup_gen : ℕ → F
  subgroup_gen k = squarings (r.two_adacity - k) r.root_of_unity

  subgroup_gen-pow :
      (k j : ℕ)
      → r.pow (subgroup_gen k) (2 ^ j) ≡ r.pow r.root_of_unity (2 ^ (r.two_adacity - k + j))
  subgroup_gen-pow k j =
      squarings-pow (r.two_adacity - k) (2 ^ j) r.root_of_unity
      ∙ ap (r.pow r.root_of_unity) (pow-add_ℕ (r.two_adacity - k) j)

  subgroup_gen-order : (k : ℕ) → k ≤ r.two_adacity → r.pow (subgroup_gen k) (2 ^ k) ≡ s.one
  subgroup_gen-order k h =
      subgroup_gen-pow k k
      ∙ ap (λ t. r.pow r.root_of_unity (2 ^ t)) {x = r.two_adacity - k + k} {y = r.two_adacity}
          (omega arith)
      ∙ r.root

  new-inverses :
      (n k : ℕ) (size_inv gen_inv generator_inv : F)
      → next_power_of_two n ≡ some (2 ^ k)
      → trailing_zeros 64 (2 ^ k) ≡ k
      → leb r.two_adacity k ≡ false
      → s.invert (s.from (2 ^ k)) ≡ some size_inv
      → s.invert (subgroup_gen k) ≡ some gen_inv
      → s.invert r.generator ≡ some generator_inv
      → new n
        ≡ ok (record {
          size = 2 ^ k;
          log_size_of_group = k;
          size_as_field_element = s.from (2 ^ k);
          size_inv = size_inv;
          group_gen = subgroup_gen k;
          group_gen_inv = gen_inv;
          generator_inv = generator_inv;
        })
  unfolding new
  new-inverses n k size_inv gen_inv generator_inv found log small e_size e_gen e_generator =
      rw (new, found, log, small, e_size, e_gen, e_generator) refl

  -- With k below 64 the least exponent for n coefficients: below the two-adicity the domain is
  -- created, of size 2^k, with a generator of exactly this order, in that no lower power of two
  -- sends it to one, and with the inverses of size, group generator and field generator; otherwise
  -- the result is the error with k.
  pub new_lem :
      (n k : ℕ)
      → k < 64
      → LeastLog n k
      → ((k < r.two_adacity)
          × (d : EvaluationDomain F) × (new n ≡ ok d)
          × (d.log_size_of_group ≡ k)
          × IsDomain n d)
        ⊎ ((r.two_adacity ≤ k)
            × (new {F = F} n ≡ err (Error.invalid_eval_domain_size k r.two_adacity)))
  unfolding new
  new_lem n k below h =
      let found = next_power_of_two_lem n k below h in
      let log : trailing_zeros 64 (2 ^ k) ≡ k = trailing_zeros_lem 64 k below in
      elim (Bool-cases (leb r.two_adacity k)) [
        | inl e ↦ inr (le_of_leb r.two_adacity k e, rw (new, found, log, e) refl)
        | inr e ↦
            let lt : k < r.two_adacity = lt_of_leb r.two_adacity k e in
            let order = subgroup_gen-order k (omega arith) in
            let (size_inv, e_size, size_inverse) =
              inverse_of (s.from (2 ^ k)) (from-power_of_two k) in
            let (gen_inv, e_gen, gen_inverse) =
              inverse_of (subgroup_gen k)
                (ne-zero_of_pow (subgroup_gen k) (2 ^ k) (power-positive k) order) in
            let (generator_inv, e_generator, generator_inverse) =
              inverse_of r.generator r.generator-ne-zero in
            inl (
              lt,
              record {
                size = 2 ^ k;
                log_size_of_group = k;
                size_as_field_element = s.from (2 ^ k);
                size_inv = size_inv;
                group_gen = subgroup_gen k;
                group_gen_inv = gen_inv;
                generator_inv = generator_inv;
              },
              new-inverses n k size_inv gen_inv generator_inv found log e e_size e_gen e_generator,
              refl,
              record {
                size_lem = refl;
                least = h;
                size_as_field_element_lem = refl;
                size_inverse = size_inverse;
                gen_inverse = gen_inverse;
                generator_inverse = generator_inverse;
                order = order;
                primitive = λ j lt_j one. absurd (
                    omega (
                      arith,
                      lt,
                      lt_j,
                      r.primitive (r.two_adacity - k + j) (sym (subgroup_gen-pow k j) ∙ one),
                    ));
              },
            )
      ]
