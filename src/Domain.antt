-- ===== src/Domain.antt =====
-- Evaluation domains: src/fft/domain.rs, with usize as u64.
pub mod Creation
pub mod Iteration
pub mod Lagrange
use plonk.Prelude.{
  ℕ, zero, suc, ◌+◌, ◌-◌, ◌/◌, ◌%◌, ◌^◌, ◌==◌, leb, true, false, if◌then◌else◌, Option, none, some,
  List, [], ◌∷◌,
}
use plonk.Scalar.{Scalar, ◌⊕◌, ◌⊖◌, ◌⊗◌}
use plonk.Scalar.Roots.{Roots}
use plonk.Error.{Error, Outcome, ok, err, panic, ◌>>=◌, asserted}
use plonk.Inversion.{batch_inversion}

pub record EvaluationDomain (F : Type 0) : Type 0 where
  pub size : ℕ
  pub log_size_of_group : ℕ
  pub size_as_field_element : F
  pub size_inv : F
  pub group_gen : F
  pub group_gen_inv : F
  pub generator_inv : F

-- An iterator over the elements of the domain.
pub record Elements (F : Type 0) : Type 0 where
  pub cur_elem : F
  pub cur_pow : ℕ
  pub domain : EvaluationDomain F

-- The least exponent from `k` on whose power of two is not below `n`.
unfoldable pub least_log : ℕ → ℕ → ℕ → Option ℕ
least_log zero k n = none
least_log (suc fuel) k n = elim (leb n (2 ^ k)) [ true ↦ some k | false ↦ least_log fuel (suc k) n ]

-- `next_power_of_two`, which overflows if the power does not fit 64 bits.
unfoldable pub next_power_of_two : ℕ → Option ℕ
unfolding least_log
next_power_of_two n = elim (least_log 64 0 n) [ none ↦ none | some k ↦ some (2 ^ k) ]

-- `trailing_zeros` of a number of as many bits.
unfoldable pub trailing_zeros : ℕ → ℕ → ℕ
trailing_zeros zero n = 0
trailing_zeros (suc bits) n = elim (n % 2 == 1) [
  | true ↦ 0
  | false ↦ suc (trailing_zeros bits (n / 2))
]

module _ {F : Type 0} ⦃s : Scalar F⦄ where
  -- The loop of squarings.
  unfoldable pub squarings : ℕ → F → F
  squarings zero g = g
  squarings (suc n) g = squarings n (g ⊗ g)

  unfoldable pub elements : EvaluationDomain F → Elements F
  elements domain = record { cur_elem = s.one; cur_pow = 0; domain = domain }

  unfoldable pub next : Elements F → Option F × Elements F
  next it = elim (it.cur_pow == it.domain.size) [
    | true ↦ (none, it)
    | false ↦ (
      some it.cur_elem,
      record it { cur_elem = it.cur_elem ⊗ it.domain.group_gen; cur_pow = it.cur_pow + 1 },
    )
  ]

  -- What the iterator gives before its end; `none` if that takes more calls than the fuel.
  unfoldable pub collect : ℕ → Elements F → Option (List F)
  unfolding next
  collect zero it = none
  collect (suc fuel) it =
      let (item, it') = next it in
      elim item [
        | none ↦ some []
        | some x ↦ elim (collect fuel it') [ none ↦ none | some xs ↦ some (x ∷ xs) ]
      ]

module _ {F : Type 0} ⦃s : Scalar F⦄ ⦃r : Roots F⦄ where
  unfoldable pub new : ℕ → Outcome (EvaluationDomain F)
  unfolding next_power_of_two trailing_zeros squarings
  new num_coeffs = do
    size ← asserted (next_power_of_two num_coeffs)
    let log_size_of_group = trailing_zeros 64 size
    (if leb r.two_adacity log_size_of_group
        then err (Error.invalid_eval_domain_size log_size_of_group r.two_adacity)
        else (do
          let group_gen = squarings (r.two_adacity - log_size_of_group) r.root_of_unity
          let size_as_field_element = s.from size
          size_inv ← asserted (s.invert size_as_field_element)
          group_gen_inv ← asserted (s.invert group_gen)
          generator_inv ← asserted (s.invert r.generator)
          ok (record {
            size = size;
            log_size_of_group = log_size_of_group;
            size_as_field_element = size_as_field_element;
            size_inv = size_inv;
            group_gen = group_gen;
            group_gen_inv = group_gen_inv;
            generator_inv = generator_inv;
          })))

  unfoldable pub evaluate_vanishing_polynomial : EvaluationDomain F → F → F
  evaluate_vanishing_polynomial domain tau = r.pow tau domain.size ⊖ s.one

  -- The search for `tau` among the elements: zeros, and a one at the first place where it is.
  unfoldable pub indicator : F → F → F → ℕ → List F
  indicator tau group_gen omega_i zero = []
  indicator tau group_gen omega_i (suc n) = elim (s.beq omega_i tau) [
    | true ↦ s.one ∷ zeros n
    | false ↦ s.zero ∷ indicator tau group_gen (omega_i ⊗ group_gen) n
  ]
    where
      zeros : ℕ → List F
      zeros zero = []
      zeros (suc n) = s.zero ∷ zeros n

  -- The vectors `u` and `ls` of the loop.
  unfoldable pub differences : F → F → F → ℕ → List F
  differences tau group_gen root zero = []
  differences tau group_gen root (suc n) =
      (tau ⊖ root) ∷ differences tau group_gen (root ⊗ group_gen) n

  unfoldable pub numerators : F → F → ℕ → List F
  numerators group_gen l zero = []
  numerators group_gen l (suc n) = l ∷ numerators group_gen (l ⊗ group_gen) n

  -- `u.iter_mut().zip(ls)`
  unfoldable pub scale_each : List F → List F → List F
  scale_each [] ls = []
  scale_each (u ∷ us) [] = u ∷ us
  scale_each (u ∷ us) (l ∷ ls) = (l ⊗ u) ∷ scale_each us ls

  unfoldable pub evaluate_all_lagrange_coefficients : EvaluationDomain F → F → Option (List F)
  unfolding indicator differences numerators scale_each
  evaluate_all_lagrange_coefficients domain tau =
      let t_size = r.pow tau domain.size in
      elim (s.beq t_size s.one) [
        | true ↦ some (indicator tau domain.group_gen s.one domain.size)
        | false ↦
            let l = (t_size ⊖ s.one) ⊗ domain.size_inv in
            elim (batch_inversion (differences tau domain.group_gen s.one domain.size)) [
              | none ↦ none
              | some u ↦ some (scale_each u (numerators domain.group_gen l domain.size))
            ]
      ]

  -- `compute_first_lagrange_evaluation` of src/proof_system/proof.rs
  unfoldable pub compute_first_lagrange_evaluation : EvaluationDomain F → F → F → Option F
  compute_first_lagrange_evaluation domain z_h_eval z_challenge =
      let n_fr = s.from domain.size in
      let denom = n_fr ⊗ (z_challenge ⊖ s.one) in
      elim (s.invert denom) [ none ↦ none | some d ↦ some (z_h_eval ⊗ d) ]
