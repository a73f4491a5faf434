-- ===== src/Polynomial.antt =====
-- Polynomials by their coefficients, the constant first: src/fft/polynomial.rs, with `powers_of`
-- of src/util.rs.
pub mod Evaluate
pub mod Ruffini
pub mod Arithmetic
pub mod Sums
pub mod Scalars
use plonk.Prelude.{
  ℕ, zero, suc, ◌+◌, Bool, true, false, ◌&&◌, Option, none, some, List, [], ◌∷◌, map, reverse, leb,
  if◌then◌else◌, length,
}
use plonk.Scalar.{Scalar, ◌⊕◌, ◌⊖◌, ◌⊗◌}

abbrev pub Polynomial : Type 0 → Type 0
Polynomial F = List F

module _ {F : Type 0} ⦃s : Scalar F⦄ where
  abbrev pub all_zero : List F → Bool
  all_zero [] = true
  all_zero (c ∷ cs) = s.beq c s.zero && all_zero cs

  -- The coefficients are empty or all zero.
  unfoldable pub is_zero : Polynomial F → Bool
  is_zero p = all_zero p

  -- `while last is zero { pop }`, from the last coefficient on.
  unfoldable pub pop_zeros : List F → List F
  pop_zeros [] = []
  pop_zeros (c ∷ rest) = if s.beq c s.zero then pop_zeros rest else c ∷ rest

  unfoldable pub truncate_leading_zeros : Polynomial F → Polynomial F
  unfolding pop_zeros
  truncate_leading_zeros p = reverse (pop_zeros (reverse p))

  abbrev pub last_nonzero : List F → Bool
  last_nonzero [] = true
  last_nonzero (c ∷ rest) = if s.beq c s.zero then false else true

  -- `none` is the failure of the assertion that the last coefficient is not zero.
  unfoldable pub from_coefficients_vec : List F → Option (Polynomial F)
  unfolding truncate_leading_zeros
  from_coefficients_vec coeffs =
      let result = truncate_leading_zeros coeffs in
      if last_nonzero (reverse result) then some result else none

  -- The index of the first coefficient from the end that is not zero.
  unfoldable pub last_index : List F → ℕ
  last_index [] = 0
  last_index (c ∷ rest) = let r = last_index rest in if s.beq c s.zero then r else length rest

  unfoldable pub degree : Polynomial F → ℕ
  unfolding is_zero last_index
  degree p = if is_zero p then 0 else last_index (reverse p)

  -- The powers after `power`, `n` of them.
  unfoldable pub next_powers : F → F → ℕ → List F
  next_powers scalar power zero = []
  next_powers scalar power (suc n) = let next = power ⊗ scalar in next ∷ next_powers scalar next n

  unfoldable pub powers_of : F → ℕ → List F
  unfolding next_powers
  powers_of scalar max_degree = s.one ∷ next_powers scalar s.one max_degree

  -- The loop that sums the products of coefficients and powers.
  unfoldable pub sum_products : F → List F → List F → F
  sum_products sum [] ps = sum
  sum_products sum (c ∷ cs) [] = sum
  sum_products sum (c ∷ cs) (p ∷ ps) = sum_products (sum ⊕ p ⊗ c) cs ps

  unfoldable pub evaluate : Polynomial F → F → F
  unfolding is_zero sum_products
  evaluate p value =
      if is_zero p then s.zero else sum_products s.zero p (powers_of value (length p))

  -- `for (a, b) in result.iter_mut().zip(other) { op(a, b) }`
  unfoldable pub zip_with : (F → F → F) → List F → List F → List F
  zip_with op [] bs = []
  zip_with op (a ∷ as') [] = a ∷ as'
  zip_with op (a ∷ as') (b ∷ bs) = op a b ∷ zip_with op as' bs

  -- `Vec::resize(n, zero)`
  unfoldable pub resize : ℕ → List F → List F
  resize zero p = []
  resize (suc n) [] = s.zero ∷ resize n []
  resize (suc n) (c ∷ cs) = c ∷ resize n cs

  unfoldable pub add : Polynomial F → Polynomial F → Polynomial F
  add p q = truncate_leading_zeros (
      if is_zero p
      then q
      else if is_zero q
      then p
      else if leb (degree q) (degree p)
      then zip_with s.add p q
      else zip_with s.add q p)

  unfoldable pub add_assign : Polynomial F → Polynomial F → Polynomial F
  add_assign p q = truncate_leading_zeros (
      if is_zero p
      then q
      else if is_zero q
      then p
      else if leb (degree q) (degree p)
      then zip_with s.add p q
      else zip_with s.add (resize (length q) p) q)

  -- `*self += (f, other)`
  unfoldable pub add_assign_scaled : Polynomial F → F → Polynomial F → Polynomial F
  add_assign_scaled p f q = truncate_leading_zeros (
      if is_zero p
      then map (λ c. c ⊗ f) q
      else if is_zero q
      then p
      else if leb (degree q) (degree p)
      then zip_with (λ a b. a ⊕ f ⊗ b) p q
      else zip_with (λ a b. a ⊕ f ⊗ b) (resize (length q) p) q)

  unfoldable pub neg : Polynomial F → Polynomial F
  neg p = map s.neg p

  unfoldable pub sub : Polynomial F → Polynomial F → Polynomial F
  sub p q = truncate_leading_zeros (
      if is_zero p
      then map s.neg q
      else if is_zero q
      then p
      else if leb (degree q) (degree p)
      then zip_with s.sub p q
      else zip_with s.sub (resize (length q) p) q)

  unfoldable pub sub_assign : Polynomial F → Polynomial F → Polynomial F
  sub_assign p q = truncate_leading_zeros (
      if is_zero p
      then zip_with s.sub (resize (length q) p) q
      else if is_zero q
      then p
      else if leb (degree q) (degree p)
      then zip_with s.sub p q
      else zip_with s.sub (resize (length q) p) q)

  unfoldable pub mul_scalar : Polynomial F → F → Option (Polynomial F)
  mul_scalar p constant =
      if is_zero p
      then some []
      else if s.beq constant s.zero
      then some []
      else from_coefficients_vec (map (λ c. c ⊗ constant) p)

  abbrev pub set_first : (F → F) → List F → Option (List F)
  set_first f [] = none
  set_first f (c ∷ cs) = some (f c ∷ cs)

  unfoldable pub add_scalar : Polynomial F → F → Option (Polynomial F)
  add_scalar p constant =
      if is_zero p
      then from_coefficients_vec (constant ∷ [])
      else if s.beq constant s.zero
      then some p
      else set_first (λ c. c ⊕ constant) p

  unfoldable pub sub_scalar : Polynomial F → F → Option (Polynomial F)
  unfolding add_scalar
  sub_scalar p constant = add_scalar p (s.neg constant)

  -- The quotients of the division, from the leading coefficient down.
  unfoldable pub ruffini_loop : F → F → List F → List F
  ruffini_loop z k [] = []
  ruffini_loop z k (coeff ∷ rest) = let t = coeff ⊕ k in t ∷ ruffini_loop z (z ⊗ t) rest

  -- `Vec::pop`, without the result.
  unfoldable pub pop : List F → List F
  pop [] = []
  pop (c ∷ []) = []
  pop (c ∷ d ∷ cs) = c ∷ pop (d ∷ cs)

  unfoldable pub ruffini : Polynomial F → F → Option (Polynomial F)
  unfolding ruffini_loop pop
  ruffini p z = from_coefficients_vec (reverse (pop (ruffini_loop z s.zero (reverse p))))
