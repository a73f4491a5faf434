-- ===== src/Kzg/Truncate.antt =====
-- The degree of a truncated commitment key.
use plonk.Prelude.{
  ℕ, zero, suc, ◌+◌, ◌≤◌, ◌<◌, ◌≡◌, refl, ap, true, false, Bool-cases, inl, inr, ◌==◌, ltb,
  if◌then◌else◌, List, [], ◌∷◌, length, take, arith,
}
use plonk.Error.{◌>>=◌, ok, panic}
use plonk.Kzg.Key.{CommitKey, len_minus_one, max_degree, slice_to, truncate}

module _ {G : Type 0} where
  length-take : (xs : List G) (n : ℕ) → n ≤ length xs → length (take n xs) ≡ n
  length-take xs zero h = refl
  length-take [] (suc n) h = absurd (omega arith)
  length-take (x ∷ xs) (suc n) h = ap suc (length-take xs n (omega arith))

  slice_to-max_degree :
      (p : G) (ps : List G) (d : ℕ)
      → (do
        truncated ← (do powers ← slice_to (p ∷ ps) d; ok (record { powers_of_g = powers }))
        max_degree truncated)
        ≡ (if ltb (length ps) d then panic else ok d)
  unfolding max_degree
  slice_to-max_degree p ps d = elim (Bool-cases (ltb (length ps) d)) [
    | inl e ↦ let out : ltb d (suc (length ps)) ≡ false = ground arith in rw (e, out) refl
    | inr e ↦
        let within : ltb d (suc (length ps)) ≡ true = ground arith in
        let one_more : d + 1 ≡ suc d = omega arith in
        rw (e, within, one_more) (ap ok (length-take ps d (ground arith)))
  ]

  truncate-slice :
      (p : G) (ps : List G) (d : ℕ)
      → 0 < d
      → d ≤ length ps
      → (do truncated ← truncate (record { powers_of_g = p ∷ ps }) d; max_degree truncated)
        ≡ (if d == 1 then (if length ps == 1 then panic else ok 2) else ok d)
  unfolding truncate
  truncate-slice p ps d positive le =
      let not_zero : (d == 0) ≡ false = ground arith in
      let small : ltb (length ps) d ≡ false = ground arith in
      elim (Bool-cases (d == 1)) [
        | inl one ↦ elim (Bool-cases (length ps == 1)) [
          | inl e ↦
              let out : ltb (length ps) (d + 1) ≡ true = ground arith in
              rw (max_degree, not_zero, small, one, slice_to-max_degree p ps (d + 1), out, e) refl
          | inr e ↦
              let within : ltb (length ps) (d + 1) ≡ false = ground arith in
              let two : d + 1 ≡ 2 = ground arith in
              rw (max_degree, not_zero, small, one, slice_to-max_degree p ps (d + 1), within, e)
                (ap ok two)
        ]
        | inr more ↦ rw (max_degree, not_zero, small, more, slice_to-max_degree p ps d, small) refl
      ]

  -- A key of maximal degree n, truncated to a positive degree d that is at most n, has maximal
  -- degree d; but truncated to degree one it keeps degree two, and panics by an index out of
  -- bounds if n is one.
  pub truncate-max_degree :
      (ck : CommitKey G) (n d : ℕ)
      → max_degree ck ≡ ok n
      → 0 < d
      → d ≤ n
      → (do truncated ← truncate ck d; max_degree truncated)
        ≡ (if d == 1 then (if n == 1 then panic else ok 2) else ok d)
  unfolding max_degree
  truncate-max_degree ck n d h positive le = go ck.powers_of_g h
    where
      go :
          (xs : List G)
          → len_minus_one xs ≡ ok n
          → (do truncated ← truncate (record { powers_of_g = xs }) d; max_degree truncated)
            ≡ (if d == 1 then (if n == 1 then panic else ok 2) else ok d)
      go [] e = cc
      go (p ∷ ps) e =
          let len : length ps ≡ n = cc in
          rw (← len) (truncate-slice p ps d positive (omega (arith, len)))
