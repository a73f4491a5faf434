-- ===== src/Composer/Digits.antt =====
-- The bits that the bitwise operations of the composer read, and the number that they make.
use plonk.Prelude.{
  ℕ, zero, suc, ◌+◌, ◌-◌, ◌*◌, ◌<◌, ◌≤◌, ◌≡◌, refl, sym, ap, ◌∙◌, subst, Bool, true, false,
  if◌then◌else◌, some, List, [], ◌∷◌, reverse, length, get_elem?, length-reverse, get_elem?-append,
  get_elem?-append_end, lt_of_get_elem?, as_u64, arith,
}
use mathlib.Core.List.{reverse-cons}
use plonk.Composer.Quads.{skip, xor_quad, and_quad}

-- The operation on two bits: exclusive disjunction or conjunction.
abbrev pub bit_op : Bool → Bool → Bool → Bool
bit_op true true true = false
bit_op true true false = true
bit_op true false b = b
bit_op false true b = b
bit_op false false b = false

-- The number whose `n` binary digits, the least significant first, are the operation on the first
-- `n` digits of the two lists.
abbrev pub bitwise : Bool → ℕ → List Bool → List Bool → ℕ
bitwise is_xor zero us vs = 0
bitwise is_xor (suc n) [] vs = 0
bitwise is_xor (suc n) (a ∷ us) [] = 0
bitwise is_xor (suc n) (a ∷ us) (b ∷ vs) = as_u64 (bit_op is_xor a b) + 2 * bitwise is_xor n us vs

pub quad_lem :
    (is_xor l r l' r' : Bool)
    → (if is_xor
        then xor_quad (as_u64 l * 2 + as_u64 r) (as_u64 l' * 2 + as_u64 r')
        else and_quad (as_u64 l * 2 + as_u64 r) (as_u64 l' * 2 + as_u64 r'))
      ≡ as_u64 (bit_op is_xor r r') + 2 * as_u64 (bit_op is_xor l l')
quad_lem true true true true true = refl
quad_lem true true true true false = refl
quad_lem true true true false true = refl
quad_lem true true true false false = refl
quad_lem true true false true true = refl
quad_lem true true false true false = refl
quad_lem true true false false true = refl
quad_lem true true false false false = refl
quad_lem true false true true true = refl
quad_lem true false true true false = refl
quad_lem true false true false true = refl
quad_lem true false true false false = refl
quad_lem true false false true true = refl
quad_lem true false false true false = refl
quad_lem true false false false true = refl
quad_lem true false false false false = refl
quad_lem false true true true true = refl
quad_lem false true true true false = refl
quad_lem false true true false true = refl
quad_lem false true true false false = refl
quad_lem false true false true true = refl
quad_lem false true false true false = refl
quad_lem false true false false true = refl
quad_lem false true false false false = refl
quad_lem false false true true true = refl
quad_lem false false true true false = refl
quad_lem false false true false true = refl
quad_lem false false true false false = refl
quad_lem false false false true true = refl
quad_lem false false false true false = refl
quad_lem false false false false true = refl
quad_lem false false false false false = refl

-- `xs` has the bits of `us` below `n`, the most significant first.
abbrev pub Mirrors : ℕ → List Bool → List Bool → Type 0
Mirrors n xs us =
    (j : ℕ) (x : Bool) → j < n → get_elem? xs j ≡ some x → get_elem? us (n - 1 - j) ≡ some x

pub length-skip : {A : Type 0} (n : ℕ) (xs : List A) → length (skip n xs) ≡ length xs - n
length-skip zero xs = omega arith
length-skip (suc n) [] = omega arith
length-skip (suc n) (x ∷ xs) = omega (arith, length-skip n xs)

get_elem?-skip :
    {A : Type 0} (n : ℕ) (xs : List A) (j : ℕ) → get_elem? (skip n xs) j ≡ get_elem? xs (n + j)
get_elem?-skip zero xs j = ap (get_elem? xs) {x = j} {y = 0 + j} (omega arith)
get_elem?-skip (suc n) [] j = refl
get_elem?-skip (suc n) (x ∷ xs) j =
    get_elem?-skip n xs j ∙ ap (get_elem? (x ∷ xs)) {x = suc (n + j)} {y = suc n + j} (omega arith)

pub skip-get_elem? :
    {A : Type 0} (n : ℕ) (xs : List A) (x : A)
    → get_elem? xs n ≡ some x
    → skip n xs ≡ x ∷ skip (suc n) xs
skip-get_elem? n [] x e = cc
skip-get_elem? zero (y ∷ xs) x e = ground arith
skip-get_elem? (suc n) (y ∷ xs) x e = skip-get_elem? n xs x e

get_elem?-reverse :
    (xs : List Bool) (j : ℕ) (x : Bool)
    → get_elem? xs j ≡ some x
    → get_elem? (reverse xs) (length xs - 1 - j) ≡ some x
get_elem?-reverse [] j x e = cc
get_elem?-reverse (y ∷ xs) zero x e =
    ap (get_elem? (reverse (y ∷ xs))) {y = length (reverse xs)} (omega (arith, length-reverse xs))
    ∙ ap (λ zs. get_elem? zs (length (reverse xs))) (reverse-cons y xs)
    ∙ get_elem?-append_end (reverse xs) y
    ∙ e
get_elem?-reverse (y ∷ xs) (suc j) x e =
    let lt : j < length xs = lt_of_get_elem? xs j x e in
    let i : ℕ = length xs - 1 - j in
    ap (get_elem? (reverse (y ∷ xs))) {y = i} (omega arith)
    ∙ ap (λ zs. get_elem? zs i) (reverse-cons y xs)
    ∙ get_elem?-append (reverse xs) (y ∷ []) i (omega (arith, length-reverse xs))
    ∙ get_elem?-reverse xs j x e

-- Without the `length xs - n` leading bits, the bits mirror the low `n` ones.
skip-Mirrors :
    (n : ℕ) (xs : List Bool) → n ≤ length xs → Mirrors n (skip (length xs - n) xs) (reverse xs)
skip-Mirrors n xs h j x lt e =
    ap (get_elem? (reverse xs)) {y = length xs - 1 - (length xs - n + j)} (omega arith)
    ∙ get_elem?-reverse xs (length xs - n + j) x (sym (get_elem?-skip (length xs - n) xs j) ∙ e)

-- Two more bits of each list are a quad more of the number.
pub bitwise-quad :
    (is_xor : Bool) (n k : ℕ) (xs ys us vs : List Bool) (l r l' r' : Bool)
    → Mirrors n xs us
    → Mirrors n ys vs
    → k + 2 ≤ n
    → get_elem? xs k ≡ some l
    → get_elem? xs (k + 1) ≡ some r
    → get_elem? ys k ≡ some l'
    → get_elem? ys (k + 1) ≡ some r'
    → bitwise is_xor (k + 2) (skip (n - (k + 2)) us) (skip (n - (k + 2)) vs)
      ≡ as_u64 (bit_op is_xor r r')
        + 2 * as_u64 (bit_op is_xor l l')
        + bitwise is_xor k (skip (n - k) us) (skip (n - k) vs) * 4
bitwise-quad is_xor n k xs ys us vs l r l' r' ma mb h el er el' er' =
    let m = n - (k + 2) in
    let ea : skip m us ≡ r ∷ l ∷ skip (n - k) us = two_bits us xs ma l r el er in
    let eb : skip m vs ≡ r' ∷ l' ∷ skip (n - k) vs = two_bits vs ys mb l' r' el' er' in
    let e : k + 2 ≡ suc (suc k) = omega arith in
    ap (λ i. bitwise is_xor i (skip m us) (skip m vs)) e ∙ rw (ea, eb) (omega arith)
  where
    two_bits :
        (us xs : List Bool)
        → Mirrors n xs us
        → (l r : Bool) → get_elem? xs k ≡ some l
        → get_elem? xs (k + 1) ≡ some r
        → skip (n - (k + 2)) us ≡ r ∷ l ∷ skip (n - k) us
    two_bits us xs ma l r el er =
        let m = n - (k + 2) in
        skip-get_elem? m us r
          (ap (get_elem? us) {x = m} (omega arith) ∙ ma (k + 1) r (omega arith) er)
        ∙ ap (◌∷◌ r) (
            skip-get_elem? (suc m) us l
              (ap (get_elem? us) {x = suc m} (omega arith) ∙ ma k l (omega arith) el)
            ∙ ap (λ i. l ∷ skip i us) {x = suc (suc m)} (omega arith))

-- The low bits of a scalar, from the iterator over its bytes.
pub bits-Mirrors :
    (n : ℕ) (bits us : List Bool)
    → n ≤ 256
    → length bits ≡ 256
    → reverse bits ≡ us
    → Mirrors n (skip (256 - n) bits) us
bits-Mirrors n bits us h len rev = subst (Mirrors n (skip (256 - n) bits)) rev (
    subst (λ k. Mirrors n (skip (k - n) bits) (reverse bits)) len
      (skip-Mirrors n bits (omega (arith, len))))

-- The number made of the first `m` of `n` bits.
abbrev pub high_part : Bool → ℕ → List Bool → List Bool → ℕ → ℕ
high_part is_xor n us vs m = bitwise is_xor m (skip (n - m) us) (skip (n - m) vs)

pub high_part_all :
    (is_xor : Bool) (n : ℕ) (us vs : List Bool) (m : ℕ)
    → m ≡ n
    → high_part is_xor n us vs m ≡ bitwise is_xor n us vs
high_part_all is_xor n us vs m e =
    ap (high_part is_xor n us vs) e
    ∙ ap (λ z. bitwise is_xor n (skip z us) (skip z vs)) {x = n - n} {y = 0} (omega arith)
