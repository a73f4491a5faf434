-- ===== src/Tests/Field.antt =====
-- A field that meets the assumptions on `BlsScalar`: the numbers modulo 17.
use plonk.Prelude.{
  ℕ, zero, suc, ◌+◌, ◌-◌, ◌*◌, ◌/◌, ◌%◌, ◌^◌, ◌<◌, ◌≡◌, ◌≢◌, ◌↔◌, refl, ap, ◌∙◌, Bool, true, ◌==◌,
  ==_iff, if◌then◌else◌, Option, none, some, List, [], ◌∷◌, length, Bool-cases, all_below,
  all_below_sound, inl, inr, arith,
}
use mathlib.Core.Bool.{◌||◌}
use mathlib.Core.HLevel.{is_prop→PathP}
use native.Mathlib.Nat.{pow-suc}
use native.Mathlib.Bridge.{le_prop}
use plonk.Scalar.{Scalar}
use plonk.Scalar.Bits.{ScalarBits, AllBits, from_bits}

pub record Z17 : Type 0 where
  pub value : ℕ
  pub below : value < 17

pub Z17-ext : (a b : Z17) → a.value ≡ b.value → a ≡ b
Z17-ext a b e = λ i. record {
  value = e i;
  below = is_prop→PathP (λ j. e j < 17) (λ j. le_prop) a.below b.below i;
}

abbrev pub of_ℕ : ℕ → Z17
of_ℕ n = record { value = n % 17; below = omega arith }

-- An equation in three residues, by all their values.
table_3 : (ℕ → ℕ → ℕ → Bool) → Bool
table_3 p = all_below 17 (λ a. all_below 17 (λ b. all_below 17 (p a b)))

table_3_sound :
    (p : ℕ → ℕ → ℕ → Bool) (a b c : Z17) → table_3 p ≡ true → p a.value b.value c.value ≡ true
unfolding table_3
table_3_sound p a b c h =
    all_below_sound 17 (p a.value b.value) c.value
      (all_below_sound 17 (λ b. all_below 17 (p a.value b)) b.value
        (all_below_sound 17 (λ a. all_below 17 (λ b. all_below 17 (p a b))) a.value h a.below)
        b.below)
      c.below

table_assoc : table_3 (λ a b c. (a * b % 17) * c % 17 == a * (b * c % 17) % 17) ≡ true
unfolding table_3
table_assoc = refl

table_distrib : table_3 (λ a b c. a * ((b + c) % 17) % 17 == (a * b % 17 + a * c % 17) % 17) ≡ true
unfolding table_3
table_distrib = refl

abbrev pub inverse : Z17 → Option Z17
inverse a = if a.value == 0 then none else some (of_ℕ (a.value ^ 15))

table_inverse : all_below 17 (λ a. (a == 0) || (a * (a ^ 15 % 17) % 17 == 1)) ≡ true
table_inverse = refl

pub mul-inverse : (a b : Z17) → inverse a ≡ some b → of_ℕ (a.value * b.value) ≡ of_ℕ 1
mul-inverse a b h = elim (Bool-cases (a.value == 0)) [
  | inl e ↦ cc (rw e at h)
  | inr e ↦
      let g : some (of_ℕ (a.value ^ 15)) ≡ some b = rw e at h in
      let g' : of_ℕ (a.value ^ 15) ≡ b = cc in
      Z17-ext _ _ (
        rw (← g') (
          (==_iff (a.value * (a.value ^ 15 % 17) % 17) 1).0 (
            rw e at (
              all_below_sound 17 (λ a. (a == 0) || (a * (a ^ 15 % 17) % 17 == 1)) a.value
                table_inverse a.below))))
]

pub inverse-none : (a : Z17) → inverse a ≡ none → a ≡ of_ℕ 0
inverse-none a h = elim (Bool-cases (a.value == 0)) [
  | inl e ↦ Z17-ext _ _ ((==_iff a.value 0).0 e)
  | inr e ↦ cc (rw e at h)
]

pub mod_17_assoc :
    (a b c : Z17)
    → of_ℕ ((a.value * b.value % 17) * c.value) ≡ of_ℕ (a.value * (b.value * c.value % 17))
mod_17_assoc a b c = Z17-ext _ _ ((==_iff _ _).0 (table_3_sound _ a b c table_assoc))

pub mod_17_distrib :
    (a b c : Z17)
    → of_ℕ (a.value * ((b.value + c.value) % 17))
      ≡ of_ℕ (a.value * b.value % 17 + a.value * c.value % 17)
mod_17_distrib a b c = Z17-ext _ _ ((==_iff _ _).0 (table_3_sound _ a b c table_distrib))

pub beq_17_iff : (a b : Z17) → ((a.value == b.value) ≡ true) ↔ (a ≡ b)
beq_17_iff a b = (
  λ h. Z17-ext a b ((==_iff a.value b.value).0 h),
  λ e. (==_iff a.value b.value).1 (ap (λ x. x.value) e),
)

pub one_17-ne-zero : of_ℕ 1 ≢ of_ℕ 0
one_17-ne-zero e = absurd (omega (arith, ap (λ x. x.value) e))

instance abbrev pub z17 : Scalar Z17
z17 = record {
  zero = of_ℕ 0;
  one = of_ℕ 1;
  add = λ a b. of_ℕ (a.value + b.value);
  mul = λ a b. of_ℕ (a.value * b.value);
  sub = λ a b. of_ℕ (a.value + (17 - b.value) % 17);
  neg = λ a. of_ℕ (17 - a.value);
  invert = inverse;
  beq = λ a b. a.value == b.value;
  from = of_ℕ;
  add_assoc = λ a b c. Z17-ext _ _ (omega arith);
  add_comm = λ a b. Z17-ext _ _ (omega arith);
  zero-add = λ a. Z17-ext _ _ (omega (arith, a.below));
  add-neg = λ a. Z17-ext _ _ (omega (arith, a.below));
  sub_lem = λ a b. refl;
  mul_assoc = mod_17_assoc;
  mul_comm = λ a b. Z17-ext _ _ (omega arith);
  one-mul = λ a. Z17-ext _ _ (omega (arith, a.below));
  mul-add = mod_17_distrib;
  one-ne-zero = one_17-ne-zero;
  mul-invert = mul-inverse;
  invert-none = inverse-none;
  beq_iff = beq_17_iff;
  from-zero = refl;
  from-suc = λ n. Z17-ext _ _ (omega arith);
}

unfoldable pub digits : ℕ → ℕ → List ℕ
digits zero v = []
digits (suc n) v = v % 2 ∷ digits n (v / 2)

pub digits-AllBits : (n v : ℕ) → AllBits (digits n v)
unfolding digits
digits-AllBits zero v = tt
digits-AllBits (suc n) v = (omega arith, digits-AllBits n (v / 2))

pub length-digits : (n v : ℕ) → length (digits n v) ≡ n
unfolding digits
length-digits zero v = refl
length-digits (suc n) v = omega (arith, length-digits n (v / 2))

from_bits-digits : (n v : ℕ) → v < 2 ^ n → from_bits (digits n v) ≡ v
unfolding digits
from_bits-digits zero v h = omega arith
from_bits-digits (suc n) v h =
    omega (arith, from_bits-digits n (v / 2) (omega (arith, pow-suc 2 n)))

below_power : (n v : ℕ) → v < 17 → v < 2 ^ (n + 5)
below_power zero v h = omega arith
below_power (suc n) v h =
    let e : 2 ^ (suc n + 5) ≡ 2 * 2 ^ (n + 5) =
      ap (◌^◌ 2) {y = suc (n + 5)} (omega arith) ∙ pow-suc 2 (n + 5) ∙ omega arith in
    omega (arith, below_power n v h, e)

digits_all : (n : ℕ) (a : Z17) → of_ℕ (from_bits (digits (n + 5) a.value)) ≡ a
digits_all n a = Z17-ext _ _ (
    ap (λ t. t % 17) (from_bits-digits (n + 5) a.value (below_power n a.value a.below))
    ∙ omega (arith, a.below))

pub digits_256 : (a : Z17) → of_ℕ (from_bits (digits 256 a.value)) ≡ a
digits_256 a = digits_all 251 a

pub pow_17-suc : (i : ℕ) → of_ℕ (2 ^ suc i) ≡ of_ℕ (2 ^ i % 17 + 2 ^ i % 17)
pow_17-suc i = Z17-ext _ _ (omega (arith, pow-suc 2 i))

instance abbrev pub z17_bits : ScalarBits Z17
z17_bits = record {
  to_bits = λ a. digits 256 a.value;
  pow_of_2 = λ i. of_ℕ (2 ^ i);
  to_bits-AllBits = λ a. digits-AllBits 256 a.value;
  length-to_bits = λ a. length-digits 256 a.value;
  from-from_bits = digits_256;
  pow_of_2-zero = refl;
  pow_of_2-suc = pow_17-suc;
}
