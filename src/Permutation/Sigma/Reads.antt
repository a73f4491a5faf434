-- ===== src/Permutation/Sigma/Reads.antt =====
-- What the sigma permutations of a circuit say of each wire.
use plonk.Prelude.{
  ℕ, zero, suc, ◌+◌, ◌-◌, ◌<◌, ◌≡◌, refl, ap, ◌∙◌, Bool, true, false, ◌==◌, ==_iff, lt→ltb,
  if◌then◌else◌, Option, none, some, List, [], ◌∷◌, length, get_elem?, set, arith, Bool-cases, inl,
  inr,
}
use plonk.Wires.{WireData, left, right, output, fourth}
use plonk.Permutation.{Permutation}
use plonk.Permutation.Sigma.{
  Sigmas, wires_from, identity, map_wire, next_index, map_wires, map_entries,
  compute_sigma_permutations,
}

-- Where the permutations send a wire.
abbrev pub image : Sigmas → WireData → Option WireData
image s (left i) = get_elem? s.sigma_1 i
image s (right i) = get_elem? s.sigma_2 i
image s (output i) = get_elem? s.sigma_3 i
image s (fourth i) = get_elem? s.sigma_4 i

abbrev pub gate_index : WireData → ℕ
gate_index (left i) = i
gate_index (right i) = i
gate_index (output i) = i
gate_index (fourth i) = i

unfoldable pub same_wire : WireData → WireData → Bool
same_wire (left i) (left j) = i == j
same_wire (right i) (right j) = i == j
same_wire (output i) (output j) = i == j
same_wire (fourth i) (fourth j) = i == j
same_wire (left i) _ = false
same_wire (right i) _ = false
same_wire (output i) _ = false
same_wire (fourth i) _ = false

pub record Sized (n : ℕ) (s : Sigmas) : Type 0 where
  pub size_1 : length s.sigma_1 ≡ n
  pub size_2 : length s.sigma_2 ≡ n
  pub size_3 : length s.sigma_3 ≡ n
  pub size_4 : length s.sigma_4 ≡ n

length-set {ℓ} : {A : Type ℓ} (xs : List A) (i : ℕ) (v : A) → length (set xs i v) ≡ length xs
length-set [] i v = refl
length-set (x ∷ xs) zero v = refl
length-set (x ∷ xs) (suc i) v = omega (arith, length-set xs i v)

get_elem?-set {ℓ} :
    {A : Type ℓ} (xs : List A) (i j : ℕ) (v : A)
    → i < length xs
    → get_elem? (set xs i v) j ≡ (if j == i then some v else get_elem? xs j)
get_elem?-set [] i j v h = absurd (omega arith)
get_elem?-set (x ∷ xs) zero zero v h = refl
get_elem?-set (x ∷ xs) zero (suc j) v h = ground arith
get_elem?-set (x ∷ xs) (suc i) zero v h = ground arith
get_elem?-set (x ∷ xs) (suc i) (suc j) v h = ground (arith, get_elem?-set xs i j v)

-- One write: the wire goes where it is sent, every other stays.
pub map_wire_lem :
    (n : ℕ) (u next : WireData) (s : Sigmas)
    → Sized n s
    → gate_index u < n
    → (s' : Sigmas) × (map_wire u next s ≡ some s')
      × Sized n s'
      × ((v : WireData) → image s' v ≡ (if same_wire v u then some next else image s v))
unfolding map_wire same_wire
map_wire_lem n (left i) next s z h = (
  record s { sigma_1 = set s.sigma_1 i next },
  rw (lt→ltb i (length s.sigma_1) (omega (arith, z.size_1))) refl,
  record {
    size_1 = length-set s.sigma_1 i next ∙ z.size_1;
    size_2 = z.size_2;
    size_3 = z.size_3;
    size_4 = z.size_4;
  },
  elim [
    | left j ↦ get_elem?-set s.sigma_1 i j next (omega (arith, z.size_1))
    | right j ↦ refl
    | output j ↦ refl
    | fourth j ↦ refl
  ],
)
map_wire_lem n (right i) next s z h = (
  record s { sigma_2 = set s.sigma_2 i next },
  rw (lt→ltb i (length s.sigma_2) (omega (arith, z.size_2))) refl,
  record {
    size_2 = length-set s.sigma_2 i next ∙ z.size_2;
    size_1 = z.size_1;
    size_3 = z.size_3;
    size_4 = z.size_4;
  },
  elim [
    | right j ↦ get_elem?-set s.sigma_2 i j next (omega (arith, z.size_2))
    | left j ↦ refl
    | output j ↦ refl
    | fourth j ↦ refl
  ],
)
map_wire_lem n (output i) next s z h = (
  record s { sigma_3 = set s.sigma_3 i next },
  rw (lt→ltb i (length s.sigma_3) (omega (arith, z.size_3))) refl,
  record {
    size_3 = length-set s.sigma_3 i next ∙ z.size_3;
    size_1 = z.size_1;
    size_2 = z.size_2;
    size_4 = z.size_4;
  },
  elim [
    | output j ↦ get_elem?-set s.sigma_3 i j next (omega (arith, z.size_3))
    | left j ↦ refl
    | right j ↦ refl
    | fourth j ↦ refl
  ],
)
map_wire_lem n (fourth i) next s z h = (
  record s { sigma_4 = set s.sigma_4 i next },
  rw (lt→ltb i (length s.sigma_4) (omega (arith, z.size_4))) refl,
  record {
    size_4 = length-set s.sigma_4 i next ∙ z.size_4;
    size_1 = z.size_1;
    size_2 = z.size_2;
    size_3 = z.size_3;
  },
  elim [
    | fourth j ↦ get_elem?-set s.sigma_4 i j next (omega (arith, z.size_4))
    | left j ↦ refl
    | right j ↦ refl
    | output j ↦ refl
  ],
)

abbrev pub follower : WireData → List WireData → WireData
follower first [] = first
follower first (w ∷ rest) = w

-- The wire after `u` in a list whose end leads to `first`; the last occurrence counts.
unfoldable pub after : WireData → List WireData → WireData → Option WireData
after first [] u = none
after first (w ∷ rest) u = elim (after first rest u) [
  | some v ↦ some v
  | none ↦ if same_wire u w then some (follower first rest) else none
]

-- The image that the entries of the map give a wire.
unfoldable pub next_wire : List (ℕ × List WireData) → WireData → Option WireData
next_wire [] u = none
next_wire ((w, []) ∷ entries) u = next_wire entries u
next_wire ((w, first ∷ wires) ∷ entries) u = elim (next_wire entries u) [
  | some v ↦ some v
  | none ↦ after first (first ∷ wires) u
]

abbrev pub or_else : Option WireData → Option WireData → Option WireData
or_else none b = b
or_else (some v) b = some v

abbrev pub GatesBelow : ℕ → List WireData → Type 0
GatesBelow n [] = Unit
GatesBelow n (w ∷ ws) = (gate_index w < n) × GatesBelow n ws

abbrev pub EntriesBelow : ℕ → List (ℕ × List WireData) → Type 0
EntriesBelow n [] = Unit
EntriesBelow n ((w, wires) ∷ entries) = GatesBelow n wires × EntriesBelow n entries

-- `rest` is what stands in `all` from index `i` on.
record Suffix (all : List WireData) (i : ℕ) (rest : List WireData) : Type 0 where
  elems : (k : ℕ) → get_elem? all (i + k) ≡ get_elem? rest k
  lengths : i + length rest ≡ length all

Suffix-tail :
    {all : List WireData} {i : ℕ} {w : WireData} {rest : List WireData}
    → Suffix all i (w ∷ rest)
    → Suffix all (i + 1) rest
Suffix-tail {all} {i} s = record {
  elems = λ k. ap (get_elem? all) {x = i + 1 + k} {y = i + suc k} (omega arith) ∙ s.elems (suc k);
  lengths = omega (arith, s.lengths);
}

-- The index arithmetic of the loop finds the follower.
next_index-follower :
    (all : List WireData) (i : ℕ) (first w : WireData) (rest : List WireData)
    → Suffix all i (w ∷ rest)
    → get_elem? all 0 ≡ some first
    → get_elem? all (next_index i (length all)) ≡ some (follower first rest)
next_index-follower all i first w [] s e =
    rw ((==_iff i (length all - 1)).1 (omega (arith, s.lengths))) e
next_index-follower all i first w (y ∷ rest) s e = elim (Bool-cases (i == length all - 1)) [
  | inl q ↦ absurd (omega (arith, s.lengths, (==_iff i (length all - 1)).0 q))
  | inr q ↦ rw q (s.elems 1)
]

map_wires_lem :
    (n : ℕ) (all : List WireData) (i : ℕ) (first : WireData) (rest : List WireData) (s : Sigmas)
    → Suffix all i rest
    → get_elem? all 0 ≡ some first
    → GatesBelow n rest
    → Sized n s
    → (s' : Sigmas) × (map_wires all i rest s ≡ some s')
      × Sized n s'
      × ((u : WireData) → image s' u ≡ or_else (after first rest u) (image s u))
unfolding map_wires after
map_wires_lem n all i first [] s suffix e below z = (s, refl, z, λ u. refl)
map_wires_lem n all i first (w ∷ rest) s suffix e below z =
    let (s1, e1, z1, reads1) = map_wire_lem n w (follower first rest) s z below.0 in
    let (s2, e2, z2, reads2) =
      map_wires_lem n all (i + 1) first rest s1 (Suffix-tail suffix) e below.1 z1 in
    (
      s2,
      simp (next_index-follower all i first w rest suffix e, e1, e2),
      z2,
      λ u.
          reads2 u
          ∙ merge (after first rest u) (same_wire u w) (follower first rest) (image s u) _
              (reads1 u),
    )
  where
    merge :
        (o : Option WireData) (b : Bool) (f : WireData) (old now : Option WireData)
        → now ≡ (if b then some f else old)
        → or_else o now
          ≡ or_else (elim o [ some v ↦ some v | none ↦ if b then some f else none ]) old
    merge (some v) b f old now h = refl
    merge none true f old now h = h
    merge none false f old now h = h

map_wires-nil : (s : Sigmas) → map_wires [] 0 [] s ≡ some s
unfolding map_wires
map_wires-nil s = refl

pub map_entries_lem :
    (n : ℕ) (entries : List (ℕ × List WireData)) (s : Sigmas)
    → EntriesBelow n entries
    → Sized n s
    → (s' : Sigmas) × (map_entries entries s ≡ some s')
      × Sized n s'
      × ((u : WireData) → image s' u ≡ or_else (next_wire entries u) (image s u))
unfolding map_entries next_wire
map_entries_lem n [] s below z = (s, refl, z, λ u. refl)
map_entries_lem n ((w, []) ∷ entries) s below z =
    let (s', e, z', reads) = map_entries_lem n entries s below.1 z in
    (s', simp (map_wires-nil s, e), z', reads)
map_entries_lem n ((w, first ∷ wires) ∷ entries) s below z =
    let (s1, e1, z1, reads1) =
      map_wires_lem n (first ∷ wires) 0 first (first ∷ wires) s
        (record {
          elems = λ k. ap (get_elem? (first ∷ wires)) {x = 0 + k} (omega arith);
          lengths = omega arith;
        })
        refl below.0 z in
    let (s2, e2, z2, reads2) = map_entries_lem n entries s1 below.1 z1 in
    (
      s2,
      simp (e1, e2),
      z2,
      λ u.
          reads2 u
          ∙ merge (next_wire entries u) (after first (first ∷ wires) u) (image s u) _ (reads1 u),
    )
  where
    merge :
        (o p old now : Option WireData)
        → now ≡ or_else p old
        → or_else o now ≡ or_else (elim o [ some v ↦ some v | none ↦ p ]) old
    merge (some v) p old now h = refl
    merge none p old now h = h

length-wires_from : (from n : ℕ) (wire : ℕ → WireData) → length (wires_from from n wire) ≡ n
unfolding wires_from
length-wires_from from zero wire = refl
length-wires_from from (suc n) wire = omega (arith, length-wires_from (from + 1) n wire)

get_elem?-wires_from :
    (from n i : ℕ) (wire : ℕ → WireData)
    → i < n
    → get_elem? (wires_from from n wire) i ≡ some (wire (from + i))
unfolding wires_from
get_elem?-wires_from from zero i wire h = absurd (omega arith)
get_elem?-wires_from from (suc n) zero wire h = ap (λ k. some (wire k)) {x = from} (omega arith)
get_elem?-wires_from from (suc n) (suc i) wire h =
    get_elem?-wires_from (from + 1) n i wire (omega arith)
    ∙ ap (λ k. some (wire k)) {x = from + 1 + i} (omega arith)

image-identity : (n : ℕ) (u : WireData) → gate_index u < n → image (identity n) u ≡ some u
image-identity n (left i) h =
    get_elem?-wires_from 0 n i left h ∙ ap (λ k. some (left k)) {x = 0 + i} (omega arith)
image-identity n (right i) h =
    get_elem?-wires_from 0 n i right h ∙ ap (λ k. some (right k)) {x = 0 + i} (omega arith)
image-identity n (output i) h =
    get_elem?-wires_from 0 n i output h ∙ ap (λ k. some (output k)) {x = 0 + i} (omega arith)
image-identity n (fourth i) h =
    get_elem?-wires_from 0 n i fourth h ∙ ap (λ k. some (fourth k)) {x = 0 + i} (omega arith)

-- For n gates whose map mentions no other gate, the sigma permutations are computed without an
-- index out of bounds, the four vectors have length n, and each wire is sent to the one after it
-- in the list of its witness, from the last around to the first, or to itself if no list has it.
pub compute_sigma_permutations_lem :
    (n : ℕ) (p : Permutation)
    → EntriesBelow n p.witness_map
    → (s : Sigmas) × (compute_sigma_permutations n p ≡ some s)
      × Sized n s
      × ((u : WireData)
          → gate_index u < n
          → image s u ≡ or_else (next_wire p.witness_map u) (some u))
unfolding compute_sigma_permutations
compute_sigma_permutations_lem n p below =
    let (s, e, z, reads) = map_entries_lem n p.witness_map (identity n) below (record {
      size_1 = length-wires_from 0 n left;
      size_2 = length-wires_from 0 n right;
      size_3 = length-wires_from 0 n output;
      size_4 = length-wires_from 0 n fourth;
    }) in
    (s, e, z, λ u h. reads u ∙ ap (or_else (next_wire p.witness_map u)) (image-identity n u h))
