-- ===== src/Permutation/Sigma/Copies.antt =====
-- The copy constraints that the sigma permutations stand for.
use plonk.Prelude.{
  ℕ, ◌<◌, ◌≡◌, refl, sym, ◌∙◌, ap, ◌↔◌, Bool, true, false, if◌then◌else◌, none, some, List, [], ◌∷◌,
  ◌++◌, arith, Bool-cases, Option-cases, inl, inr,
}
use plonk.Wires.{WireData, left, right, output, fourth}
use plonk.Permutation.{Permutation}
use plonk.Permutation.Sigma.{Sigmas, compute_sigma_permutations}
use plonk.Permutation.Sigma.Reads.{
  image, gate_index, same_wire, follower, after, next_wire, or_else, GatesBelow, EntriesBelow,
  compute_sigma_permutations_lem,
}

abbrev pub elem : WireData → List WireData → Bool
elem u [] = false
elem u (w ∷ ws) = if same_wire u w then true else elem u ws

abbrev pub Distinct : List WireData → Type 0
Distinct [] = Unit
Distinct (w ∷ ws) = (elem w ws ≡ false) × Distinct ws

-- All wires that the map mentions.
abbrev pub wires_of : List (ℕ × List WireData) → List WireData
wires_of [] = []
wires_of ((w, wires) ∷ entries) = wires ++ wires_of entries

module _ {A : Type 0} (value : WireData → A) where
  abbrev pub AllEqual : A → List WireData → Type 0
  AllEqual v [] = Unit
  AllEqual v (w ∷ ws) = (value w ≡ v) × AllEqual v ws

  abbrev pub Constant : List WireData → Type 0
  Constant [] = Unit
  Constant (w ∷ ws) = AllEqual (value w) ws

  -- The wires of each witness hold one value.
  abbrev pub Copied : List (ℕ × List WireData) → Type 0
  Copied [] = Unit
  Copied ((w, wires) ∷ entries) = Constant wires × Copied entries

same_wire-eq : (u w : WireData) → same_wire u w ≡ true → u ≡ w
unfolding same_wire
same_wire-eq (left i) w h = ground arith
same_wire-eq (right i) w h = ground arith
same_wire-eq (output i) w h = ground arith
same_wire-eq (fourth i) w h = ground arith

same_wire_self : (u : WireData) → same_wire u u ≡ true
unfolding same_wire
same_wire_self (left i) = ground arith
same_wire_self (right i) = ground arith
same_wire_self (output i) = ground arith
same_wire_self (fourth i) = ground arith

elem-append :
    (u : WireData) (ws vs : List WireData)
    → elem u (ws ++ vs) ≡ false
    → (elem u ws ≡ false) × (elem u vs ≡ false)
elem-append u [] vs h = (refl, h)
elem-append u (w ∷ ws) vs h = ground (arith, elem-append u ws vs)

elem-left : (u : WireData) (ws vs : List WireData) → elem u ws ≡ true → elem u (ws ++ vs) ≡ true
elem-left u [] vs h = cc
elem-left u (w ∷ ws) vs h = ground (arith, elem-left u ws vs)

elem-right : (u : WireData) (ws vs : List WireData) → elem u vs ≡ true → elem u (ws ++ vs) ≡ true
elem-right u [] vs h = h
elem-right u (w ∷ ws) vs h = ground (arith, elem-right u ws vs)

Distinct-append :
    (ws vs : List WireData)
    → Distinct (ws ++ vs)
    → Distinct ws × Distinct vs × ((u : WireData) → elem u ws ≡ true → elem u vs ≡ false)
Distinct-append [] vs d = (tt, d, λ u h. cc)
Distinct-append (w ∷ ws) vs d =
    let (dw, dv, apart) = Distinct-append ws vs d.1 in
    let (a, b) = elem-append w ws vs d.0 in
    (
      (a, dw),
      dv,
      λ u h. elim (Bool-cases (same_wire u w)) [
        | inl e ↦ rw (same_wire-eq u w e) b
        | inr e ↦ apart u (rw e at h)
      ],
    )

after-none :
    (first : WireData) (ws : List WireData) (u : WireData)
    → elem u ws ≡ false
    → after first ws u ≡ none
unfolding after
after-none first [] u h = refl
after-none first (w ∷ ws) u h = ground (arith, after-none first ws u)

after-head :
    (first w : WireData) (rest : List WireData)
    → elem w rest ≡ false
    → after first (w ∷ rest) w ≡ some (follower first rest)
unfolding after
after-head first w rest h = rw (after-none first rest w h, same_wire_self w)

after-tail :
    (first w : WireData) (rest : List WireData) (u v : WireData)
    → after first rest u ≡ some v
    → after first (w ∷ rest) u ≡ some v
unfolding after
after-tail first w rest u v h = rw h

next_wire-none :
    (entries : List (ℕ × List WireData)) (u : WireData)
    → elem u (wires_of entries) ≡ false
    → next_wire entries u ≡ none
unfolding next_wire
next_wire-none [] u h = refl
next_wire-none ((w, []) ∷ entries) u h = next_wire-none entries u h
next_wire-none ((w, first ∷ wires) ∷ entries) u h =
    let (a, b) = elem-append u (first ∷ wires) (wires_of entries) h in
    rw (next_wire-none entries u b) (after-none first (first ∷ wires) u a)

module _ {A : Type 0} (value : WireData → A) where
  AllEqual-trans :
      (v v' : A) (ws : List WireData) → v ≡ v' → AllEqual value v ws → AllEqual value v' ws
  AllEqual-trans v v' ws e h = rw e at h

  -- Equal values along the permutation are equal along the list.
  chain :
      (n : ℕ) (first w : WireData) (rest : List WireData)
      → GatesBelow n (w ∷ rest)
      → Distinct (w ∷ rest)
      → ((u v : WireData)
          → gate_index u < n
          → elem u (w ∷ rest) ≡ true
          → after first (w ∷ rest) u ≡ some v
          → value u ≡ value v)
      → AllEqual value (value w) rest
  chain n first w [] below d k = tt
  chain n first w (y ∷ rest) below d k =
      let e : value y ≡ value w =
        sym (k w y below.0 (rw (same_wire_self w)) (after-head first w (y ∷ rest) d.0)) in
      (
        e,
        AllEqual-trans (value y) (value w) rest e (
            chain n first y rest below.1 d.1
              (λ u v b m a. k u v b (ground arith) (after-tail first w (y ∷ rest) u v a))),
      )

  follower-equal :
      (c : A) (first : WireData) (ws : List WireData)
      → value first ≡ c
      → AllEqual value c ws
      → value (follower first ws) ≡ c
  follower-equal c first [] f h = f
  follower-equal c first (w ∷ ws) f h = h.0

  -- Conversely, along a list of equal values.
  after-equal :
      (c : A) (first : WireData) (ws : List WireData) (u v : WireData)
      → value first ≡ c
      → AllEqual value c ws
      → after first ws u ≡ some v
      → (value u ≡ c) × (value v ≡ c)
  unfolding after
  after-equal c first [] u v f h e = cc
  after-equal c first (w ∷ rest) u v f h e = elim (Option-cases (after first rest u)) [
    | inr (t, q) ↦ after-equal c first rest u v f h.1 (q ∙ (rw q at e))
    | inl q ↦ elim (Bool-cases (same_wire u w)) [
      | inl b ↦
          let g : some (follower first rest) ≡ some v = rw (q, b) at e in
          let g' : follower first rest ≡ v = cc in
          (rw (same_wire-eq u w b) h.0, rw (← g') (follower-equal c first rest f h.1))
      | inr b ↦ let g : none ≡ some v = rw (q, b) at e in cc
    ]
  ]

  Copied-of_image :
      (n : ℕ) (entries : List (ℕ × List WireData))
      → EntriesBelow n entries
      → Distinct (wires_of entries)
      → ((u v : WireData)
          → gate_index u < n
          → elem u (wires_of entries) ≡ true
          → next_wire entries u ≡ some v
          → value u ≡ value v)
      → Copied value entries
  unfolding next_wire
  Copied-of_image n [] below d k = tt
  Copied-of_image n ((w, []) ∷ entries) below d k = (tt, Copied-of_image n entries below.1 d k)
  Copied-of_image n ((w, first ∷ wires) ∷ entries) below d k =
      let (da, db, apart) = Distinct-append (first ∷ wires) (wires_of entries) d in
      (
        chain n first first wires below.0 da (λ u v b m a.
            k u v b (elem-left u (first ∷ wires) (wires_of entries) m)
              (rw (next_wire-none entries u (apart u m)) a)),
        Copied-of_image n entries below.1 db
            (λ u v b m a. k u v b (elem-right u (first ∷ wires) (wires_of entries) m) (rw a)),
      )

  next_wire-equal :
      (entries : List (ℕ × List WireData)) (u v : WireData)
      → Copied value entries
      → next_wire entries u ≡ some v
      → value u ≡ value v
  unfolding next_wire
  next_wire-equal [] u v h e = cc
  next_wire-equal ((w, []) ∷ entries) u v h e = next_wire-equal entries u v h.1 e
  next_wire-equal ((w, first ∷ wires) ∷ entries) u v h e =
      elim (Option-cases (next_wire entries u)) [
        | inl f ↦
            let (a, b) =
              after-equal (value first) first (first ∷ wires) u v refl (refl, h.0) (rw f at e) in
            a ∙ sym b
        | inr (t, f) ↦ next_wire-equal entries u v h.1 (f ∙ (rw f at e))
      ]

  -- For a map whose wires are distinct and belong to the n gates: values of the wires agree along
  -- the computed sigma permutations exactly when the wires of each witness hold one value, so the
  -- permutations enforce the copy constraints, all of them and no other.
  pub sigma-Copied :
      (n : ℕ) (p : Permutation) (s : Sigmas)
      → EntriesBelow n p.witness_map
      → Distinct (wires_of p.witness_map)
      → compute_sigma_permutations n p ≡ some s
      → ((u v : WireData) → gate_index u < n → image s u ≡ some v → value u ≡ value v)
        ↔ Copied value p.witness_map
  sigma-Copied n p s below d e =
      let (s', e', z, reads) = compute_sigma_permutations_lem n p below in
      let same : s' ≡ s = cc in
      (
        λ k.
            Copied-of_image n p.witness_map below d
              (λ u v b m a. k u v b (rw (← same) (reads u b ∙ ap (λ o. or_else o (some u)) a))),
        λ h u v b a. elim (Option-cases (next_wire p.witness_map u)) [
          | inl f ↦
              let g : some u ≡ some v =
                sym (reads u b ∙ ap (λ o. or_else o (some u)) f) ∙ (rw (← same) at a) in
              let g' : u ≡ v = cc in ap value g'
          | inr (t, f) ↦
              let g : some t ≡ some v =
                sym (reads u b ∙ ap (λ o. or_else o (some u)) f) ∙ (rw (← same) at a) in
              let g' : t ≡ v = cc in rw (← g') (next_wire-equal p.witness_map u t h f)
        ],
      )
