-- ===== src/Composer/RangeLoop.antt =====
-- The rounds of the range check: the gates that they fill and the accumulators that they append.
use plonk.Prelude.{
  ℕ, zero, suc, ◌+◌, ◌-◌, ◌*◌, ◌/◌, ◌%◌, ◌<◌, ◌≤◌, ◌≡◌, ◌⊎◌, inl, inr, refl, ◌∙◌, subst,
  if◌then◌else◌, Bool, ◌==◌, Option, some, List, [], ◌∷◌, ◌++◌, length, get_elem?, arith,
}
use plonk.Scalar.{Scalar}
use plonk.Wires.{Witness, WiredWitness}
use plonk.Constraint.{Constraint, new, set_witness}
use plonk.Constraint
use plonk.Composer.State.{Composer, M, ◌>>=◌}
use plonk.Composer.Base.{expect}
use plonk.Composer.Quads.{
  replicate, modify_at, modify_last, last, accumulator_wire, append_all, range_loop, close_range,
}
use plonk.Prelude.{as_u64, sym, ap, append-nil, append_assoc, zero, suc, ◌++◌, [], ◌∷◌}
use plonk.Scalar.{◌⊕◌, ◌⊗◌}
use plonk.Scalar.Numerals.{from-add, from-mul}
use plonk.Composer.State.{Gate}
use plonk.Constraint.{witness, coeff}
use plonk.Wires.{Selector}
use plonk.Scalar.Laws.{from-one}
use plonk.Composer.Append.{AppendsGate, IsGateOf}
use plonk.Composer.Transition.{transition-AppendsGate, Returns-get}
use plonk.Composer.RangeWires.{Placed, Placed-step}
use plonk.Composer.Returns.{Returns, returns, Returns-bind, Returns-map}
use plonk.Composer.Gadget.{IsValid, Forces-refl}
use plonk.Composer.Append.{append_witness_lem}
use plonk.Composer.Transition.{
  Frame, Frame-trans, IsTransition, WiresBelow, WiresBelow-mono, set_witness-IsTransition,
  set_witness-WiresBelow,
}

pub gates_lem :
    (num_bits : ℕ)
    → 2 ≤ num_bits
    → (if num_bits % 8 == 0 then num_bits / 8 else num_bits / 8 + 1) ≡ (num_bits - 1) / 8 + 1
gates_lem num_bits h = ground arith

pub record LastKnown (ws : List Witness) (n : ℕ) : Type 0 where
  pub accumulator : Witness
  pub is_last : last ws ≡ some accumulator
  pub below : accumulator.index < n

last-append : (ws : List Witness) (w : Witness) → last (ws ++ w ∷ []) ≡ some w
last-append [] w = refl
last-append (v ∷ []) w = refl
last-append (v ∷ u ∷ ws) w = last-append (u ∷ ws) w

-- From the round `lo` on, the bits give the values.
abbrev pub Reads : (ℕ → ℕ) → (lo num_quads : ℕ) → List Bool → Type 0
Reads V lo num_quads bits =
    (p : ℕ) (q_0 q_1 : Bool)
    → lo ≤ suc p
    → suc p ≤ num_quads
    → get_elem? bits ((num_quads - suc p) * 2) ≡ some q_0
    → get_elem? bits ((num_quads - suc p) * 2 + 1) ≡ some q_1
    → V (suc p) ≡ as_u64 q_0 + 2 * as_u64 q_1 + V p * 4

some_injective : {A : Type 0} (a b : A) → some a ≡ some b → a ≡ b
some_injective a b e = cc

module _ {F : Type 0} ⦃s : Scalar F⦄ where
  pub record IsGood (k : Constraint F) (n : ℕ) : Type 0 where
    pub transition : IsTransition k
    pub wires : WiresBelow k n

  abbrev pub AllGood : List (Constraint F) → ℕ → Type 0
  AllGood [] n = Unit
  AllGood (k ∷ ks) n = IsGood k n × AllGood ks n

  IsGood-mono : {k : Constraint F} {m n : ℕ} → m ≤ n → IsGood k m → IsGood k n
  IsGood-mono {k} {m} {n} e h = record {
    transition = h.transition;
    wires = WiresBelow-mono k m n e h.wires;
  }

  AllGood-mono : (ks : List (Constraint F)) (m n : ℕ) → m ≤ n → AllGood ks m → AllGood ks n
  AllGood-mono [] m n e h = tt
  AllGood-mono (k ∷ ks) m n e h = (IsGood-mono e h.0, AllGood-mono ks m n e h.1)

  set_witness-IsGood :
      (r : WiredWitness) (w : Witness) (k : Constraint F) (n : ℕ)
      → w.index < n
      → IsGood k n
      → IsGood (set_witness r w k) n
  set_witness-IsGood r w k n h g = record {
    transition = set_witness-IsTransition r w k g.transition;
    wires = set_witness-WiresBelow r w k n h g.wires;
  }

  modify_at_lem :
      (i : ℕ) (f : Constraint F → Constraint F) (ks : List (Constraint F)) (n : ℕ)
      → ((k : Constraint F) → IsGood k n → IsGood (f k) n)
      → i < length ks
      → AllGood ks n
      → (ks' : List (Constraint F)) × (modify_at i f ks ≡ some ks')
        × (length ks' ≡ length ks)
        × AllGood ks' n
  modify_at_lem i f [] n hf h g = absurd (omega arith)
  modify_at_lem zero f (k ∷ ks) n hf h g = (f k ∷ ks, refl, refl, (hf k g.0, g.1))
  modify_at_lem (suc i) f (k ∷ ks) n hf h g =
      let (ks', e, len, g') = modify_at_lem i f ks n hf (omega arith) g.1 in
      (k ∷ ks', rw e refl, omega (arith, len), (g.0, g'))

  modify_last_lem :
      (f : Constraint F → Constraint F) (ks : List (Constraint F)) (n : ℕ)
      → ((k : Constraint F) → IsGood k n → IsGood (f k) n)
      → AllGood ks n
      → (length (modify_last f ks) ≡ length ks) × AllGood (modify_last f ks) n
  modify_last_lem f [] n hf g = (refl, tt)
  modify_last_lem f (k ∷ []) n hf g = (refl, (hf k g.0, tt))
  modify_last_lem f (k ∷ l ∷ ks) n hf g =
      let (len, g') = modify_last_lem f (l ∷ ks) n hf g.1 in (omega (arith, len), (g.0, g'))

  -- The gates of the constraints were appended, in order.
  pub record AllAppended (ks : List (Constraint F)) (c c' : Composer F) : Type 0 where
    pub gates : List (Gate F)
    pub added : c'.constraints ≡ c.constraints ++ gates
    pub size : length gates ≡ length ks
    pub each :
        (j : ℕ) (g : Gate F)
        → get_elem? gates j ≡ some g
        → (k : Constraint F) × (get_elem? ks j ≡ some k) × IsGateOf k g

  AllAppended-cons :
      (k : Constraint F) (ks : List (Constraint F)) (c c1 c' : Composer F)
      → AppendsGate k c c1
      → AllAppended ks c1 c'
      → AllAppended (k ∷ ks) c c'
  AllAppended-cons k ks c c1 c' G A = record {
    gates = G.gate ∷ A.gates;
    added =
        A.added
        ∙ ap (λ gs. gs ++ A.gates) G.appended
        ∙ append_assoc c.constraints (G.gate ∷ []) A.gates;
    size = omega (arith, A.size);
    each = first G.gate A.gates G.translates A.each;
  }
    where
      first :
          (g : Gate F) (gs : List (Gate F))
          → IsGateOf k g
          → ((j : ℕ) (g' : Gate F)
              → get_elem? gs j ≡ some g'
              → (l : Constraint F) × (get_elem? ks j ≡ some l) × IsGateOf l g')
          → (j : ℕ) (g' : Gate F) → get_elem? (g ∷ gs) j ≡ some g'
          → (l : Constraint F) × (get_elem? (k ∷ ks) j ≡ some l) × IsGateOf l g'
      first g gs h rest zero g' e = let e' : g ≡ g' = cc in (k, refl, subst (IsGateOf k) e' h)
      first g gs h rest (suc j) g' e = rest j g' e

  pub append_all_lem :
      (ks : List (Constraint F)) (c : Composer F)
      → IsValid c
      → AllGood ks (length c.witnesses)
      → Returns (λ _ c'. Frame (length ks) c c' × AllAppended ks c c') (append_all ks c)
  unfolding append_all
  append_all_lem [] c h g = returns tt c (
    (Forces-refl h).gadget,
    record { gates = []; added = sym (append-nil c.constraints); size = refl; each = λ j g e. cc },
  )
  append_all_lem (k ∷ ks) c h g =
      Returns-bind _ _ c (transition-AppendsGate k c h g.0.transition g.0.wires) λ _ c1 G.
        Returns-map
          (append_all_lem ks c1 G.0.valid
            (AllGood-mono ks (length c.witnesses) (length c1.witnesses) G.0.grows g.1))
          λ _ c2 H. (Frame-trans (omega arith) G.0 H.0, AllAppended-cons k ks c c1 c2 G.1 H.1)

  Returns-some :
      {A B : Type 0} {R : B → Composer F → Type 0} (o : Option A) (x : A) (f : A → M F B)
      (c : Composer F)
      → o ≡ some x
      → Returns R (f x c)
      → Returns R ((expect o >>= f) c)
  unfolding ◌>>=◌
  Returns-some o x f c e k = rw e k

  -- The last accumulator holds the value `i`.
  abbrev pub LastValue : (ℕ → ℕ) → ℕ → List Witness → Composer F → Type 0
  LastValue V i ws c =
      (w : Witness) → last ws ≡ some w → get_elem? c.witnesses w.index ≡ some (s.from (V i))

  next_accumulator :
      (a : F) (u v q : ℕ) → a ≡ s.from u → v ≡ q + u * 4 → s.from 4 ⊗ a ⊕ s.from q ≡ s.from v
  next_accumulator a u v q ea ev =
      ap (λ t. s.from 4 ⊗ t ⊕ s.from q) ea
      ∙ ap (λ t. t ⊕ s.from q) (s.mul_comm _ _ ∙ sym (from-mul u 4))
      ∙ s.add_comm _ _
      ∙ sym (from-add q (u * 4))
      ∙ ap (λ t. s.from t) (sym ev)

  range_loop_lem :
      (V : ℕ → ℕ) (count lo p num_quads : ℕ) (bits : List Bool) (a : F) (ws : List Witness)
      (ks : List (Constraint F)) (c : Composer F)
      → IsValid c
      → AllGood ks (length c.witnesses)
      → lo ≤ suc p
      → suc p + count ≤ num_quads + 1
      → num_quads * 2 ≤ length bits
      → num_quads / 4 < length ks
      → LastKnown ws (length c.witnesses) ⊎ (0 < count)
      → Reads V lo num_quads bits
      → a ≡ s.from (V p)
      → LastValue V p ws c
      → Placed V (suc p) ks c
      → Returns
          (λ r c'.
            Frame 0 c c'
            × LastKnown r.0 (length c'.witnesses)
            × (length r.1 ≡ length ks)
            × AllGood r.1 (length c'.witnesses)
            × (c'.constraints ≡ c.constraints)
            × LastValue V (p + count) r.0 c'
            × Placed V (suc p + count) r.1 c')
          (range_loop count (suc p) num_quads bits a ws ks c)
  unfolding range_loop
  range_loop_lem V zero lo p num_quads bits a ws ks c h g hi hc hb hk (inl l) reads ea lv pl =
      let e : suc p ≡ suc p + 0 = omega arith in
      returns _ c (
        (Forces-refl h).gadget,
        l,
        refl,
        g,
        refl,
        subst (λ i. LastValue V i ws c) {x = p} {y = p + 0} (omega arith) lv,
        subst (λ i. Placed V i ks c) e pl,
      )
  range_loop_lem V zero lo p num_quads bits a ws ks c h g hi hc hb hk (inr z) reads ea lv pl =
      absurd (omega arith)
  range_loop_lem V (suc count) lo p num_quads bits a ws ks c h g hi hc hb hk l reads ea lv pl =
      Returns-get bits ((num_quads - suc p) * 2) _ c (omega arith) λ q_0 e_0.
        Returns-get bits ((num_quads - suc p) * 2 + 1) _ c (omega arith) λ q_1 e_1.
          Returns-bind _ _ c (append_witness_lem _ c h) λ w c1 A.
            let n = length c1.witnesses in
            let ea' =
              next_accumulator a (V p) (V (suc p)) (as_u64 q_0 + 2 * as_u64 q_1) ea
                (reads p q_0 q_1 hi (omega arith) e_0 e_1) in
            let value : get_elem? c1.witnesses w.index ≡ some (s.from (V (suc p))) =
              A.value ∙ ap some ea' in
            let (ks', e, len, g') =
              modify_at_lem (suc p / 4) (set_witness (accumulator_wire (suc p % 4)) w) ks n
                (λ k. set_witness-IsGood (accumulator_wire (suc p % 4)) w k n A.known) (omega arith)
                (AllGood-mono ks (length c.witnesses) n A.gadget.grows g) in
            let step : suc (suc p) ≡ suc p + 1 = omega arith in
            let total : suc (suc p) + count ≡ suc p + suc count = omega arith in
            Returns-some _ ks' _ c1 e (
              subst
                (λ i.
                  Returns
                    (λ r c'.
                      Frame 0 c c'
                      × LastKnown r.0 (length c'.witnesses)
                      × (length r.1 ≡ length ks)
                      × AllGood r.1 (length c'.witnesses)
                      × (c'.constraints ≡ c.constraints)
                      × LastValue V (p + suc count) r.0 c'
                      × Placed V (suc p + suc count) r.1 c')
                    (range_loop count i num_quads bits
                      (s.from 4 ⊗ a ⊕ s.from (as_u64 q_0 + 2 * as_u64 q_1)) (ws ++ w ∷ []) ks' c1))
                step
                (Returns-map
                  (range_loop_lem V count lo (suc p) num_quads bits _ (ws ++ w ∷ []) ks' c1
                    A.gadget.valid g' (omega arith) (omega arith) hb (omega (arith, len))
                    (inl (record { accumulator = w; is_last = last-append ws w; below = A.known }))
                    reads ea'
                    (λ w' el.
                      let same : w ≡ w' = some_injective _ _ (sym (last-append ws w) ∙ el) in
                      subst (λ u. get_elem? c1.witnesses u.index ≡ some (s.from (V (suc p)))) same
                        value)
                    (subst (λ i. Placed V i ks' c1) (sym step)
                      (Placed-step V (suc p) w ks ks' c c1 A.gadget.keeps value e pl)))
                  λ r c' q. (
                    Frame-trans refl A.gadget q.0,
                    q.1,
                    q.2 ∙ len,
                    q.3,
                    q.4 ∙ A.same_constraints,
                    subst (λ i. LastValue V i r.0 c') {x = suc p + count} (omega arith) q.5,
                    subst (λ i. Placed V i r.1 c') total q.6,
                  )))

  pub replicate_lem :
      (m : ℕ) (k : Constraint F) (n : ℕ)
      → IsGood k n
      → (length (replicate m k) ≡ m) × AllGood (replicate m k) n
  replicate_lem zero k n g = (refl, tt)
  replicate_lem (suc m) k n g =
      let (len, g') = replicate_lem m k n g in (omega (arith, len), (g, g'))

  new-IsGood : (n : ℕ) → 0 < n → IsGood (new {F = F}) n
  new-IsGood n h = record {
    transition = record { no_arithmetic = refl; no_input = refl };
    wires = λ _. h;
  }

  pub range-IsGood : (n : ℕ) → 0 < n → IsGood (Constraint.range (new {F = F})) n
  range-IsGood n h = record {
    transition = record { no_arithmetic = refl; no_input = refl };
    wires = λ _. h;
  }

  pub close_range_lem :
      (ws : List Witness) (ks : List (Constraint F)) (n : ℕ)
      → LastKnown ws n
      → AllGood ks n
      → (length (close_range ws ks) ≡ length ks) × AllGood (close_range ws ks) n
  unfolding close_range
  close_range_lem ws ks n l g =
      let (len, g') =
        modify_last_lem (λ _. new) ks n (λ _ _. new-IsGood n (omega (arith, l.below))) g in
      let (len', g'') =
        modify_last_lem (set_witness WiredWitness.d l.accumulator) (modify_last (λ _. new) ks) n
          (λ k. set_witness-IsGood WiredWitness.d l.accumulator k n l.below) g' in
      rw (close_range, l.is_last) (len' ∙ len, g'')

  pub range_rounds_lem :
      (V : ℕ → ℕ) (z num_quads : ℕ) (bits : List Bool) (ks : List (Constraint F)) (c : Composer F)
      → IsValid c
      → AllGood ks (length c.witnesses)
      → z < num_quads
      → num_quads * 2 ≤ length bits
      → num_quads / 4 < length ks
      → Reads V (suc z) num_quads bits
      → V z ≡ 0
      → Placed V (suc z) ks c
      → Returns
          (λ r c'.
            Frame 0 c c'
            × LastKnown r.0 (length c'.witnesses)
            × (length r.1 ≡ length ks)
            × AllGood r.1 (length c'.witnesses)
            × (c'.constraints ≡ c.constraints)
            × LastValue V num_quads r.0 c'
            × Placed V (num_quads + 1) r.1 c')
          (range_loop (num_quads + 1 - (1 + z)) (1 + z) num_quads bits s.zero [] ks c)
  range_rounds_lem V z num_quads bits ks c h g hz hb hk reads ez pl =
      let total : suc z + (num_quads + 1 - suc z) ≡ num_quads + 1 = omega arith in
      subst
        (λ i.
          Returns
            (λ r c'.
              Frame 0 c c'
              × LastKnown r.0 (length c'.witnesses)
              × (length r.1 ≡ length ks)
              × AllGood r.1 (length c'.witnesses)
              × (c'.constraints ≡ c.constraints)
              × LastValue V num_quads r.0 c'
              × Placed V (num_quads + 1) r.1 c')
            (range_loop (num_quads + 1 - i) i num_quads bits s.zero [] ks c))
        {x = suc z} (omega arith)
        (Returns-map
          (range_loop_lem V (num_quads + 1 - suc z) (suc z) z num_quads bits s.zero [] ks c h g
            (omega arith) (omega arith) hb hk (inr (omega arith)) reads
            (sym s.from-zero ∙ ap (λ m. s.from m) (sym ez)) (λ w e. cc) pl)
          λ r c' q. (
            q.0,
            q.1,
            q.2,
            q.3,
            q.4,
            subst (λ i. LastValue V i r.0 c') {x = z + (num_quads + 1 - suc z)} (omega arith) q.5,
            subst (λ i. Placed V i r.1 c') total q.6,
          ))

  replicate_read :
      (m : ℕ) (k : Constraint F) (j : ℕ) (l : Constraint F)
      → get_elem? (replicate m k) j ≡ some l
      → l ≡ k
  replicate_read zero k j l e = cc
  replicate_read (suc m) k zero l e = cc
  replicate_read (suc m) k (suc j) l e = replicate_read m k j l e

  -- Before the first round witness 0 stands on every wire.
  pub start-Placed :
      (V : ℕ → ℕ) (z m : ℕ) (c : Composer F)
      → ((p : ℕ) → p ≤ z → V p ≡ 0)
      → get_elem? c.witnesses 0 ≡ some s.zero
      → Placed V (suc z) (replicate m (Constraint.range new)) c
  start-Placed V z m c early e0 = record {
    wire = λ j r k e hr h.
        ap (λ l. get_elem? c.witnesses (witness l (accumulator_wire r)).index)
          (replicate_read m (Constraint.range new) j k e)
        ∙ e0
        ∙ ap some (sym (ap (λ v. s.from v) (early (j * 4 + r) (omega arith)) ∙ s.from-zero));
    is_range = λ j k e.
        ap (λ l. coeff l Selector.range) (replicate_read m (Constraint.range new) j k e) ∙ from-one;
  }
