-- ===== src/Composer/Returns.antt =====
-- A method that returns a value, neither failing nor panicking, and what then holds.
use plonk.Error.{Outcome, ok, err, panic}
use plonk.Composer.State.{Composer, M, ◌>>=◌}

pub data Returns {F A : Type 0} (Q : A → Composer F → Type 0)
    : Outcome (A × Composer F) → Type 0 where
  returns : (a : A) (c : Composer F) → Q a c → Returns Q (ok (a, c))

pub Returns-bind :
    {F A B : Type 0} {Q : A → Composer F → Type 0} {R : B → Composer F → Type 0} (m : M F A)
    (f : A → M F B) (c : Composer F)
    → Returns Q (m c)
    → ((a : A) (c' : Composer F) → Q a c' → Returns R (f a c'))
    → Returns R ((m >>= f) c)
unfolding ◌>>=◌
Returns-bind {F} {A} {B} {Q} {R} m f c r k = go (m c) r
  where
    go :
        (o : Outcome (A × Composer F))
        → Returns Q o
        → Returns R (elim o [ ok (a, c') ↦ f a c' | err e ↦ err e | panic ↦ panic ])
    go o (returns a c' q) = k a c' q

pub Returns-map :
    {F A : Type 0} {Q R : A → Composer F → Type 0} {o : Outcome (A × Composer F)}
    → Returns Q o
    → ((a : A) (c : Composer F) → Q a c → R a c)
    → Returns R o
Returns-map (returns a c q) k = returns a c (k a c q)
