-- ===== src/JubJub.antt =====
-- The embedded curve of the crate dusk-jubjub, which the repository calls and does not contain.

pub record JubJub (F P : Type 0) : Type 0 where
  pub get_u : P → F
  pub get_v : P → F
  pub from_raw_unchecked : F → F → P
  -- `(JubJubExtended::from(p) + q).into()`
  pub add : P → P → P
