-- ===== src/Kzg.antt =====
-- The KZG10 polynomial commitment scheme: src/commitment_scheme/kzg10/.
pub mod Key
pub mod Check
pub mod Commit
pub mod Accept
pub mod Aggregate
pub mod Truncate
