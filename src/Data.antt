-- ===== src/Data.antt =====
-- The data model (retia-core/src/data).
pub mod Value
pub mod Memcmp
pub mod Aggr
