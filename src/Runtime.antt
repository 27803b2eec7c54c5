-- ===== src/Runtime.antt =====
-- retia-core/src/runtime: the stores of a query under evaluation.
pub mod TempStore
