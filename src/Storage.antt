-- ===== src/Storage.antt =====
-- The storage engines (retia-core/src/storage).
pub mod Mem
