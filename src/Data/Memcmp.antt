-- ===== src/Data/Memcmp.antt =====
-- The order-preserving key encoding (retia-core/src/data/memcmp.rs).
pub mod Bytes
pub mod Words
pub mod Numbers
pub mod NumberKeys
pub mod Reference
pub mod Roundtrip
pub mod Order
mod Tests
