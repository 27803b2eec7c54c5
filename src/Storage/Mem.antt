-- ===== src/Storage/Mem.antt =====
-- The in-memory storage (retia-core/src/storage/mem.rs): a transaction and its operations.
-- A writer holds the exclusive lock on the store, so the store stands inside the transaction, and
-- what the next transaction sees is the store that this one leaves, `store_of`.
pub mod Scan
pub mod Merge
pub mod Reads
pub mod Ops
pub mod Refine
pub mod Client
mod Tests
