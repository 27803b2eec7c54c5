-- ===== src/Runtime/TempStore.antt =====
-- The temporary stores of a query under evaluation (retia-core/src/runtime/temp_store.rs).
pub mod Regular
pub mod Meet
pub mod Epoch
pub mod Iter
pub mod Merge
pub mod Advance
pub mod MeetRound
pub mod MeetMerge
pub mod Flags
pub mod Prefix
pub mod Rounds
mod Tests
