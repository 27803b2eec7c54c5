-- ===== src/Query/Stratify.antt =====
-- The stratification of a program (retia-core/src/query/stratify.rs).
mod Tests
pub mod Convert
pub mod Reduce
pub mod Place
pub mod Verified
pub mod Reduced
pub mod Components
pub mod Only
pub mod Ranks
pub mod Placed
pub mod Rules
pub mod Stratification
pub mod Sound
pub mod Uses
pub mod Edges
pub mod Pruned
pub mod Correct
pub mod Rows
pub mod Refused
pub mod Cycles
