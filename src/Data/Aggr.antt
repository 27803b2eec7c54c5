-- ===== src/Data/Aggr.antt =====
-- The aggregations of a query (retia-core/src/data/aggr.rs).
pub mod Base
pub mod Logic
pub mod Count
pub mod Sets
pub mod Float
pub mod Extreme
pub mod Cost
pub mod Bits
pub mod Parse
pub mod Run
pub mod Flags
pub mod Agree
pub mod Counting
pub mod Grouping
pub mod SetLaws
pub mod Init
pub mod Least
pub mod Best
mod FlagTests
mod Tests
