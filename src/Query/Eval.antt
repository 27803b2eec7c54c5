-- ===== src/Query/Eval.antt =====
-- The evaluation of compiled programs (retia-core/src/query/eval.rs).
pub mod Rules
pub mod Limiter
pub mod Plain
pub mod Aggregate
pub mod Meets
pub mod Epochs
pub mod Strata
pub mod View
pub mod Items
pub mod Deltas
pub mod ByDeltas
pub mod Derives
pub mod Takes
pub mod Merges
pub mod Outs
pub mod Executions
pub mod Round
pub mod Rounds
pub mod Missing
pub mod Steps
pub mod Fixpoint
pub mod Layers
pub mod Inserts
pub mod Between
pub mod Stratified
pub mod Distinct
pub mod Limits
pub mod Later
pub mod Recounts
mod Sample
mod SampleStrata
mod Tests
