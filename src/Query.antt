-- ===== src/Query.antt =====
-- retia-core/src/query: what comes before the evaluation of a query.
pub mod Graph
pub mod Kahn
pub mod Scc
pub mod Eval
pub mod Logical
pub mod Program
pub mod Stratify
