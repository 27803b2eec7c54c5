-- ===== src/Lib.antt =====
-- Retia: a database with a Datalog query language. This library models parts of the crate
-- retia-core and proves what makes them correct.
--
-- The parts and how they interact. A query is evaluated in rounds. A rule keeps its tuples in an
-- `EpochStore`, and each round merges what the rule has derived into it and asks what was new. A rule
-- that aggregates keeps one entry for each group, which meet aggregations update in place. Values and
-- tuples are in the order that the maps of the stores need. Stored relations are in a storage engine as
-- byte strings, whose order is the one of the keys that they encode; the engine in memory gives
-- transactions, whose scans see their own changes. Before a query is evaluated the bodies of its rules
-- are brought into normal forms, rules that its entry does not reach are dropped, and the others are put
-- into strata, so that a rule is evaluated after those that it negates or aggregates.
--
-- The files and the code that they model:
--   Storage/Mem/Scan       retia-core/src/storage/mem.rs: `CacheIterRaw`, with `fill_cache` and
--                          `next_inner`; a round of its loop is `turn`, the `match` is `match_caches`.
--   Storage/Mem/Ops        the same file: `MemStorage::transact`, `batch_put`, and the operations of
--                          `MemTx`. A writer holds the lock on the store, so the store is in its state.
--   Storage/Mem/{Merge,Reads,Refine,Client}  proofs about them.
--   Data/Memcmp/Bytes      retia-core/src/data/memcmp.rs: `encode_bytes` and `decode_bytes`.
--   Data/Memcmp/Words      the same file: `order_encode_i64`, `order_encode_f64` and their inverses.
--   Data/Memcmp/Numbers    the same file: `encode_num` and `Num::decode_from_key`.
--   Data/Memcmp/{Reference,Roundtrip,Order,NumberKeys}  proofs about byte strings and numbers.
--   Data/Value             retia-core/src/data/value.rs: `DataValue`, `Num`, `Validity`; NumOrder has
--                          `Num::cmp`, Order `Vector::cmp`, `JsonData::cmp` and the derived order of
--                          `DataValue`, Order/Canonical what it has as equal, Order/Lawful its laws.
--   Data/Aggr              retia-core/src/data/aggr.rs: Logic, Count, Sets, Float, Extreme, Cost and Bits
--                          have the aggregations, a function `x_set` for `AggrX::set`, `meet_x_update`
--                          for `MeetAggrX::update`; Parse has `parse_aggr`, `meet_init`, `normal_init`.
--   Data/Aggr/Run          an aggregation over the values of a group, as retia-core/src/query/eval.rs and
--                          the stores run it; Flags, Agree, Least, Best, Counting, Grouping, SetLaws, Init have
--                          proofs.
--   Runtime/TempStore      retia-core/src/runtime/temp_store.rs: Regular, Meet, Iter and Epoch have the
--                          stores with their merges and ranges; the other files have proofs.
--   Query/Graph            retia-core/src/query/graph.rs: `reachable_components`; Graph/Walk has the proof.
--   Query/Kahn             the same file: `generalized_kahn`, a turn of its loop is `turn`, and `kahn_loop` is
--                          all but its debug assertion; Edges to Correct have the proof.
--   Query/Scc              the same file: `TarjanScc` and `strongly_connected_components`. State has
--                          what holds while `dfs` runs, Enter, Lower, Pop, Component, Settled, Visits and
--                          Leave its steps, Dfs the calls, Groups to Correct the result.
--   Query/Program          retia-core/src/data/program.rs: programs in normal form.
--   Query/Stratify         retia-core/src/query/stratify.rs: Convert has the graph of a program, Reduce
--                          `verify_no_cycle` and the graph of components, Place `into_stratified_program`;
--                          Correct says what the strata promise, Cycles when there are none, and
--                          the other files have proofs.
--   Query/Eval             retia-core/src/query/eval.rs: Rules has the compiled rules, of
--                          retia-core/src/query/compile.rs, and the interface `Engine` to relational
--                          operators, fixed rules and `Poison`; Limiter has `QueryLimiter`, Plain,
--                          Aggregate and Meets the evaluation of rules by their kind of aggregation,
--                          Epochs `semi_naive_magic_evaluate`, Strata `stratified_magic_evaluate`;
--                          View has what a program of plain rules promises; Items, Deltas, ByDeltas and
--                          Derives follow its rules through an epoch, Executions to Rounds an epoch,
--                          Missing, Steps and Fixpoint all epochs; Layers, Inserts, Between and Stratified
--                          the strata; Distinct, Limits, Later and Recounts are about limits.
--   Query/Logical          retia-core/src/query/logical.rs: `negation_normal_form`, `negate_nnf` its case of
--                          a negation, and `conjunctive_to_disjunctive_de_morgen`; Logical/Meaning has
--                          what a body says, Logical/Negation and Logical/Conjuncts the proofs.
--   BTreeMap, BTreeSet     the standard library's maps and sets as lists in order, with their laws.
--   Prelude                shared names, lists, vectors, `Ord` as an interface, results with errors and panics.
--
-- Choices. Numbers are native; an i64 is a sign and a number, and only its increment wraps, at 2 ^ 63.
-- Floats and JSON are types of the environment (`Externals`, `FloatOps`), with `total_cmp` as a total
-- order of floats, and with what the orders of vectors and JSON use in `OrderOps`: `OrderedFloat::cmp`, in
-- which several floats can be equal (both zeros are), and `to_string`. What the order of values has as
-- equal is said by `canonical`. The maps of the stores take an order in which only a value itself is
-- equal to it, so that their values stand for those that are equal to them; `value_ord` is one, where
-- `canonical` tells all values apart. A random draw is an argument. Errors are kinds, without their
-- messages, and a panic is a result of its own; a range that starts after its end panics, as the
-- standard library documents. A merge that fails leaves no store: the query ends. Rules of an epoch that
-- run in parallel do not see each other, so the model runs them in order; where one of them fails and a
-- later one panics, it has the error.
--
-- Fuel. `next_inner` and `collect` have as much fuel as there are entries in both maps, and one more;
-- each round takes an entry away. `encode_bytes` has a round for each byte and one more, and
-- `decode_bytes` likewise, where a round takes eight or nine bytes. The results below have no
-- condition on fuel. `walk` goes as deep as there are edges, and one more: each call of it is on a node
-- that was new. `generalized_kahn` has a turn for each node and one more, since each turn but the last
-- emits a node; `dfs` goes as deep as there are nodes without an id. `run_epochs` has fuel for each epoch,
-- since the code bounds none; for rules that find finitely many tuples a result below has a bound.
--
-- Not modelled: the scans of the engine that decode tuples or skip by validity, the keys of
-- tagged values, the fresh variables of disjunctive normal forms, hashing,
-- serialization and display of values, the relational operators, the parser and compiler,
-- catalogue and indices, the engines on disk (calls of RocksDB and SQLite), full-text search
-- and graph algorithms.
mod Prelude
pub mod BTreeMap
pub mod BTreeSet
pub mod Storage
pub mod Data
pub mod Runtime
pub mod Query
