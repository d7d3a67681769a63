-- ===== src/Lib.antt =====
-- dal-service: a replicated key-value store. A meta group and P data groups are Raft groups; each
-- applies committed entries to a deterministic state machine over its own column family. This
-- library models those state machines and what stands directly around them.
--
-- Parts and files (paths from the repository's root):
-- - Codec: src/error.rs and src/codec.rs. bincode is a parameter `Codec` (encoder, decoder, and that
--   the decoder inverts the encoder); errors are the constructors of `Error`, results are `Result`.
-- - Types, Types/Meta: src/types.rs. Integers are natural numbers; where the source checks an
--   overflow (`checked_add`, `checked_mul`) the model tests the bound of the type. Byte strings are
--   lists of numbers.
-- - Config: `validate_routing_shape` of src/config.rs. Config/Init is the input of a cluster's
--   creation with its validation, and Config/Init/Accepted relates it to the first command.
-- - Keyspace, Keyspace/BigEndian: the data group's keys of src/keyspace.rs.
-- - Storage: `Storage::apply_state` of src/storage/batch.rs. A column family is a function from keys to
--   stored bytes; a batch is written in order and as a whole. RocksDB and its faults are not
--   modelled.
-- - Partition/StateMachine: `DataStateMachine` of src/partition/state_machine.rs, with `evaluate`,
--   `decide` and `apply` under their own names; the stages of `evaluate` are `gate`, `replay` and
--   `decide_next`. Partition/Register is what a key promises to its clients.
-- - Partition/Overlay: `StateOverlay` of the same file. The hash map is an association list without
--   double keys.
-- - Partition/Coalesce: `apply_coalesced_chunk` and `apply_per_entry` of src/partition/sm.rs, over
--   `Storage::apply_raft`; Partition/Coalesce/Chunks is `apply_coalesced`, with the encoded length
--   of an entry as a parameter. Observers, the log column family, the search outbox and the admission
--   of a batch by its size, with its errors, are left out.
-- - Search/Definition: index definitions and catalog records of src/search/definition.rs. The
--   encoded sizes and SHA-256 are parameters (`Hashing`).
-- - Search/Outbox: the keys of src/search/outbox.rs and `prune_search_outbox` of src/storage/rocks.rs,
--   over the rows under the group's prefix in the order of their bytes; a prefix is any bytes.
-- - Meta/Store: the meta group's records, one field for each kind of key, and its writes.
--   Meta/Cluster, Meta/Nodes, Meta/Placements, Meta/Maintenance and Meta/Catalog are the command
--   handlers of src/meta/state_machine.rs under their own names; a stage of a long handler is a
--   function of its own (`register_in`, `plan_for`, `begin_after`). Meta/Evaluate is `evaluate` and
--   `apply`.
-- - Meta/Failure: the failure detector of src/meta/failure.rs. Meta/Failure/Tracker is its heartbeat
--   tracker, four tables by node that a call returns anew; Stamps and Verdict are about it.
-- - Balancer: `propose` of src/placement.rs with its two passes. Balancer/Accepted relates it to the
--   command that a proposal becomes, Balancer/Rounds and Balancer/Quiet are about its repetition
--   and its end.
-- - Meta/Reconcile: the gate on plans and the startup decision of src/meta/reconcile.rs.
-- - Partition/Membership: the membership calls of src/partition/node.rs, with openraft as a parameter.
-- - Rebalancer: the drivers of src/meta/rebalancer.rs over the state of the meta group and a data
--   leader. What an attempt to reach the meta leader finds, what other clients commit before it and
--   the log id that an entry gets are parameters; Rebalancer/Healthy says what a healthy cluster is.
--   A loop of 200 attempts and the polls for a learner are recursion on their number.
-- - Meta/Step: the transitions of the meta group as a relation on its records, written without the
--   handlers and their tests, with the parts of Meta/Operations for maintenance and Meta/Generations
--   for search indexes; Meta/Step/Evaluates relates them. Meta/Invariant draws the consequences.
-- - Runtime/Admission: the client gate of src/runtime/maintenance.rs. What a task does between two
--   awaits is a function or a step of Runtime/Admission/Steps, where a lock is a count of permits;
--   the steps of all tasks interleave in any order. Runtime/Readiness is the life cycle of
--   src/runtime/readiness.rs, where a load, a store and a compare-and-exchange are one step each.
-- - Durability: src/storage/apply_durability.rs. Durability/Tracker is the tracker of one group, whose
--   calls each hold its lock, and Durability/Steps their histories; Durability/Registry has the
--   trackers of a database, and a step of Durability/Registry/Poisoned is what happens under one
--   lock, where a lookup may have read the registry's failure at any earlier time. A wait is the test
--   that it repeats, and so are the rounds of `begin` on the tracker that it holds.
-- - Transport: the frames of src/transport/codec.rs. Transport/MsgType has the kinds of messages with
--   their limits and lanes, Transport/Frame the encoder and the decoder; a list of bytes is a list of
--   numbers, and a slice is read after the test of the length that keeps it in range.
-- - Verify/Linearizability: the checker of src/verify/linearizability.rs, with its loop as
--   `first_some`; its recursion is on the number of operations that remain. Verify/Oracles: the
--   oracles of src/verify/oracles.rs.
-- - Tests: concrete codecs, a data group and a cluster, at which the theorems are applied.
--
-- How the parts interact: the Raft applier calls `evaluate` of the data state machine with a reader,
-- which is the column family or an overlay over it, and writes the mutations that it returns. The
-- meta state machine reads typed records and returns mutations; both record the log id they applied
-- in the same batch. An error of a read leaves the state as it is.
--
-- Loops are structural recursion on lists, or on the number of attempts that the source makes, so
-- there is no other fuel; the loop `0..P` is `range_from`. A loop that retries a compare-and-exchange
-- is a task that goes back to its load.
--
-- Not modelled: openraft, RocksDB, ZeroMQ and Tantivy, and the code that wires them up, since that is
-- asynchronous glue over libraries: src/api, src/backup, the other files of src/runtime and of
-- src/transport, the log stores and networks of src/partition and src/meta with the reads and writes
-- of src/partition/node.rs, the engine files of src/search, src/storage/durability.rs, and the rest of
-- src/storage/rocks.rs. Left out as well: the registration and release of search consumers,
-- src/verify/rng.rs, the frozen serde twins of src/types.rs, and the messages of errors, which stand
-- as short strings.
pub mod Prelude
pub mod Balancer
pub mod Rebalancer
pub mod Codec
pub mod Types
pub mod Config
pub mod Keyspace
pub mod Storage
pub mod Durability
pub mod Partition
pub mod Search
pub mod Meta
pub mod Runtime
pub mod Transport
pub mod Verify
pub mod Tests
