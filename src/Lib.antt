-- ===== src/Lib.antt =====
-- A model of the verdict pipeline: a Solana transaction is simulated on a fork of the chain,
-- checkers read the trace of the simulation, their findings are scored, and the verdict is signed
-- as an attestation.
--
-- The parts, the files that model them, and the code:
-- - Fork: the account cache (Fork/Cache, of crates/ciel-fork/src/cache.rs) and the tracker of stale
--   state (Fork/Staleness, of staleness.rs). A time is a count of nanoseconds that the caller
--   reads; the cache is an association list with one entry for a key, and `get` is a read and a
--   removal, two steps of the concurrent map. The executor (Fork/Executor, of executor.rs) makes a
--   trace from what LiteSVM reports: Changes has its deltas and account changes, Calls its call
--   graph and approvals, Oracles its oracle reads. The client of the RPC providers is a circuit
--   breaker (Fork/Breaker) and four calls with a failover (Fork/Rpc, both of rpc.rs); a request
--   carries what the providers answer and what other requests do to the breaker while it waits.
--   The subscriber of the stream of updates is Fork/Geyser (geyser.rs), and the fork that loads
--   accounts through the cache Fork/Simulator (simulator.rs).
-- - Checkers: what a checker reads and returns (Checkers/Types, Json, Registry and Results, of
--   crates/ciel-checkers/src/traits.rs, program_registry.rs, runner.rs and of
--   crates/ciel-fork/src/trace.rs), the hash of the outputs (Hash, of hash.rs), and the four
--   checkers Approval (approval_abuse.rs), Authority (authority_diff.rs), Intent (intent_diff.rs
--   and intent_rules.rs) and Oracle (oracle_sanity.rs, with the cache of prices, the parsers and
--   the map of feeds of oracle_cache.rs). A message is the list of its pieces, a public key a number.
-- - Signer: the attestations (Signer/Attestation and Wire, of crates/ciel-signer/src/attestation.rs)
--   as records and as sequences of Borsh fields, and the signing methods (Keys, of signer.rs).
--   Borsh is a record of codecs with its specification (Borsh); LittleEndian is such a library. The
--   JSON envelope around an attestation is Pea (pea.rs), over the JSON values of Json.
-- - Pipeline: binary64 arithmetic on multiples of 2^-57 with round to nearest even
--   (Pipeline/Float), the score and the verdict (Score, of crates/ciel-pipeline/src/scorer_stub.rs),
--   one call of `evaluate_raw_tx` (Verdict, of pipeline.rs), from staleness to the signed response,
--   the entry that it logs and the row that the store makes of it (Log, of pipeline.rs and
--   verdict_store.rs), and one cycle of the capture of outcomes (Capture, of outcome.rs) on the table
--   of verdicts.
-- - Server: what the process starts with (Server/Startup, of crates/ciel-server/src/main.rs), the
--   handlers of REST and gRPC (Rest and Grpc, of rest.rs and grpc.rs), the HTTP answers of the errors
--   (Error, of lib.rs) and the metrics as a list of events (Metrics, of metrics.rs).
-- - Fixtures: the synthetic fixture of the Drift exploit (Fixtures/Drift) and fixtures on disk
--   (Fixtures/Disk, both of crates/ciel-fixtures/src/drift.rs), with their types (of lib.rs).
-- - Base: numbers, integers, lists, Boolean tests; Examples: the theorems at concrete inputs.
--
-- The pipeline reads Staleness, runs the checkers on the trace of the executor with the registry,
-- scores the results, and signs with Keys; Pipeline/Verdict/Handoff puts the executor of Fork and
-- the authority checker into one call. Server/Startup builds the pipeline with the stubs of
-- Checkers/Stubs, and Rest and Grpc call it; the entry of Log is a row of the table of Capture.
-- The loops are structural recursion on a list; the batches of the gap fill run on fuel, the
-- length of the list, which is enough, and the rounding of Pipeline/Float on 967 doublings, which
-- reach each finite number. Words keep their wrap-around: i128 in Checkers/Intent/Word, the slot
-- of an attestation modulo 2^64.
--
-- Parameters: Borsh, Ed25519, SHA-256, bincode, Base64, hex, the order of strings, the class of
-- alphanumeric characters, floating-point parsing and Unicode text functions, LiteSVM, the Solana
-- SDK, serde, the file system, the arithmetic of f64 in the oracle checker, the answers of the
-- providers and of the database, and, in one run, the clock, the deadline and which checkers end
-- in time. A panic is not modelled.
--
-- Not modelled: the routers and listeners of the server, the decoding of request bodies by axum and
-- its own 4xx answers, the tracing, the tasks it spawns, the on-chain program (a stub), the readers
-- of environment variables, the demo, and the crates that hold placeholders.
pub mod Base
pub mod Fork
pub mod Checkers
pub mod Signer
pub mod Pipeline
pub mod Server
pub mod Fixtures
mod Examples
