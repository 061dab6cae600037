-- ===== src/Lib.antt =====
-- A model of rehearsal-db, which rehearses database migrations against local copies.
--
-- The parts of the model and how they interact. A guarded runtime phase passes the workload
-- admission (Workloads): the capacity test refuses what the measured memory does not leave room
-- for, the queue lets one process at a time through, and the phase runs between acquisition and
-- release. Before migrations are rehearsed their histories are compared (Migrations/History), and
-- the scan of a migration reads it by a bounded lexer (Migrations/Lexer). A privacy policy, by
-- which baselines are sanitized, is accepted when its dependency graph is valid (Privacy).
--
-- The command line (Cli) says which command runs and what the user consents to. A baseline is
-- sampled from a source within budgets (Shaping): an accepted policy declares tables, relationships
-- and distributions; the rows are indexed and profiled, each table gets its roots, and a queue
-- follows the relationships from them.
--
-- Local environments (Environments) are the targets of a checked topology; they start under a byte
-- quota, run the actions of a lifecycle, are rolled back when an operation fails, are reviewed by
-- what can be observed of their containers, and are stopped by a plan that was confirmed.
--
-- Files and code:
--   Workloads/Queue: src/runtime/resources/workload_queue.mts and workload_queue_store.mts.
--     acquireWorkload, release and recoverWorkloads are cut into their atomic file operations, the
--     constructors of Change; a Step performs one of them, and Reach is their interleavings with
--     crashes. A listing (WorkloadQueueStore.list) reads one file per step.
--   Workloads/Admission: withWorkloadAdmission and withWorkloadDiagnostics of workload_queue.mts.
--   Workloads/Capacity: evaluateWorkloadCapacity of src/runtime/resources/workload_capacity.mts.
--   Migrations/History: src/runtime/migrations/migration_history.mts, one function per function.
--   Migrations/Lexer: src/runtime/migrations/inspection/migration_sql_lexer.mts. Scanners holds the
--     scanning loops, Machine the branches of the main loop and the loop itself.
--   Privacy/Recipes: the recipes of src/baseline/privacy/privacy_contract.mts and the walks over them.
--   Privacy/Dependencies: src/baseline/privacy/privacy_dependency_graph.mts.
--   Environments/Lifecycle and Markers: src/runtime/lifecycle/lifecycle_engine.mts, runRuntimeLifecycle
--     with its operations, withOwnedRuntimeRollback, assertCandidateConfirmation and the receipts.
--   Environments/Topology: loadRuntimeTopology and selectRuntimeTargets of
--     src/runtime/lifecycle/topology.mts, and src/runtime/lifecycle/topology_application_ports.mts.
--   Environments/ResourcePolicy: evaluateResourcePolicy and assertResourcePolicyAllowsStartup of
--     src/runtime/resources/resource_policy.mts.
--   Environments/Review: src/runtime/resources/environment_classification.mts.
--   Environments/StalePlan: createStopStalePlan and applyStopStalePlan (StalePlan/Apply) of
--     src/runtime/recovery/stale_environment_plan.mts.
--   Shaping: src/source/shaping. Keys and Contexts are shape_keys.mts, Policy the declarations of
--     shape_contract.mts; Declarations and Validation are shape_policy.mts; Buckets, Classify,
--     Measuring and Profiling are shape_profiles.mts; Index, Selection, Roots and Closure are the
--     stages of sampleShapeGraph of shape_sampler.mts. The proofs stand in Accepted, Classes, Joints
--     and, for the sampler, Steps, Rooting, Budgets, Walks, Growth, Rounds, Reach, Sample, Origins,
--     Drawn, Members, Promise and Required.
--   Cli: src/cli/arguments.mts. The branches of its loop are the list of options, in their order; Consent
--     has the commands that wait for a consent.
--   Common: results, lists, texts and the tests on numbers; Tests: runs and concrete inputs.
--
-- Conventions. A text is the list of its UTF-16 units. An error is a value of a type of the
-- component, in place of the message that the code throws. Hash functions, toUpperCase, Date.parse,
-- localeCompare, URLs and relative paths are parameters. Sizes that the code has tested as safe
-- integers are natural numbers, and a comparison that subtracts is written without the subtraction.
--
-- Fuel. The loop of the lexer takes a unit each round, so the length of the text and one round more
-- are enough; the visit of digest dependencies nests at most as deep as there are columns, so
-- one more than their number is enough. Each round of the sampler takes one row from the queue, which
-- holds each selected row once, so the row budget and one round more are enough.
--
-- Not modelled: the validation of the distributions of a shape policy and the evidence of a sample,
-- the permission and identity tests of the queue's
-- files, the clock of its wait, the measurement of capacity, processes, engines, targets, database connections and the terminal.
pub mod Common
pub mod Environments
pub mod Migrations
pub mod Workloads
pub mod Privacy
pub mod Shaping
pub mod Cli
pub mod Tests
