-- ===== src/Lib.antt =====
-- Verification of the RAGPlan engine: a retrieval service that runs a vector and a graph branch under
-- a latency budget, and the pipeline that prepares and activates the corpus it serves. All paths are
-- from the root of the repository.
--
-- Parts of the program and the files that model them
--   Core/Errors     src/ragplan/core/errors.py: error codes, retryability, RAGPlanError; Result holds
--                   what a call returns or the exception it raises (messages of exceptions left out).
--   Core/Kinds      the enumerations of src/ragplan/core/models.py that scheduling uses.
--   Core/Deadline   src/ragplan/core/deadline.py: one absolute deadline for a request, its reserve and
--                   its snapshots; Bounds has the arithmetic.
--   Core/Ids        src/ragplan/core/ids.py: identifiers of documents and chunks; Entities has the
--                   names and UUIDs of entities, mentions and relations, Trimmed is about the names.
--   Scheduler/Machines    src/ragplan/scheduler/states.py: the state machines of requests and branches
--                   (Traces, Chronology) and the kill switches (Switches).
--   Scheduler/Circuit     CircuitBreaker of states.py; interleavings of the two branches and of other
--                   requests are lists of calls (Invariant, Window).
--   Scheduler/Admission   AdmissionController of src/ragplan/scheduler/executor.py; requests enter and
--                   leave in any order.
--   Scheduler/Branch      BranchResult of models.py with its validator; Run is
--                   SchedulerExecutor._run_branch with all its exception handlers, Shape and Blame are about its
--                   results and what it tells the circuit.
--   Scheduler/Tasks, Report, Execution    the tasks of the event loop and SchedulerExecutor.execute,
--                   with _expire_pending.
--   Planner/Plan    the plans of models.py and src/ragplan/planner/catalog.py (Catalog).
--   Planner/Rule    src/ragplan/planner/rule.py: its configuration and constructor; Select is
--                   RulePlanner.select, Choice, Fits, Total and Ready are about its decisions.
--   Planner/Optimizer  src/ragplan/planner/optimizer.py: OfflineCostAwareOptimizer.select; Estimates
--                   and Best are about what it selects.
--   Planner/Guard   src/ragplan/planner/runtime_guard.py: the window of observations and its latch.
--   Retrieval/Hits, Fusion    the hits of models.py and src/ragplan/retrieval/fusion.py: Fused has
--                   weighted_rrf_v1; Candidates, Order, Order/Counts, Total and Errors are about its loops and its results.
--                   Provenance has the validators of hits.
--   Engine          BaselineSearchEngine of src/ragplan/core/engine.py: Requests has SearchRequest, the
--                   guards and the benchmark entries, Plans the explicit modes and _branch_work (Supplied), Gate
--                   _raise_if_no_usable_branch and _rank_execution, Traces and Boundaries the trace contracts of models.py, Execute the
--                   analysis and the planning of a request, Serve _execute_request and _run_search.
--   Ingestion/Normalize, Chunker   src/ragplan/ingestion/normalize.py and chunker.py: from a text to
--                   overlapping windows of tokens (Windows, Offsets).
--   Ingestion/Manifest   src/ragplan/ingestion/manifest.py: run records and the served pointer.
--   Ingestion/Reconcile  src/ragplan/ingestion/reconcile.py: activation once both stores agree.
--   Benchmark/Metrics    src/ragplan/benchmark/metrics.py: recall and the reciprocal rank (Prefix, Ranks,
--                   Recall).
--   Prelude         shared names, lists over native numbers, Boolean tests and texts.
--   Samples         concrete inputs, runs, and each theorem at such an input.
--
-- How they interact: a request is admitted, gets a Deadline, and execute starts one task per work.
-- Each task is _run_branch, which acquires a permit of its circuit, runs the operation under what is
-- left of the deadline, and returns a BranchResult. Engine/Serve joins the parts: the state machine of the
-- request, the mode and plan (by Planner/Rule in rule mode), execute, the gate on its results, the fusion of their
-- hits, and the response with its traces. Chunks take their identifiers from Core/Ids; the
-- stores stage them, and Reconcile activates a run in the repository of Manifest.
--
-- How code becomes definitions
--   An object that is mutated is a record passed from call to call. An exception is a value of Result.
--   Times are whole nanoseconds in ℕ, and every reading of a clock is an argument. Where the code
--   computes in floating-point seconds, the model keeps nanoseconds: rounding is not modelled. Rates
--   are compared as fractions. Python's integers do not overflow. Texts are lists of code points.
--   The event loop is a parameter of execute: it says which tasks end in a round, and how each
--   operation ends, so that every schedule is covered. Names of other packages (Unicode, URL quoting,
--   hashing, JSON with pydantic, the disk and its faults, tokenizers, the verifiers of the stores) are
--   parameters; what a theorem needs of them is a hypothesis.
--
-- Bounds and fuel: execute runs as many rounds as there are works, which is enough: a round
-- either ends a pending task or expires all of them. The windows of a document run as many rounds as
-- there are tokens: each window starts at least one token later. A name is trimmed in at most as many rounds as it has
-- code points, and one more. Other loops are recursion on
-- their list.
--
-- Not modelled: the HTTP server, command line, tracing and metrics (input and output around the core),
-- nDCG, the Qdrant and Neo4j clients, training and evaluation of the cost models, the benchmark's reports,
-- extraction of entities and relations with spaCy, the loading of cost models, the analyzers of queries (their
-- answers are parameters of the engine), the shutdown of the engine and the engines over a single store. A trace's labels
-- (hashes, versions, selection_reason) are left out. The validators of RetrievalHit and RetrievalContribution are
-- in Retrieval/Provenance, apart from the functions of the fusion, which do not run them.
pub mod Prelude
pub mod Core
pub mod Scheduler
pub mod Planner
pub mod Engine
pub mod Retrieval
pub mod Ingestion
pub mod Benchmark
mod Samples
