-- ===== src/Lib.antt =====
-- fluxo: a workflow engine in Go. A workflow is a list of steps; an engine runs instances of it step
-- by step, caches each step's result, retries, parks an instance that waits for a signal or a child,
-- and resumes it later. Stores keep definitions, instances and events; a task queue with leases hands
-- work to workers, which call the engine.
--
-- The parts, and the files that model them:
--   Common     lists, Go maps as association lists, Boolean tests, and the lemmas on them.
--   Api        pkg/api/workflow.go, events.go: the shared types. An `any` is a `Value`, a step
--              function a code pointer, an error a value of `Err` that keeps its format and its
--              arguments apart. Api.Errors: which errors park an instance. Api.Fingerprint:
--              `ComputeWorkflowFingerprintStrict`.
--   LeaseBook  internal/persistence/store.go: what the lease methods of an instance store promise, as
--              a book of owners and times. Store.Refinement and Sqlite.Instances.Leases relate
--              the stores to it.
--   Store      internal/persistence/memory_store.go: `InMemoryStore`. Instances live in a heap of
--              cells, since the engine and the store share pointers to them. Store.Workflows: the
--              registry. Store.Leases: leases over sequences of calls.
--   Queue      internal/taskqueue: `Task` and `InMemoryQueue`. Its children: Counts and Conservation
--              (how often an id stands in the queue), Exclusion and Handover (leases), Calls
--              (sequences of calls), Blocking (`Dequeue`), Fairness (no task is passed over for ever).
--   World      what an engine acts on (store, queue, clock, id counter, observer's log), and the
--              small helpers of internal/engine/engine_impl.go.
--   Execute    engine_impl.go, `executeSteps`. Its children: Rules (a rule for the loop over the
--              attempts, and one for the loop over the steps), Exits, Cached, Results, Attempts,
--              Waiting (the time that the attempts of a failing step take).
--   Engine     engine_impl.go, the engine's methods. Engine.Registry: register_workflow
--              (RegisterWorkflow). Engine.Starts: run, run_version, start, start_version,
--              run_instance. Engine.Resumes: resume_workflow (Resume), signal_workflow (Signal),
--              resume_now, signal_now. Engine.Upkeep: inspect_instance (GetInstance),
--              list_workflow_instances, list_workflow_events, recover_stuck_instances. The proofs
--              stand in Registration, Guards, Inspection and Recovery.
--   Steps      pkg/api/workflow.go, the step functions of the library: Waits (sleep and signals),
--              Control (branches, loops, typed steps), Children (child workflows), Parallel
--              (ParallelStep, ParallelMapStep; Interleavings and Results hold the proofs).
--   Worker     pkg/worker/worker.go. A worker sees the engine and the queue through the record
--              `Host`; Worker.EngineHost fills it with the engine of this library;
--              Worker.EndToEnd runs a started workflow through both. The heartbeat's goroutine
--              is `beats`, whose ticks stand between the calls of other clients.
--              In `process_one` they stand behind the engine's call, each at the time of its
--              tick; the engine does no more on the queue than enqueue.
--   Sqlite     the database, and the interface `Codec` between a store and its encoding, which
--              Sqlite.Encoding fills: internal/persistence/codec.go. Sqlite.Instances:
--              internal/persistence/sqlite_store.go, with RoundTrip, Leases and StaleWrites (the
--              engine's read, acquire and write back over it). Sqlite.Events: internal/persistence/sqlite_events.go. Sqlite.Tasks:
--              internal/taskqueue/sqlite_queue.go, with Claims (which row is claimed), Polling (what
--              Dequeue returns), Calls and Exclusion (sequences of calls).
--   Postgres   postgres/internal/taskqueue/postgres_queue.go, with Delivery and Unnamed (sequences of
--              calls) and Polling (what a Dequeue takes, and that it returns).
--   Redis      redis/internal/taskqueue/redis_queue.go, scripts included, with Moves and Validity (what
--              holds of its five keys together), Sets, Holding and Exclusion (what a lease keeps off).
--   Builder    builder.go: the fluent builder of flows, with Built (what a chain of calls builds).
--              Builder.Retry: retry.go, and what its policies mean to the engine.
--   Witnesses  concrete runs, to which the theorems are applied.
--
-- How the code is modelled. A method takes the state and returns the new one with its result; each
-- method that holds a mutex is one step. Times, durations and counts are natural numbers, since the
-- code only asks whether they are positive; nanoseconds do not overflow in the model. A float64 is a
-- bit pattern. A Go map is an association list whose order is that of a `range`. Where a `select`
-- has both branches ready, the end of the context wins.
--
-- An SQL statement is translated to what it does to a table, an association list under the primary
-- key; the database runs each statement on its own, and may fail it. The goroutines of a parallel
-- step are a sequence of events, one interleaving; a theorem holds of every one.
--
-- Fuel. `dequeue` polls until a task is there or the context ends, and runs on fuel;
-- one round more than there are poll intervals up to the end of the context is enough. `while_step`
-- runs on fuel; a measure of its rounds is enough. The loops over steps and attempts need none.
--
-- Parameters. Step functions, Go's formatting, SHA-256, JSON, build information, the names of
-- functions, float64 arithmetic, gob (`Gob`, `TaskCodec`) and `reflect` are arguments (`Env`,
-- `Toolchain`), with what is assumed of them among the hypotheses of the theorem that needs it.
--
-- Not modelled: the stores over Redis and MongoDB, the queue over MongoDB, the functions that hand
-- whole tasks to gob, the bundles and the runners, the logging and counting observers, and goroutines
-- of the program itself that run between the steps of one method, but for `others` of the worker.
pub mod Common
pub mod Api
pub mod LeaseBook
pub mod Store
pub mod Queue
pub mod World
pub mod Execute
pub mod Engine
pub mod Steps
pub mod Worker
pub mod Sqlite
pub mod Postgres
pub mod Redis
pub mod Builder
pub mod Witnesses
