-- ===== src/Lib.antt =====
-- SpeedCode, a remote engine that compiles and runs submitted programs: an API takes a submission and
-- puts a job on a queue; a worker takes the job, compiles it and runs it in a sandbox on each of its
-- test cases, publishes its progress on an event bus and saves its state in a store.
--
-- Base: what all parts share: native numbers, lists, integers of int64 range, texts as lists of
--   codes, an abstract float64, results and maps.
-- Models: pkg/models. Models/Request is request.go (`Normalize` is `normalize`).
-- Languages: pkg/languages, the two handlers and the registry (`Get` is `get`).
-- Sandbox: pkg/sandbox. Sandbox/Buffer is watchdog.go, Sandbox/Select is sandbox.go (`SelectSandbox`),
--   Sandbox/Process what the backends share about a finished process, Sandbox/Native, Sandbox/Docker
--   and Sandbox/DevProcess the ends of their `Execute`. Sandbox/Verdicts compares the verdicts.
--   Sandbox/Files is the file system with `WriteSourceFile`, Sandbox/Workspace the three `Prepare` and
--   `Cleanup`; Sandbox/Workspace/Left is about the directories that they make, Sandbox/Workspace/Limits
--   about cgroups. Sandbox/Affinity is affinity.go and affinity_linux.go.
-- Queue: pkg/queue/queue.go and, in Queue/Memory, memory_queue.go. Queue/Fifo is about calls one after
--   another, Queue/Race about calls that overlap. Queue/Redis is redis_queue.go; Queue/Contract is the
--   interface `JobQueue` and what its clients rely on, Queue/Refinement is about the in-memory queue
--   behind it, Queue/Redis/Refinement about the jobs that the list of Redis stands for.
-- Engine: pkg/engine/engine.go, single runs. Engine/Answers is about the sandbox that a run opens,
--   Engine/Honest about where its accepted answers come from.
-- Events: pkg/events/events.go and, in Events/MemoryBus, memory_bus.go. Events/Sound and
--   Events/Delivery are about calls one after another and the receives of clients between them,
--   Events/Shutdown about clean-ups after the bus is closed, Events/Exact about which channels an event
--   reaches. Events/Redis is redis_bus.go, with its subscription as a step relation that
--   Events/Redis/Order is about.
-- Store: pkg/store/store.go and memory_store.go; Store/Redis is redis_store.go, Store/Redis/Refinement
--   is about the states that its values stand for, Store/Contract is the interface `StateStore`.
-- Worker: pkg/worker/worker.go. Worker/Case is the body of the loop over the test cases,
--   Worker/Evaluate the evaluation and `failSubmission`, Worker/Process the rest of `ProcessJob`;
--   Worker/Protocol and Worker/Numbering are about the order of its events and their cases,
--   Worker/Effects about its sandboxes and limits, Worker/Score and Worker/Outcome about its final
--   state, Worker/Stored about the store that it writes, Worker/Recorded about its metrics,
--   Worker/Stream about its events as a list, Worker/Volume about how many there are and
--   Worker/Broadcast about the bus that they go to. Worker/Backends puts the three backends under a
--   worker, Worker/OnHost and Worker/Home are about what a job leaves on the host. Worker/Pool is
--   pool.go.
-- Api: the submission handler of pkg/api/server.go; Api/Submissions is about its calls and responses.
--   Api/Detail is the handler of one submission, the health and the headers; Api/WebSocket is
--   websocket.go, Api/Live what its stream tells of a job.
-- System: the parts put together. System is the step relation of requests and workers over a list of
--   jobs and a map of states; System/Tracking says where a submission is, and its children keep track of
--   it over every step; System/Settling is about what the workers can still do. System/Deployed is the
--   same over any queue and store behind their interfaces, with a call to a step; its children are about
--   the list and the map that these hold, and about what a reader of a submission is told.
-- Metrics: pkg/metrics/prometheus.go; Metrics/Metered is what the jobs do to it.
-- Security: Security/Seccomp is the table of pkg/security/seccomp.go, Security/Audit is audit.go.
-- Cli: cmd/engine/main.go; Cli/Ending is about how it ends.
-- Daemons: Daemons/ApiMain is cmd/api/main.go and Daemons/WorkerMain cmd/worker/main.go, as lists of their
--   actions; Daemons/Shutdown is about the order in which they end.
-- Tests: concrete inputs.
--
-- How the code is modelled. A job runs over a state of the host and a log of its effects, the newest
-- first: events published, states saved, sandboxes opened and cleaned up, metrics and audit entries. A
-- sandbox is a record of four functions over the host's state, any of which but the clean-up may panic;
-- deferred calls are functions of how the body ended. Errors of the store and of the bus are dropped,
-- as the code drops them. Loops are recursions on the list that they run through. Of the code, only
-- the printing of a decimal number recurses on fuel, which is one more than the number: each digit
-- divides it by ten, so any larger fuel prints the same. int64 products wrap around at 2^64 (`mul64`),
-- and the clock, random bytes, files of cgroups and results of processes are arguments. float64 is a
-- type with operations and a strict order, of which only irreflexivity and transitivity are assumed
-- (NaN satisfies both). Folding of letters outside ASCII is a parameter. Sizes of Go slices and
-- counters of jobs and test cases are natural numbers. Calls that hold a lock for all of their body are
-- single steps; those that do not are split where the lock is released. Panics, of a sandbox or of a
-- closed channel, are values.
--
-- Texts are lists of codes. The bytes that a process writes are taken as the codes of its output,
-- without decoding: this is exact for output in ASCII, while output beyond it, compared with an
-- expected text that is not ASCII, may differ from what the code says of it.
--
-- The Redis client and the JSON encoding are parameters: records of functions, with what the code
-- relies on as laws in the modules Refinement. Of a command that ends in an error they assume nothing,
-- and a value is assumed to decode to what was encoded only where it is said so, since the codec of the
-- source replaces what is not valid UTF-8. A WebSocket stream is a function of what wakes its loop.
--
-- The file system, and what a started program does, are records of functions over the host's state; the
-- calls of the file system are logged with their answers.
--
-- In System a run's effects are computed when the worker takes the job, and reach the store one at a
-- time: a job reads neither the store nor the queue. Saves of workers succeed there.
--
-- Not modelled: the dispatch of the server's routes, the namespaces and credentials of a started
-- process, the help texts of the metrics, and what the programs log.
pub mod Base
pub mod Models
pub mod Languages
pub mod Sandbox
pub mod Queue
pub mod Events
pub mod Store
pub mod Worker
pub mod System
pub mod Engine
pub mod Api
pub mod Metrics
pub mod Security
pub mod Cli
pub mod Daemons
mod Tests
