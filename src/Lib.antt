-- ===== src/Lib.antt =====
-- Evictor watches serverless GPU endpoints. This library models the Go backend: its worker pool,
-- its metrics, its configuration, the life of its process, the middleware that logs requests, the
-- probes, the store of its records in PostgreSQL, and the mock provider that stands in for a real
-- one, with the commands that start them.
--
-- How the parts interact. The process (App) reads its configuration (Config), opens the database,
-- makes the pool of workers from the configuration (Workers), serves the HTTP API (Api) until the
-- context is cancelled, and waits for the workers within one deadline. The pool counts what it does
-- in the shared counters (Metrics), which a probe of the API prints. The mock provider is a program
-- of its own: handlers over a store of simulated endpoints.
--
-- Where each part is modelled:
--   Prelude, with its children: numbers, lists, dictionaries, texts, 64-bit words. Texts are lists
--     of code points; Word has the wrapping sums of int64 counters as bit patterns.
--   Http: what a handler sends through net/http's ResponseWriter.
--   Metrics: backend/internal/metrics/counters.go.
--   Workers/Pool: backend/internal/workers/pool.go, the state of Pool (its channel, its atomic
--     counters, its flags) and the sequential operations NewPool, Submit, stopAccepting, Wait.
--   Workers/Consumer: the loops work and drainQueue with execute, runJob and recordDeadLetter, one
--     step for each access of shared state (`Move`, on the program counter `Pc`).
--   Workers/System: all the goroutines of Start and any callers of Submit, interleaved (`Step`), with
--     every reachable state (`Reach`). The channel, the mutex, the atomic counters and the contexts
--     are each accessed in one step; which goroutine moves next, what a job returns, when a timer
--     fires and which ready case a select takes are left open, so the theorems hold for each choice.
--   Workers/Invariant and its children: the invariant of the reachable states. Safety, Losses,
--     Drain and Submission: what follows from it. Examples: runs that the witnesses use.
--   Workers/Ledger and its children: which jobs a run has sent, ended and still has, by identity; the
--     pool as a bag of jobs, a quotient of lists (Bags); the order of the channel (Order); the totals
--     of /metrics (Totals); the calls of each job's function (Attempts); what is logged of
--     a run (Logs). Shutdown and its children: the steps of the supervisor, and the runs that stop.
--     Timed: the same system with a clock, for the timers of `Start`.
--   MockProvider/Scenario, Endpoint, Store, Clock, Handlers: the files scenario.go, state.go (the
--     endpoint machine, and its locked store), clock.go, and handlers.go with server.go, all in
--     backend/internal/mockprovider. Advance, Lifecycle, Traffic, Calls, Soundness, Faults: theorems.
--     Concurrent: the handlers of handlers.go in flight, a step for each call of the store, with the
--     instants that they read before they slept. Its children: theorems.
--   Config: backend/internal/config/config.go, Load and its parsers, function by function.
--   Api/Attrs: backend/internal/api/middleware/request_context.go. Api/Logger: request_logging.go
--     there. Api/Probes: the handlers in backend/internal/api/handlers. Api/Server: the router there with
--     the middleware around it, from a request to its response and log record. Api/Safety, Budget,
--     Records, Scrape, and Server/Logged: theorems.
--   App/Server: backend/internal/api/services/server.go. App/Process and App/Deadline: process.go
--     and shutdown.go in backend/internal/app. App/Outcomes, Lifecycle, Accounts, Output, Timing,
--     Observed, Secrecy: theorems, those of Accounts, Timing and Observed on the process together
--     with its pool, those of Secrecy on what it prints of its secrets.
--   Logging: backend/internal/logging/logging.go. Commands: main.go in backend/cmd/evictor and in
--     backend/cmd/mock-provider.
--   Primitives: backend/internal/primitives/id.go. Kinds: theorems.
--   Storage/Db: backend/internal/storage/db.go. Storage/Models and Redaction: the records and their
--     log values, backend/internal/models/models.go. Storage/Store, Endpoints, Telemetry and
--     Requests: the operations of backend/internal/storage/store.go, over a database that is a
--     parameter (Storage/Sql, where `IsTable` says what is relied on of PostgreSQL; Tables has an
--     instance in memory). Storage/Durable: the writes as a step relation, and that what is stored
--     stays. Storage/Json: the metadata of a request as a document. Schema: the CHECK constraints of
--     backend/internal/migrations/000001_init.up.sql; Schema/Columns: its columns, written
--     to; Schema/Reads: its columns, read. Schema/Fits, Accepts, Scans, Stays and Documents, Urls, RoundTrips,
--     Measured, Requests/Stored, Json/Order, Json/RoundTrip: theorems.
--   Each part has a module Witnesses with its tests and concrete instances.
--
-- How state is modelled. A struct is a record with its fields' names in snake case, a method a
-- function of the same name that gives back the new state. Errors are values of sum types. Instants
-- and durations are nanoseconds; an instant is a natural number, since no clock of the program shows
-- a time before the zero time. The int64 counters are bit patterns that wrap at 2^64.
--
-- Bounds and fuel. The catch-up loop of the mock endpoints, a loop without a bound in the source,
-- takes fuel; three rounds are shown to be enough. The resolving of log values takes the bound of 100
-- that slog has. The theorems on the pool ask that its capacity and its workers together are fewer
-- than 2^63 and that its counters start at zero (`IsSane`): then the jobs outstanding at any time
-- fit an int64. The totals of accepted and settled jobs may wrap; their difference is still exact.
--
-- What the program takes from elsewhere is a parameter: the environment and the files, the database,
-- the listener, the HTTP server, crypto/rand, the clocks, chi's route patterns, and the handlers
-- inside of the request logger.
--
-- What is not modelled: the foreign keys and indexes of the migrations, whose violations are
-- errors of the database here; the texts of errors; the JSON and text
-- encoding of net/http, slog and encoding/json, where documents and records stand for their texts; data
-- races below the level of single accesses, which the Go memory model rules out for the mutexes,
-- channels and atomics that the code uses; and the frontend.
pub mod Prelude
pub mod Api
pub mod App
pub mod Http
pub mod Logging
pub mod Commands
pub mod Metrics
pub mod Config
pub mod Workers
pub mod MockProvider
pub mod Primitives
pub mod Storage
