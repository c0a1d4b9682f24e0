-- ===== src/Lib.antt =====
-- A verification library for Code Arena, an online judge: a backend that takes submissions of
-- source code, a worker that runs them from a queue, and an execution engine that compiles, runs
-- and judges a program in a sandbox.
--
-- How the parts work together. `createSubmission` stores a submission as PENDING and then QUEUED
-- and hands a job to BullMQ. A worker takes the job, claims the submission (QUEUED, or RUNNING
-- with a stale owner), and `executeSubmission` asks the engine for a verdict on every active test
-- case until one ends the run. The engine's `execute` validates a request, makes a workspace,
-- compiles and runs the program in a docker container, gives a verdict and removes the workspace.
-- A request reaches all this through a route of the API, behind its authentication, its rate limit
-- and its validation; the frontend sends requests with the token of its session and shows the answers.
--
-- The files:
--   Engine           execution-engine/src: Config (config/constants.js, config/languages.js,
--                    utils/errors.js), Output (evaluator/output.evaluator.js), Sanitizer
--                    (utils/sanitizer.js), Child (the events that the runners see), Sandbox
--                    (runner/docker.sandbox.js), Process (runner/process.runner.js), Compiler
--                    (compiler/cpp.compiler.js), Workspace (utils/workspace.js), Executor
--                    (executor/execution.service.js).
--   Submissions      backend/src/modules/submissions: Model (submission.model.js), Adapter
--                    (execution.adapter.js), Execution (submission-execution.service.js), Service
--                    and Pages (submission.service.js), Validation (submission.validation.js).
--   Queue            backend/src/queues/submission.queue.js.
--   Worker           backend/src/workers/submission.worker.js: Retry, Claim, Process, Daemon (start
--                    and shutdown); Lifecycle joins the service, the queue and the worker. Registry
--                    (worker-registry.service.js).
--   Environment      backend/src/config/env.js: the checks and parsers of variables.
--   Users            backend/src/modules/users/user.service.js: statistics, solved problems and,
--                    in Activity, the submissions by day.
--   Accounts         Model (backend/src/modules/users/user.model.js), Token (backend/src/utils/jwt.js),
--                    Service and Validation (backend/src/modules/auth), Authenticate
--                    (backend/src/middleware/authenticate.js); Lifecycle joins them.
--   Audit            backend/src/modules/audit/audit-log.service.js.
--   Problems         backend/src/modules/problems: the readiness of a problem, Model
--                    (problem.model.js), Service and Listing (problem.service.js), Validation
--                    (problem.validation.js).
--   TestCases        backend/src/modules/test-cases: the service and Validation.
--   Connections      backend/src/config/database.js (Database), backend/src/config/redis.js (Redis),
--                    backend/src/server.js (Application).
--   Tracing          backend/src/modules/observability/tracing.service.js.
--   Logger           backend/src/utils/logger.js: the redaction of metadata and the level test.
--   Metrics          backend/src/modules/observability/metrics.service.js: what it records;
--                    Exposition prints it, Counts reads the prints.
--   Middleware       backend/src/middleware/error-handler.js and authorize.js.
--   Api              the routes and controllers of backend/src/modules, backend/src/app.js and the places
--                    of backend/src/middleware/rate-limiter.js: Guards (the middleware of a route),
--                    Catalog, Clients and Admin (the routes), Routes (a request and its route).
--   Frontend         frontend/src: Client (services/api/client.js), Session (context/AuthContext.jsx,
--                    components/layout/ProtectedRoute.jsx and AdminRoute.jsx), Entry (pages/Signup.jsx,
--                    pages/Login.jsx), Judge and ProblemPage (pages/ProblemDetails.jsx: the submission
--                    and its polling; the problem shown, its catalog, editor and links),
--                    ProblemForm (pages/admin/AdminProblemForm.jsx), ProblemList (pages/Problems.jsx).
--   Prelude          texts as lists of UTF-16 units, JavaScript values, errors, a collection with the
--                    calls `findOne` and `updateOne`, lists and tests on the native numbers.
--   Tests            the theorems at concrete inputs.
--
-- A function has the source's name in snake case. State is passed explicitly: a collection is the
-- list of its documents, a queue the list of its jobs, a call of `execute` returns its outcome
-- with the directories it made, its cleanups and the containers whose removal it started. An error is a value of
-- Result. A child process is the list of its events (a chunk of a stream, the timer) and its end.
--
-- Parameters stand for code that is not in the repository: docker, child processes, the compiler,
-- the file system and `path`, Redis, JSON, `toUpperCase`, the prints of numbers, the calendar,
-- BullMQ's `add`, the test of MongoDB ids, `parseInt`, MongoDB's sorts, regular expressions and
-- aggregation, Mongoose's validation of a problem, a test case and an account and its `connect`,
-- what ioredis answers, Argon2, jsonwebtoken, the random ids of traces, and the clock, from which
-- each operation takes one time for each of its steps. Hypotheses on them: `mkdtemp` makes a fresh
-- directory below the base (MakesFresh), Redis returns what was set until it expires and JSON is
-- read back (Lawful), MongoDB's sort of submissions gives the same documents in the order of a
-- field (Sorts), a new id is not in use and is its own trimmed text (IsFresh), a hash verifies its
-- password and a signed token is read back (Trusted), and the aggregations make one group for each
-- key that has documents (IsGrouped, IsGroupedBy). BullMQ's deliveries are a definition on its
-- documented rule: a failed job is delivered again while attempts are left (Redelivery.deliver).
--
-- Bounds. The only fuel is the number of deliveries of a job, and it is enough when it is at
-- least the attempts that are left; a job of the queue has three. The other loops are structural.
--
-- Not modelled: failing database calls but those named above, the formatting of log lines, the
-- safe views of documents, the runtime registry of the engine, the routes for health, readiness,
-- metrics and documents, the counting of the rate limiters (whether a limiter stops a request is
-- given), and the views of the frontend. A request of the API runs as a whole, one after the
-- other.
pub mod Prelude
pub mod Accounts
pub mod Api
pub mod Audit
pub mod Connections
pub mod Engine
pub mod Environment
pub mod Frontend
pub mod Logger
pub mod Metrics
pub mod Middleware
pub mod Problems
pub mod Queue
pub mod Submissions
pub mod TestCases
pub mod Tracing
pub mod Users
pub mod Worker
pub mod Tests
