-- ===== src/Lib.antt =====
-- The core of the cloud commitment portfolio optimizer: forecasts of cloud spending and frozen price
-- tables go in, ranked purchase candidates and one recommendation for approval come out.
--
-- The parts of the program and how they interact. A tenant's user or API key asks for an optimizer
-- run; the permission matrix (core/tenant/rbac.ts) decides whether the route may be used. The run is a
-- row with the status queued. The worker (core/optimizer-runs/optimizer-worker.ts) claims it, reads
-- its frozen snapshot and forecast from the object store and its frozen prices from the database,
-- evaluates every price item, ranks the candidates, writes a frontier and an output document, inserts
-- a recommendation and settles the row as completed, infeasible or failed.
--
-- The forecast comes from core/forecasting/forecast-worker.ts: the usage of past months, grouped by
-- provider, service and region, is averaged over the same month of the year, or over all months where
-- there is none.
--
-- A backtest is a row of its own: its worker (core/backtests/backtest-worker.ts) claims it, reads the
-- frozen policy snapshot, adds up the usage of each month, replays three commitment strategies over
-- the months and stores the metrics with a report.
--
-- A recommendation above the policy's threshold waits for an approval; a person approves or rejects it
-- (core/approvals/approvals-repository.ts), and the database enforces the order of its statuses.
--
-- An import (core/imports) parses a file of usage lines and accepts it if its rows add up to the
-- control totals that came with it.
--
-- A session is a family of refresh tokens, each exchanged once for the next one
-- (core/tenant/auth-refresh-repository.ts); limiters (core/shared/rolling-window-limiter.ts,
-- core/tenant/auth-session-limiter.ts) bound how often a key is let through.
--
-- Password hashes of the login run in a pool (core/tenant/argon-executor.ts) with a bounded number of
-- places and a bounded queue.
--
-- Files.
--   Base and Base/*: lists and how often a test passes in them (Lists, Counts, Slices), `bigint`
--     (Int), texts as lists of UTF-16 code units (Text), their order (Text/Order), JSON values (Json),
--     the stable `Array.prototype.sort` (Sort), and asynchronous methods as actions on a state that
--     return or throw (Action).
--   Optimizer/Types: core/optimizer-runs/optimizer-runs-types.ts. Amounts that the source keeps as
--     decimal texts of a `bigint` it has just computed stay integers and are printed where a document
--     is written.
--   Optimizer/Numeric, Policy, Evaluate, Documents: the pure functions of
--     core/optimizer-runs/optimizer-worker.ts (percentile, roundedDiv, policySnapshot, evaluateItem,
--     compareCandidates, buildFrontier and so on), under their names in snake case.
--   Optimizer/Repository: the rows and statements of
--     core/optimizer-runs/optimizer-runs-repository.ts; Repository/Checks and Lifecycle have the CHECKs
--     and the trigger of db/migrations/0018_create_optimizer_runs.sql.
--   Optimizer/Worker: processNextOptimizerRun over the tables and the object store. A parameter
--     says which call of the database or the object store fails, so that every theorem holds for
--     every pattern of failures; another says which rows other transactions have locked.
--   Rbac: core/tenant/rbac.ts and request-context.ts; Rbac/Routes: the table of
--     core/tenant/protected-route-actions.ts.
--   Approvals: decide, get and setWorkflowExecutionId of core/approvals/approvals-repository.ts, under
--     the trigger of db/migrations/0021_create_approvals.sql; Approvals/Pending: createPending, under
--     the constraints of that migration; Approvals/Expiry: expireDue and
--     core/approvals/approval-expiry-worker.ts; Approvals/History: sequences of these transactions;
--     Approvals/Input, Listing and Service: core/approvals/approvals-input.ts and
--     approvals-service.ts, and the list of the repository; a parameter says whether a transaction or
--     the query after it is lost.
--   Forecasting: the grouping, the averages and the points of core/forecasting/forecast-worker.ts.
--   Sessions: the tables of db/migrations/0007_create_auth_refresh_families.sql and
--     0008_create_auth_refresh_tokens.sql; Sessions/Login, Refresh, Logout: the transactions of
--     core/tenant/auth-login-repository.ts, auth-refresh-repository.ts and auth-logout-repository.ts.
--   RateLimit: the limiter in memory of core/shared/rolling-window-limiter.ts; RateLimit/Session:
--     that of core/tenant/auth-session-limiter.ts; RateLimit/Reference: a limiter that forgets
--     nothing.
--   Imports/Csv: core/imports/csv.ts; Imports/Cells, Totals, Rows: the functions that the three
--     parsers of core/imports declare alike, after canonical-usage-parser.ts; Imports/Synthetic,
--     Canonical, AwsCur: the parsers themselves; Imports/Batches: createImport of
--     core/imports/imports-service.ts and imports-repository.ts. What the database lets into its columns
--     beside the amounts is a parameter.
--   ArgonExecutor: the bounded pool of core/tenant/argon-executor.ts. Its state is the source's; what
--     the event loop does is a list of events, and the promises are lists of the operations that
--     run and that are settled.
--   Backtests/Replay, Artifact: the pure functions of core/backtests/backtest-worker.ts;
--     Backtests/Repository and Worker: its statements and processNextBacktest.
-- Files under the name of a part hold what is proved of it; Tests and Samples hold concrete runs.
--
-- Bounds and fuel. No definition needs fuel: every loop of the modelled code runs over a list or
-- counts down. A client that walks through the pages of a list, in Approvals/Listing, counts them; one
-- call more than there are rows is enough. `bigint` is unbounded in the source too. Row numbers and times are natural numbers.
--
-- Not modelled. SQL itself: each statement stands as a function on the rows that it reads and
-- writes, and a statement is atomic. The order of price rows is by code units where the database
-- would use its collation. The serialised bytes of a document stand as its JSON value. The web pages,
-- the HTTP layer, the reads of imports, the notifications, the cookies and the input of a login are
-- not modelled. Of the approvals, what the hooks of the service do is not modelled; the rows that a
-- SKIP LOCKED passes over are a parameter, and so is what the engine makes of the texts of times and
-- cursors. Of
-- the forecast worker the calendar (forecastMonths, inclusiveDays) and processNext are not modelled;
-- the rows that listReplayUsageMonths selects for a backtest are a parameter.
pub mod Approvals
pub mod ArgonExecutor
pub mod Backtests
pub mod Base
pub mod Forecasting
pub mod Imports
pub mod Optimizer
pub mod RateLimit
pub mod Rbac
pub mod Sessions
