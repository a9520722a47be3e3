-- ===== src/Lib.antt =====
-- replicron: scheduled replication of query results from one SQL database into a table of another.
--
-- A task (internal/config) names a source query and a target table. The engine (internal/engine) runs
-- it: it takes the task's lease from the registry (internal/registry) or from a lease table, starts a
-- record in the run log (internal/runlog), opens a source and a target (internal/connector), puts the
-- stored watermark into the query of an incremental task, and streams the source's pages. Each page is
-- checked, folded into the watermark tracker and written in batches: a bulk load where the target has
-- one, else one statement to a batch, and where that fails one to a row. Behind the stream the run gets
-- its status, the watermark is stored after a clean run, the record is finalized and the lease released.
-- The command run does this once for each matching task; the daemon (internal/daemon) does it for each job
-- that its scheduler finds due, and serves the metrics (internal/metrics) and the pages (internal/ui).
--
-- Files, by the part of the program that they are about:
--   Base       lists, texts (a text is the list of its bytes), maps, integers, decimal print and read, and
--              what the program uses of Go's strings package
--   Model      internal/model/model.go, Go's dynamic values, floats and times, and the error conditions
--   Registry   internal/registry/registry.go: Acquire and Release; Registry/System has the runs that use
--              it as steps, Registry/Consistency and Registry/Exclusion the proofs
--   Lease      internal/lease/lease.go: Acquire, Release and Renew over the table, with the proofs in Expiry, Stale
--              and, statement by statement, in Statements;
--              New has the function of that name, the owner names, and an instance as a lock
--   Connector  internal/connector: Ident (SplitTablePath, ValidateColumns), Sql (quoting, valuesClause and
--              the statements of each dialect), Dialect, Conn (Connect, Stream, UpsertRows, InsertRows),
--              Bulk (BulkLoad over COPY and over SQL Server's bulk copy)
--   Config     internal/config/config.go: Load, Validate, validateTask, resolveDSN
--   Runlog     internal/runlog/runlog.go: Statements (Open, StartRun, FinishRun, Event, Prune), Queries,
--              Watermark (GetWatermark, SetWatermark)
--   Engine     internal/engine: Watermark (watermark.go), Batch (the loop over batches, clampBatch), Page
--              (the stream's callback), Run (RunTask, finalizeWatermark), Connected and Faithful (the connector's
--              targets), Openers (OpenSource and OpenTarget of internal/connector, and New)
--   Metrics    internal/metrics/metrics.go: ObserveRun
--   Ui         internal/ui/ui.go: the handlers index and detail
--   Daemon     internal/daemon/daemon.go: Run, with the registration in Registered, what its events keep in
--              Progress and Flights, its life in Served, and a job by itself in Sequential
--   Cli        internal/cli: Run (run.go), Schedule (schedule.go), Inspect (inspect.go)
--   Tests      the theorems at concrete inputs
--
-- State is passed explicitly. The registry and the run log are records; the target database is any type
-- D that a target connection changes; RunTask is run_task from a World (lock, run log, target, and the
-- trace of its calls) to a result and a World. A method of the registry is one step, which the mutex
-- makes atomic, so concurrent runs are interleavings of steps. On the lease table a call is one step, or, in
-- Lease/Statements, each of its statements is.
--
-- Parameters, for code that is not in the repository: the database drivers (Driver, Session; Drivers has
-- all of them), the print and read of floats (FloatText), files and the environment with the parsers of YAML,
-- cron expressions and durations (Outside), the scheduler and the templates (Host), the Prometheus client's
-- vectors (Counters and Histograms, with what an addition and an observation do as their laws), the machine of a lease instance (Machine), and
-- the run log's clock and its refused statements (fields of Store). That a target returns the number of the
-- rows it was given is the hypothesis IsExact, which the connector's targets fulfil, so the engine that New
-- makes needs no such hypothesis. That a write puts all its rows or none is the hypothesis IsFaithful of the
-- theorem on the rows in the target; Engine/Faithful derives it, for tasks without bulk loads, from what the
-- database does with a statement (Executes).
--
-- Fuel: the loop over the batches of a page has as many rounds as the page has rows, which suffices for
-- a positive batch size; its result is none where that is not so. Validation makes the batch size
-- positive.
--
-- Not modelled: log lines, the text of error messages, the deadline of a run (an operation that it cuts
-- short is one of its connection's errors), templates, the HTTP server and its routes, the print of times, and
-- the flags' parsing, the recovery from a panic in a job, the rounding of counts and seconds to float64. The
-- daemon's jobs begin and end in any order, and those in progress are left when it returns; the work of one run
-- between its beginning and its end is one step, so the pages of two runs do not alternate, and what a run does
-- behind the closing of the run log is left out. Finer interleavings are the steps of Registry/System and of
-- Lease/Statements. A run only reads its source, which is as the drivers' source_db says. Integers of the
-- program that count rows are natural numbers without a bound; generations of the registry wrap at 2^64.
-- Times are read in UTC, in the years 0 to 9999; the lease table's are numbers of nanoseconds.
pub mod Base
pub mod Model
pub mod Registry
pub mod Lease
pub mod Connector
pub mod Config
pub mod Runlog
pub mod Engine
pub mod Metrics
pub mod Ui
pub mod Daemon
pub mod Cli
mod Tests
