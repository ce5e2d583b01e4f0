-- ===== src/Lib.antt =====
-- limewire-purge deletes the pieces of the objects of one bucket from the object storage of one storage
-- provider. This library models its core in functional form and proves what makes it safe.
--
-- The program. `scan` fills the object list of a progress database (internal/progress). `task create`
-- takes a batch of listed objects into a task. `purge` works through the task (internal/purge): for each
-- object it asks the chain to confirm the recorded identity, lists and deletes what is under the two
-- prefixes of the object, checks that they are empty, and records the result; a safety violation halts
-- the run and puts the task on hold. `verify` looks again later and closes the task.
--
-- The parts.
--   Prelude       shared types, Boolean tests, bytes, and steps with fuel
--   Decimal       strconv.FormatUint and ParseUint, as internal/pieceop uses them
--   Errors        the `error` values that the code tells apart by errors.Is
--   Pieceop       internal/pieceop/key.go: Prefixes, Key, Parse, KeepOnly
--   Purge         internal/purge: SizeCheck is sizecheck.go, the others are purge.go: Env has the
--                 interfaces, Clear is clearPrefix, Process is ProcessOne and identityDiff, Handle is
--                 handle, verdict, halt, stop and finish, Pool is Run and work
--   S3Store       internal/s3store/s3store.go: the listings, Delete and the check of versioning
--   Deadline      internal/deadline/deadline.go: Call, Retry, RetryIf
--   Verify        internal/verify/verify.go: checkObject, retry and Run
--   Bsdb          internal/bsdb/scan.go: TableFor, Reconcile, Scan
--   Progress      internal/progress: Tables and Rows are the tables and queries, Session is lock.go and
--                 the statements and transactions, Scan is task.go and InsertScan, and the others are
--                 subtask.go: Capacity, Resolve, Create, Purging, Verifying, Admin; Counts
--                 has Counts and Mismatches, Reports the reports
--   Spconfig      internal/spconfig/spconfig.go: Load, DSN, ParseBucketURL, Identity
--   Commands      cmd/limewire-purge: over the other parts: Scan is runScan, Purge is
--                 runPurge and Adapter is progressAdapter of main.go, Verify is runVerify of
--                 verify.go, Task is runTask of tasks.go
--   Tests         runs at concrete inputs
--
-- How state is modelled. The purge loop runs in a world of any type; the interfaces ObjectStore, Chain
-- and Progress, the context, the clock and the rate limiter are functions on it (Purge.Env), with no
-- assumption on what they answer. The database operations run in a session: the tables, the execution
-- lock, and a script that says for each statement whether it succeeds, is refused, or takes effect while
-- its reply is lost. Numbers of type uint64 wrap around where the purge loop adds them; the counters and
-- sums of the database are unbounded.
--
-- Goroutines. A run of the purge loop is a relation of events on the state of the feed, the channel and
-- the workers (Purge.Pool): an event is one select, channel operation or critical section, and any order
-- of events that the code allows is a run. An attempt at an object is a function (Purge.Process).
--
-- Bounds and fuel. `clear_prefix` takes one unit of fuel a round; a run without fuel yields nothing, and
-- the theorems on what a run leaves behind hold for such a run too. The environment may list a key again
-- and again, so that no fuel is enough for all of them; Purge.Clear.Ends says how much is enough for a
-- store that deletions empty, list failures included. ListAll takes one unit a page, Run of
-- internal/verify one a batch, and Scan of internal/bsdb one a query; their theorems say how much is
-- enough. Loops over numbers and shards have fuel that is enough by their theorems.
--
-- Not modelled: the heartbeat and the log of a run, the acquisition and release of the lock,
-- EnsureSchema and the rest of progress.go, internal/chain, and of the commands the parsing of
-- flags, the opening of the databases and status. The clients of the SDK, the drivers of the
-- databases, the hash that names a shard and the SHA-256 digest of a manifest are parameters.
pub mod Prelude
pub mod Errors
pub mod Decimal
pub mod Pieceop
pub mod Purge
pub mod S3Store
pub mod Deadline
pub mod Verify
pub mod Bsdb
pub mod Spconfig
pub mod Progress
pub mod Commands
pub mod Tests
