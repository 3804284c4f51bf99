-- ===== src/Lib.antt =====
-- GoXidized: backup of network device configurations.
--
-- A planner decides when a target's backup is queued, a manager queues and runs the jobs under
-- limits on concurrency with one job per target, a worker fetches, redacts and stores one
-- configuration and compares it with the last, and the stores keep revisions and jobs.
--
-- Types (pkg/goxidized/types.go), Types.Errors (errors.go), Types.Secrets (secrets.go): shared data.
--   A time is the number of nanoseconds since the zero time, a duration a signed number of them;
--   the source's int64 arithmetic wraps around where it can (wrap64, add64, mul64).
-- Scheduler.Config, Scheduler.Lease, Scheduler.Manager, Scheduler.Manager.Leases,
--   Scheduler.System (internal/scheduler/manager.go, lease.go): normalize, backoff, prepare,
--   reserve, releaseReservation, renewLeases, and the goroutines of Enqueue, worker, run, acquire
--   and the timers as a step function over events, cut where another goroutine can run. The lease
--   store, the clock, the rate limiter and the handler answer through the events or a parameter.
-- Scheduler.System.Cluster: several processes with one lease table each of whose statements is a
--   step; time passes or one process moves, and their clocks agree. Scheduler.Manager.Leases.Shared
--   has what an operation of one manager does to the leases of the others.
-- Metadata, Metadata.Leases, Metadata.Accounts, Metadata.Tokens, Metadata.Devices, Metadata.Jobs,
--   Metadata.Migrations (internal/metadata/postgres/store.go): a table is what its statements see of
--   it, a statement is a function of the tables, and a list of outcomes says which statements fail,
--   before or after they take effect. SHA-256, JSON, the collation and the errors of the database
--   client are parameters. A job's result is here with its times, which the worker's leaves out.
--   Metadata.Leases fills the interface LeaseStore of the manager, Metadata.Tokens the interface
--   AuthStore of the API; Api.Logout puts the API and the table of tokens together.
-- Scheduler.Calendar, Scheduler.Window, Scheduler.Search, Scheduler.Cron, Scheduler.Planner,
--   Scheduler.Clock (internal/scheduler/schedule.go): windows and blackouts, cron expressions, base
--   and queue times, clock and weekday texts. Time zones and AddDate are the parameter Calendar.
-- Pipeline.Diff, Pipeline.Risk (internal/pipeline/diff.go): UnifiedDiff and ClassifyRisk.
-- Pipeline.Redaction (internal/pipeline/pipeline.go): Normalize and Redact, with what a regular
--   expression finds and replaces as functions, and HMAC-SHA256 as a parameter.
-- Worker (internal/worker/backup.go): Handle, as its result and the list of calls that it makes.
-- Inventory (internal/inventory/csv/source.go): Load and Parse of tables and router.db files. The
--   scanner's lines, the reader of encoding/csv and the moments at which the context is done are
--   parameters.
-- Drivers, Drivers.Transcript (internal/drivers/cli.go, registry.go): Prepare, FetchConfig, Normalize
--   and Redact of the command line driver, over a session that is a state with its answers; regular
--   expressions are functions. Drivers.Profiles, Drivers.Profiles.Vendors (profiles.go): the vendors'
--   profiles, with the patterns as texts and `regexp.MustCompile` as a parameter.
-- Conformance (pkg/conformance/driver.go): the replayed session and the run of a driver through a
--   fixture. Conformance.DriverTest (internal/cli/root.go): the command `driver test`.
-- Transport.Output, Transport.Telnet, Transport.Ssh, Transport.Ssh.Jump, Transport.Ssh.Shell
--   (internal/transport/sshtransport/ssh.go, telnettransport/telnet.go): reading up to a prompt, as
--   rounds of the loop with what each read gives; telnet commands and login; what Dial opens and
--   closes, with the answers of the network and of the SSH library.
-- Credentials, Credentials.Dotenv, Credentials.EncryptedFile (internal/credentials): the router and
--   its providers; the system, the cipher and the decoders are parameters.
-- GitStore, GitStore.Paths, GitStore.Commits, GitStore.Reads (internal/storage/gitstore/store.go):
--   Save, Latest, History and Diff over the record Disk, which stands for the file system and the git
--   library.
-- Api, Api.Requests, Api.Auth, Api.Handlers, Api.Oidc, Api.Oidc.Exchange (internal/api/router.go,
--   oidc.go): each handler as the list of its effects in order: audit entries, calls, cookies and the
--   reply. The stores and the scheduler answer through the records AuthStore and Answers; the tests
--   IsZero and HasPermission of a principal are parameters.
-- Settings, Settings.Defaults, Settings.Validation (internal/config/config.go): the records, the
--   defaults and Validate.
-- App (internal/app/app.go): ReloadInventory over the sources, the planner that is built from the
--   configuration, and the sweeps, which put the planner and the manager together.
-- Prelude: what the modules share; Prelude.Strings has what is used of Go's strings and strconv.
-- Tests: runs of the model, and the theorems at concrete inputs.
--
-- Bounds and fuel. The searches of next and nextAllowed take as many rounds as there are minutes to
-- their deadline, and two; the loop over a cron range takes the end of the range and five, also
-- where the addition wraps around; theorems below say that these suffice. Texts are code points;
-- white space is that of Latin-1, upper case is that of ASCII, and lower case is that of the letters
-- that Go lowers to ASCII, since what is lowered is compared with ASCII words only. The float of the
-- configuration is a whole number of units of 2 ^ -1074, infinite or a NaN. Times are nanoseconds; the
-- metadata store cuts those that the program gives it to microseconds, as its columns do.
--
-- Not modelled: of the metadata store Open and Close, which are the database client's, and the tables of
-- revisions, differences and audit events, whose rows are written and read as they are; of the command
-- line all but `driver test`, the web assets and the benchmarks, which are input and output; the pipe
-- that brings the outputs of an SSH shell together, so that a read of it is taken to return; the tables
-- of regular expressions of the default redaction rules; printing and logging, the texts of most error
-- messages, the metadata of audit events and the attributes of cookies.
pub mod Prelude
pub mod Types
pub mod Scheduler
pub mod Pipeline
pub mod Worker
pub mod Inventory
pub mod GitStore
pub mod Metadata
pub mod Conformance
pub mod Api
pub mod Drivers
pub mod Credentials
pub mod App
pub mod Transport
pub mod Settings
mod Tests
