-- ===== src/Lib.antt =====
-- The World of Seeds backend shares torrents between users: a torrent that several users request is
-- downloaded once, its bytes count for each of them, and a scheduler decides which torrents run.
-- This library models the parts of it that keep state and make decisions, as functions from
-- explicit states to new states or errors.
--
-- Parts:
--
-- - Models: the rows and enumerations of backend/app/models/torrent_v2.py and
--   backend/app/models/auth.py. A row keeps the columns that the modelled operations use.
-- - Jobs: the durable queue of backend/app/jobs/torrent_jobs.py. Jobs holds the operations on one
--   row (`require_claim_owner` is `_require_claim_owner`, `release_claim` and `finish` are
--   `_release_claim` and `_finish`, the others have the code's names), Jobs/Validation the checks
--   of identifiers, and Jobs/Queue the operations that pick rows out of the table. Jobs/Valid
--   states the CHECK constraints of `torrent_jobs`, Jobs/Tables and Jobs/Runs lift facts about one
--   row to the table and to runs of committed operations, Jobs/Claims is about ownership and the
--   choice of the next job, Jobs/States about what every run keeps, and Jobs/Exclusion about what
--   happens while a worker holds a job.
-- - Scheduler: backend/app/scheduler/weighted_fair.py. Scheduler holds the policy, the candidates
--   and the cost of an admission (`decision` is `_decision`); Scheduler/Select holds
--   `select_torrents`, with the pass over the candidates in Select/Setup, the inner loop in
--   Select/Admit and the choice of a user in Select/Choose; Scheduler/Continuity holds
--   `select_with_continuity`. The loop's local variables are the record `Loop`. Scheduler/Rule
--   lifts what one credit and one admission keep to the loop; Scheduler/Admission has such
--   invariants; Scheduler/Effort and Scheduler/Ends bound the rounds; Scheduler/Choices,
--   Scheduler/Preparation and Scheduler/Costs are about single steps; Scheduler/Selection and
--   Scheduler/Retained speak of the two entry points.
-- - Storage: backend/app/storage/accounting.py. Storage holds the policy, the disk pressure and the
--   reservation capacity, Storage/Accounting the preparation and the reservation of an admission,
--   and Storage/Reconcile the recount. Storage/Reservation, Storage/Admission, Storage/Recount and
--   Storage/Balance are about them.
-- - Concurrency: backend/app/scheduler/dynamic_concurrency.py. Concurrency holds the scheduler's
--   measurement state and its samples (`download_baseline`, `validated_baseline`,
--   `start_measurement` and `clear_measurement` are the functions with a leading `_`),
--   Concurrency/Apply the cycle, the alignment and the completion; Concurrency/Limit and
--   Concurrency/Ends are about one cycle, and Concurrency/Freeze is about the cycles after a
--   completion, as backend/app/scheduler/runtime.py runs them.
-- - Lifecycle: backend/app/torrents/lifecycle.py, backend/app/torrents/deduplication.py and
--   backend/app/scheduler/queue_visibility.py. Lifecycle/Rows holds the changes of a row and the
--   deferred purge, Lifecycle/Requests the request of a user (`create_or_get_torrent_request`),
--   Lifecycle/Rights the operations on the rights that follow (in Rights/Ready, Rights/Expiry and
--   Rights/Cancel), Lifecycle/Visibility the queue that the users see. They work on the tables of
--   Storage and the jobs of Jobs, which `Store` puts together. Lifecycle/Sums, Lifecycle/Distinct
--   and Lifecycle/Balance say what one change does to the counters of Storage,
--   Lifecycle/Cancellation and Lifecycle/Expiration lift it to the operations. Lifecycle/Debts and
--   Lifecycle/Grants follow what the counters lack in the middle of a request, and
--   Lifecycle/Admission the whole of it; Lifecycle/Races is about its errors. Lifecycle/Purges is
--   about the scheduled purges and Lifecycle/Ranks about the owners in the queue.
-- - Metainfo: backend/app/torrents/metainfo.py. Metainfo/Decimal, Metainfo/Bytes and
--   Metainfo/Integer hold the operations on byte strings, Metainfo/Bencode the parser and the
--   encoder: the parser's position is the list of the bytes that are left, and its counter of items
--   is passed along. Metainfo/Printed says which values the parser gives back, Metainfo/Steps,
--   Metainfo/Reads and Metainfo/Accepted follow it on a printed text and on any text, with
--   Metainfo/Pieces for the single values, Metainfo/Ends is about its fuel, and Metainfo/RoundTrip
--   about whole files. Metainfo/Paths is `_PathNode`, Metainfo/PathSet and Metainfo/PathTree set it
--   against a set of paths. Metainfo/Checks, Metainfo/Files and Metainfo/Rewrite hold the rest of
--   `_rewrite_torrent`, and Metainfo/Scan, Metainfo/Infos and Metainfo/Identity follow `info`
--   through it. What the Unicode tables, `urllib` and `hashlib` compute is the record `Library`.
-- - Drain: backend/app/core/drain.py. Drain holds the counter and the middleware, with runs of
--   events; Drain/Closing is about them.
-- - RateLimit: `LoginIpRateLimiter` of backend/app/auth/rate_limit.py. `consume` takes what the
--   keyed hashes of the address and of the identity gave; RateLimit/Budget is about its budgets.
-- - Prelude: what the parts share: tests on numbers, lists and queries, operations that raise
--   (`Result`), stable sorting by a key, and Python dictionaries.
--
-- Each part has a module Examples that runs it on small inputs.
--
-- How the code is read:
--
-- - An exception is an error value, and the transaction that it rolls back has no state. A value
--   that the code refuses when it is negative is a natural number, and a subtraction that the code
--   bounds by zero is the one of the natural numbers. Types that Python checks at run time
--   (`type(x) is not int`) are the types here.
-- - Identifiers are numbers that sort as their canonical texts do. Instants are microseconds of
--   UTC, so `_as_utc` and `_database_timestamp` are the identity, and a duration is a signed number
--   of them.
-- - A query is a filter, a stable sort and a limit on the list of a table's rows. Rows that `FOR
--   UPDATE SKIP LOCKED` skips are given by a predicate, as another transaction chose them. A flush
--   writes the changed row back under its identifier.
-- - `dict` and `defaultdict` are association lists in the order of insertion.
-- - Optional arguments with a default are passed: an absent ledger is `new_ledger`, an absent fair
--   order the empty list.
--
-- Bounds and fuel: `run`, the outer loop of `select_torrents`, takes `enough` rounds, one more than
-- four credits for each user and each free slot; each round admits a torrent or lowers what its
-- user lacks for the dearest admission. The inner loop takes the free slots as its bound, since
-- each of its rounds takes a slot. The parser of metainfo takes `fuel_for` units, two for each byte
-- and two more, since a value, a key and each round of a loop take a byte. All other loops are
-- structural.
--
-- Not modelled: the HTTP API, authentication and password hashing, options storage, the clients of
-- qBittorrent, Redis, Prometheus and the trackers, streaming of downloads, migrations, the frontend
-- and the Discord bot: they are I/O, glue or other languages. The effects of jobs are not here
-- either. Nor is what reads the options into `SchedulerPolicy`, `StorageAdmissionPolicy` and
-- `DynamicConcurrencyConfig` (`from_options`, but for its two comparisons, `check_config`): a
-- policy is an argument. The database's refusal of a second job with one `idempotency_key` is not
-- modelled where a purge is scheduled.
pub mod Concurrency
pub mod Drain
pub mod Jobs
pub mod Lifecycle
pub mod Metainfo
pub mod Models
pub mod Prelude
pub mod RateLimit
pub mod Scheduler
pub mod Storage
