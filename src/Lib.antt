-- ===== src/Lib.antt =====
-- A verification library for scraper_project, a source-neutral runtime that discovers listings,
-- queues detail fetches and keeps what it did in one local SQLite database.
--
-- The program's parts. `src/orchestration/queue.py` leases jobs to workers, closes leases and
-- takes back the abandoned ones; it alone changes the state of a job.
-- `src/database/repositories.py` has one class for each other table: sources, crawl runs and
-- partitions, observations, jobs, checkpoints, snapshots, parser runs, proxy usage and dataset
-- batches. Both run their SQL inside `RuntimeDatabase.write_transaction` of
-- `src/database/connection.py`, on the tables of
-- `src/database/migrations/0001_runtime_schema.sql`. `src/contracts` has the records that cross
-- the boundaries, with their checks, and `src/source_registry/config.py` the configuration of
-- sources. `src/orchestration/synthetic_worker.py` takes one listing of a local fixture server
-- through the queue and the repositories, with its files in the directories of
-- `src/orchestration/runtime.py`; it saves a checkpoint after each stage and goes on from there
-- when it is run again.
--
-- Which file models which part:
--   Base, Errors: shared names, Boolean tests, predicates on lists; exceptions as values.
--   Timestamp: instants and the texts under which `_timestamp` stores them; Timestamp/Order their
--   order; Timestamp/Iso the characters of `isoformat()`.
--   Contracts/Value, Models, Text, Url, Validation, Checks: the records of
--   `src/contracts/models.py`, their `__post_init__`, and the helpers of `validation.py`;
--   Payload, Readers, Listings, Totals, Dispatch: reading a JSON payload, the `from_mapping`
--   methods (`read_job` and so on) and `validate_contract_payload`; Dispatch/Payloads describes the
--   payloads that are read. Contracts/Sensitive, Accepted and Dispatch/RoundTrip are proofs.
--   Database, Database/Rows, Table, Transaction: the schema, the SQL statements on one table and
--   their laws, and `RuntimeDatabase`.
--   Repositories/Sources, Crawls, Observations, Jobs, Checkpoints, Snapshots, ParserRuns,
--   ProxyUsage, DatasetBatches: the repository classes, one function for each method under its
--   name; their children are proofs.
--   Migrations: `src/database/migrations.py`. Registry: `src/source_registry/config.py`.
--   Queue: `DetailFetchQueue`, one function for each method; `_finish` is `finish`, `__init__` is
--   `register_owner`. Of its children, Order is about the choice of a job, Moves is the state
--   machine of docs/runtime-state.md, Lease, Finish and Recover relate the methods to it,
--   Invariant, Audit, Kept, Valid and Creation hold the invariant of the two tables, History is
--   about lists of calls, Choice, Closing, Ownership and Owner are about what each call returns
--   and who may make it.
--   Json, Json/Decimal: `json.dumps` with sorted keys and no spaces, as `_canonical_json_bytes`
--   calls it.
--   Runtime: `src/orchestration/runtime.py`. FixtureServer:
--   `src/orchestration/fixture_server.py`.
--   Worker: `SyntheticWorker.run` and `health`, one function for each stage of `run`. Of its
--   children, Environment is what the worker takes from outside, Actions its effects, Fixture,
--   Records and Steps its private methods. Keeps has a rule for each way to build an action;
--   Calls, Files, Kept, Recorded and Interrupted carry a property that each effect keeps through
--   a whole run; Queueing, Evidence and Forward are such properties; Budget and Enough count
--   effects; Waiting, Refused and Served are about single situations.
--   Cli: the command handlers of `src/cli/main.py`; Cli/Crawl: `_runtime_fixture_crawl`. Valid
--   and Codes are proofs.
--   Tests: runs on small databases and the theorems applied to them.
--
-- How the state corresponds. A database is a record of tables; a table is the list of its rows in
-- order of insertion, a row a record of its columns. A method is a function from the database to
-- its result and the database that it leaves. The writer lock and BEGIN IMMEDIATE let one
-- transaction run at a time, so concurrent workers are sequences of calls. A reading of the clock
-- and the text of `uuid4()` are arguments. A violated constraint or a trigger is
-- `integrity_error`; messages are not modelled. Of rows that tie in an ORDER BY, the first in the
-- table is taken.
--
-- The worker runs on a world: the database, the files as a list of paths with their bytes, and
-- the number of effects before the process is killed. A transaction, the creation of a file and
-- the write that fills it are the effects, so every abrupt stop between two of them is some
-- number. A write fills its file whole.
--
-- Bounds. Every loop is over a list that is given, so no fuel is needed, but for the decimal text
-- of a number, whose fuel is the number itself; 26 effects are enough for a whole run of the
-- worker (Worker/Enough). Counts are natural numbers, as Python's integers; where they are bound to
-- a statement or summed by SQLite, more than 64 bits is the error that it is there. Instants are
-- microseconds since year 1; the end of a lease past `datetime.max` is an OverflowError, and no
-- other operation computes an instant. A JSON column holds the value whose text it is.
--
-- Parameters stand for what the library does not define: the network locations for which
-- `urlparse` raises, the characters that `str.isalnum` accepts, SHA-256, what SQLite makes of a
-- script, `datetime.fromisoformat`, `json.loads`, `float.__repr__`, `uuid5`, the answers of the
-- HTTP client, and the free bytes of the volume. A parsed TOML document and the list of migration
-- files are given.
--
-- Not modelled: making directories; backup and logging; the parsing of arguments, and the
-- commands health, queue-status, recover-abandoned, proxy-usage and backup; sockets, threads and
-- signals; opening connections, pragmas and the busy timeout; and the triggers that guard
-- statements which no method issues. The database of the worker and of the commands is one that
-- the migrations have made: that they are applied again, which changes nothing, is not a step.
pub mod Base
pub mod Errors
pub mod Timestamp
pub mod Contracts
pub mod Database
pub mod Repositories
pub mod Migrations
pub mod Json
pub mod Runtime
pub mod Worker
pub mod FixtureServer
pub mod Cli
pub mod Registry
pub mod Queue
pub mod Tests
