-- ===== src/Database.antt =====
-- The local runtime database: its rows are in `Rows`, SQL statements on one table in `Table`. A
-- database is the record of its tables; src/database/migrations/0001_runtime_schema.sql and
-- 0002_persistence_hardening.sql give the columns, the constraints and the triggers.
pub mod Rows
pub mod Table
pub mod Transaction
use scraper_project.Base.{List, []}
use Rows.{
  SourceRow, RunRow, PartitionRow, IdentityRow, ObservationRow, JobRow, AttemptRow, CheckpointRow,
  SnapshotRow, ParserRunRow, LedgerRow, BatchRow, QueueOwnerRow,
}

pub record Database : Type 0 where
  pub source_registry_state : List SourceRow
  pub crawl_runs : List RunRow
  pub crawl_partitions : List PartitionRow
  pub source_listing_identity : List IdentityRow
  pub discovery_observations : List ObservationRow
  pub detail_fetch_jobs : List JobRow
  pub job_attempts : List AttemptRow
  pub checkpoints : List CheckpointRow
  pub raw_snapshot_manifests : List SnapshotRow
  pub parser_runs : List ParserRunRow
  pub proxy_usage_ledger : List LedgerRow
  pub dataset_batch_manifests : List BatchRow
  pub runtime_queue_owner : List QueueOwnerRow

-- What the migrations leave: every table is there and empty.
abbrev pub new_database : Database
new_database = record {
  source_registry_state = [];
  crawl_runs = [];
  crawl_partitions = [];
  source_listing_identity = [];
  discovery_observations = [];
  detail_fetch_jobs = [];
  job_attempts = [];
  checkpoints = [];
  raw_snapshot_manifests = [];
  parser_runs = [];
  proxy_usage_ledger = [];
  dataset_batch_manifests = [];
  runtime_queue_owner = [];
}
