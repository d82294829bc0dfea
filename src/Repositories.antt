-- ===== src/Repositories.antt =====
-- src/database/repositories.py: one module for each repository class. A method is an action on the
-- database; the readings of the clock and the fresh identifiers that it makes are its arguments.
pub mod Sources
pub mod Atomic
pub mod Crawls
pub mod Observations
pub mod Jobs
pub mod Checkpoints
pub mod Snapshots
pub mod ParserRuns
pub mod ProxyUsage
pub mod DatasetBatches
