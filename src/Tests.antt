-- ===== src/Tests.antt =====
-- Runs of the model on small databases, and the theorems applied to them.
mod Data
mod QueueRuns
mod RepositoryRuns
mod ContractRuns
mod MigrationRuns
mod WorkerRuns
mod CliRuns
