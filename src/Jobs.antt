-- ===== src/Jobs.antt =====
-- Durable jobs with a lease. Six functions of the backend claim rows in the same way: `claim_agent_runs`,
-- `claim_delegated_tasks`, `claim_export_jobs` and `claim_deletion_requests` of backend/app/services.py,
-- `claim_ingestion_jobs` and `claim_index_rebuild_jobs` of backend/app/application/sources.py. They
-- differ in when a row is free and in what a lease writes, which is the interface `JobTable`.
mod Queue
mod Claims
mod Writes
mod Heartbeats
pub use Queue.*
unfoldable pub use Claims.*
pub use Heartbeats.*
pub use Writes.*
