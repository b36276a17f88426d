-- ===== src/Exports.antt =====
-- Exports of a content version in backend/app/services.py: a request queues a job, and a worker claims
-- it, renders the blocks and stores the file. The object store and the renderers are parameters.
mod Rows
pub mod LocalStore
pub mod Worker
pub mod Requests
pub mod Stored
mod Tests
pub use Rows.*
