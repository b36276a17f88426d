-- ===== src/Retention.antt =====
-- The retention policy and the deletion of projects in backend/app/services.py.
mod Rows
pub mod Records
pub mod Requests
pub mod Worker
pub mod Rounds
pub mod Blocked
pub mod Holds
pub mod Shared
mod Tests
pub use Rows.*
