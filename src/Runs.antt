-- ===== src/Runs.antt =====
-- The runs of the agent and their delegated tasks: the rows of backend/app/models.py, a session over
-- them, the numbered public events of backend/app/application/events.py and the handlers of
-- backend/app/services.py for delegated tasks.
pub mod Tables
mod Events
pub mod Tasks
pub mod Numbering
pub mod Leases
pub mod Worker
mod Tests
pub use Tables.*
unfoldable pub use Events.*
