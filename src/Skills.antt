-- ===== src/Skills.antt =====
-- The skill service of backend/app/services.py: drafts are created, forked and repaired as new versions,
-- validated, and published.
mod Patterns
mod Rows
pub mod Drafts
pub mod Lifecycle
pub mod History
pub mod Keys
pub mod Vetting
mod Tests
pub use Rows.*
