-- ===== src/Store.antt =====
-- The rows that the services share (backend/app/models.py), the request context
-- (backend/app/context.py), raised errors (backend/app/errors.py) and the database session
-- (backend/app/db.py) as a state: what the transaction has written, and what has been committed.
mod Rows
mod Errors
mod Transaction
mod Scopes
pub mod Samples
pub use Rows.*
unfoldable pub use Errors.*
unfoldable pub use Transaction.*
pub use Scopes.*
