-- ===== src/Review.antt =====
-- The review service of backend/app/services.py: a patch is proposed against a version, and a
-- reviewer accepts it into a new version or rejects it. What a function reads before it first
-- writes is a decision over the rows, which returns a value or raises; what it writes follows.
pub mod Reads
mod Writes
pub mod Create
pub mod Accept
pub mod Reject
pub mod Samples
mod Tests
mod ProposalTests
