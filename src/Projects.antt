-- ===== src/Projects.antt =====
-- The pages of a workspace's projects in backend/app/services.py.
mod Texts
pub mod Pages
pub mod Order
pub mod Paging
mod Tests
