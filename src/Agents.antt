-- ===== src/Agents.antt =====
-- The agent worker of backend/app/services.py: it claims queued runs and runs a turn of the agent for each,
-- which is a parameter.
pub mod Worker
pub mod Rounds
mod Tests
