-- ===== src/Harness.antt =====
-- packages/groundloom-agent-harness: what the agent's tool calls may spend, the middleware around a
-- tool call, and the projection of a provider's stream into progress events.
pub mod Budgets
pub mod ToolCalls
pub mod Streaming
mod Tests
