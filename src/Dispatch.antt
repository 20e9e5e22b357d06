-- ===== src/Dispatch.antt =====
-- src/event_mcp: the handlers of the pipeline events, from their configuration to the chain that a
-- dispatcher runs.
pub mod Config
pub mod Handler
pub mod Chain
