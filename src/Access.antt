-- ===== src/Access.antt =====
-- src/access and src/tools: the access policy of a run, from tool names and path grants to the gate
-- in front of the tool executors. Paths are those of the Linux build.
pub mod ToolName
pub mod Paths
pub mod Config
pub mod Lexical
pub mod Validate
pub mod Resolve
pub mod Grant
pub mod Registry
pub mod Policy
pub mod Policies
pub mod Gate
