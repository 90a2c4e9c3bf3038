-- ===== src/Gateway.antt =====
-- The gateway for the tools of the agents: src/tool_gateway.
pub mod Schemas
pub mod Registry
pub mod Policy
pub mod Executor
pub mod Tools
pub mod Authorized
pub mod Execution
pub mod Isolation
pub mod Pages
mod Tests
