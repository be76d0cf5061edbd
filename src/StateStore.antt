-- ===== src/StateStore.antt =====
-- The state store (agentflow/statestore): rows, the in-memory store, and what holds of it.
pub mod Rows
pub mod Memory
pub mod Approvals
pub mod Router
