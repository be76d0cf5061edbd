-- ===== src/Executor.antt =====
-- The executor of one run (agentflow/executor/dag_executor.py).
pub mod State
pub mod Environment
pub mod Decision
pub mod Passes
pub mod Params
pub mod Verdict
pub mod Attempts
pub mod Node
pub mod Wave
pub mod Run
pub mod Resume
pub mod Approve
pub mod Ensures
pub mod Invariant
pub mod Frame
