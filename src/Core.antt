-- ===== src/Core.antt =====
-- The workflow model (agentflow/core): conditions on edges and the graph.
pub mod Dag
pub mod Expressions
pub mod Workflow
